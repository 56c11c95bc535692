-- ===== src/Root/Tests.antt =====
-- A client of a flag and a transaction configuration, and a command that lists what was done to it.
use sandbox_ledger.Base.{
  String, ◌≡◌, refl, ◌↔◌, ◌⊎◌, some, Bool, true, false, none, List, [], ◌∷◌, ◌++◌, foreign, ok, err,
  if◌then◌else◌,
}
use sandbox_ledger.Root.{
  RootLib, enable_textual, enabled_sign_modes, client_context, persistent_pre_run_e,
}
use sandbox_ledger.Root.Failures.{NoContext, RefusedLater, persistent_pre_run_e_fails}
use sandbox_ledger.Root.Laws.{Succeeds, persistent_pre_run_e_iff}

record Client : Type 0 where
  offline : Bool
  sign_modes : List String
  has_cmd : Bool

abbrev lib : RootLib
lib = record {
  Ctx = Client;
  World = List String;
  SignMode = String;
  TxConfig = List String;
  AppConfig = Unit;
  CometConfig = Unit;
  set_streams = λ w. "streams" ∷ w;
  with_cmd_context = λ c. record c { has_cmd = true };
  read_persistent_command_flags =
      λ c w. (if c.has_cmd then ok c else err (foreign "no context"), w);
  read_from_client_config = λ c w. (ok c, "client.toml" ∷ w);
  offline = λ c. c.offline;
  default_sign_modes = "direct" ∷ [];
  sign_mode_textual = "textual";
  new_tx_config_with_options = λ _ modes _. ok modes;
  with_tx_config = λ modes c. record c { sign_modes = modes };
  set_cmd_client_context_handler = λ c w. (none, c.sign_modes ++ w);
  init_app_config = tt;
  default_comet_config = tt;
  intercept_configs_pre_run_handler = λ _ _ w. (none, "configs" ∷ w);
}

abbrev client : Bool → Client
client offline = record { offline = offline; sign_modes = []; has_cmd = false }

online :
    (persistent_pre_run_e lib (client false) []).0
    ≡ (none, "configs" ∷ "direct" ∷ "textual" ∷ "client.toml" ∷ "streams" ∷ [])
unfolding persistent_pre_run_e enable_textual enabled_sign_modes
online = refl

without_node :
    (persistent_pre_run_e lib (client true) []).0
    ≡ (none, "configs" ∷ "client.toml" ∷ "streams" ∷ [])
unfolding persistent_pre_run_e enable_textual enabled_sign_modes
without_node = refl

persistent_pre_run_e_iff_example :
    ((persistent_pre_run_e lib (client false) []).0
        ≡ (none, "configs" ∷ "direct" ∷ "textual" ∷ "client.toml" ∷ "streams" ∷ [])
      ↔ Succeeds lib
          (client false)
          []
          ("configs" ∷ "direct" ∷ "textual" ∷ "client.toml" ∷ "streams" ∷ []))
    × ((persistent_pre_run_e lib (client false) []).1 ≡ record (client false) { has_cmd = true })
persistent_pre_run_e_iff_example =
    persistent_pre_run_e_iff lib (client false) []
      ("configs" ∷ "direct" ∷ "textual" ∷ "client.toml" ∷ "streams" ∷ [])

-- Without a node there is no metadata, and so no transaction configuration.
abbrev no_node : RootLib
no_node = record lib { new_tx_config_with_options = λ _ modes _. err (foreign "no node") }

persistent_pre_run_e_fails_example :
    ((persistent_pre_run_e no_node (client false) []).0
      ≡ (some (foreign "no node"), "client.toml" ∷ "streams" ∷ []))
    ↔ (NoContext no_node
          (record (client false) { has_cmd = true })
          ("streams" ∷ [])
          (foreign "no node")
          ("client.toml" ∷ "streams" ∷ [])
        ⊎ ((ctx : Client) × (v : List String) × (client_context no_node
                (record (client false) { has_cmd = true })
                ("streams" ∷ [])
              ≡ (ok ctx, v))
            × RefusedLater no_node ctx v (foreign "no node") ("client.toml" ∷ "streams" ∷ [])))
persistent_pre_run_e_fails_example =
    persistent_pre_run_e_fails no_node (client false) [] ("client.toml" ∷ "streams" ∷ [])
      (foreign "no node")
