-- ===== src/Root.antt =====
-- app/app.go, the `PersistentPreRunE` of `NewRootCmd`: what happens before each command runs.
pub mod Laws
pub mod Failures
mod Tests
use sandbox_ledger.Base.{
  Bool, true, false, Option, none, some, List, [], ◌∷◌, ◌++◌, Error, Result, ok, err, on_ok,
  if◌then◌else◌,
}

-- The calls of other packages. `Ctx` is `client.Context`, `World` the command with its server
-- context, and the files of the node's home. The flags of the command are those of the run. A call
-- that fails may have changed the world as well.
pub record RootLib : Type 1 where
  pub Ctx : Type 0
  pub World : Type 0
  pub SignMode : Type 0
  pub TxConfig : Type 0
  pub AppConfig : Type 0
  pub CometConfig : Type 0
  -- `cmd.SetOut(…)` and `cmd.SetErr(…)`
  pub set_streams : World → World
  pub with_cmd_context : Ctx → Ctx
  pub read_persistent_command_flags : Ctx → World → Result Ctx × World
  -- It writes the client's configuration where there is none.
  pub read_from_client_config : Ctx → World → Result Ctx × World
  pub offline : Ctx → Bool
  pub default_sign_modes : List SignMode
  pub sign_mode_textual : SignMode
  -- `authtx.NewTxConfigWithOptions` with the codec of a context, the sign modes that are enabled,
  -- and the metadata of coins queried through a context
  pub new_tx_config_with_options : Ctx → List SignMode → Ctx → Result TxConfig
  pub with_tx_config : TxConfig → Ctx → Ctx
  pub set_cmd_client_context_handler : Ctx → World → Option Error × World
  -- `evmconfig.InitAppConfig` and `cmtcfg.DefaultConfig`
  pub init_app_config : AppConfig
  pub default_comet_config : CometConfig
  pub intercept_configs_pre_run_handler : AppConfig → CometConfig → World → Option Error × World

module _ (l : RootLib) where
  open l use {Ctx, World}

  -- The sign modes of a context that is not offline.
  unfoldable pub enabled_sign_modes : List l.SignMode
  enabled_sign_modes = l.default_sign_modes ++ l.sign_mode_textual ∷ []

  -- `if !initClientCtx.Offline { … }`
  unfoldable pub enable_textual : Ctx → Result Ctx
  enable_textual ctx =
      if l.offline ctx
      then ok ctx
      else on_ok (l.new_tx_config_with_options ctx enabled_sign_modes ctx)
          (λ tx_cfg. ok (l.with_tx_config tx_cfg ctx))

  -- What follows a call that has succeeded, in the world that it has left.
  pub on_success :
      {A B : Type 0} → Result A × World → (A → World → Result B × World) → Result B × World
  on_success (err e, w) next = (err e, w)
  on_success (ok a, w) next = next a w

  -- The context that the command gets, from the flags and the client's configuration.
  unfoldable pub client_context : Ctx → World → Result Ctx × World
  unfolding on_success
  client_context ctx w = on_success (l.read_persistent_command_flags ctx w) (λ flagged w1.
      on_success (l.read_from_client_config flagged w1)
        (λ configured w2. (enable_textual configured, w2)))

  after_handler : Option Error × World → Option Error × World
  after_handler (some e, w) = (some e, w)
  after_handler (none, w) =
      l.intercept_configs_pre_run_handler l.init_app_config l.default_comet_config w

  -- The end of the function, from `SetCmdClientContextHandler` on.
  unfoldable pub hand_over : Result Ctx × World → Option Error × World
  unfolding after_handler
  hand_over (err e, w) = (some e, w)
  hand_over (ok ctx, w) = after_handler (l.set_cmd_client_context_handler ctx w)

  -- `PersistentPreRunE`, with the captured `initClientCtx` that it leaves behind: the second
  -- assignment in the source declares a new variable.
  unfoldable pub persistent_pre_run_e : Ctx → World → (Option Error × World) × Ctx
  unfolding client_context hand_over
  persistent_pre_run_e init_client_ctx w =
      let ctx = l.with_cmd_context init_client_ctx in
      (hand_over (client_context ctx (l.set_streams w)), ctx)
