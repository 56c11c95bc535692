-- ===== src/SdkConfig/Laws.antt =====
-- The configuration is set up once and sealed, and a second seal does no harm.
use sandbox_ledger.Base.{
  [], ℕ, zero, suc, ◌≡◌, refl, ◌∙◌, Bool, true, false, Error, Outcome, returned, panicked, ◌>>=◌,
  or_exit, ok, on_ok, on_ok_inv, bind_eq,
}
use sandbox_ledger.SdkConfig.{
  SdkConfigLib, setup_sdk_config, TestProcess, safe_set_address_prefixes, Commands, init_root_cmd,
  new_root_cmd, main,
}
use sandbox_ledger.Wiring.{App}
use sandbox_ledger.Client.{ClientContext, initial_client_context, encoding_config}
use sandbox_ledger.CommandTree.{root_commands}
use sandbox_ledger.Wiring.Build.{new_app}
use sandbox_ledger.Wiring.Answers.{Answers, result}
use sandbox_ledger.Wiring.Complete.{new_app_eq}

module _ (l : SdkConfigLib) where
  open l use {Config}

  -- How `sdk.Config` is documented to behave: a setter panics on a sealed configuration and
  -- otherwise leaves it open, and sealing never fails.
  pub record SealLaws : Type 0 where
    pub is_sealed : Config → Bool
    pub prefixes_sealed :
        (c : Config) → is_sealed c ≡ true → (e : Error) × (l.set_bech32_prefixes c ≡ panicked e)
    pub prefixes_open :
        (c : Config)
        → is_sealed c ≡ false
        → (c' : Config) × (l.set_bech32_prefixes c ≡ returned c') × (is_sealed c' ≡ false)
    pub coin_type_open :
        (c : Config)
        → is_sealed c ≡ false
        → (c' : Config) × (l.set_coin_type c ≡ returned c') × (is_sealed c' ≡ false)
    pub purpose_open :
        (c : Config)
        → is_sealed c ≡ false
        → (c' : Config) × (l.set_purpose c ≡ returned c') × (is_sealed c' ≡ false)
    pub path_open :
        (c : Config)
        → is_sealed c ≡ false
        → (c' : Config) × (l.set_full_fundraiser_path c ≡ returned c') × (is_sealed c' ≡ false)
    pub seals : (c : Config) → (c' : Config) × (l.seal c ≡ returned c') × (is_sealed c' ≡ true)

  -- `n` calls, one after the other.
  abbrev pub calls : ℕ → TestProcess l → Outcome (TestProcess l)
  calls zero p = returned p
  calls (suc n) p = safe_set_address_prefixes l p >>= calls n

  module _ (laws : SealLaws) where
    open laws use {is_sealed}

    -- `setupSDKConfig` returns with a sealed configuration from an open one, and panics over the
    -- one that it has sealed: it can run once in a process.
    setup_sdk_config_once :
        (c : Config)
        → is_sealed c ≡ false
        → (c' : Config) × (setup_sdk_config l c ≡ returned c')
          × (is_sealed c' ≡ true)
          × ((e : Error) × (setup_sdk_config l c' ≡ panicked e))
    unfolding setup_sdk_config
    setup_sdk_config_once c open_ =
        let (c1, p1, o1) = laws.prefixes_open c open_ in
        let (c2, p2, o2) = laws.coin_type_open c1 o1 in
        let (c3, p3, o3) = laws.purpose_open c2 o2 in
        let (c4, p4, o4) = laws.path_open c3 o3 in
        let (c5, p5, sealed) = laws.seals c4 in
        let (e, fails) = laws.prefixes_sealed c5 sealed in
        (c5, rw (p1, p2, p3, p4, p5) refl, sealed, (e, rw fails refl))

    calls-done : (n : ℕ) (p : TestProcess l) → p.done ≡ true → calls n p ≡ returned p
    unfolding safe_set_address_prefixes
    calls-done zero p done = refl
    calls-done (suc n) p done =
        rw done (calls-done n (record { done = true; config = p.config }) refl)

    -- In a process in which nothing has set the configuration up, any number of calls of
    -- `SafeSetAddressPrefixes` but none at all do what `setupSDKConfig` does once: no call panics,
    -- and the configuration is the sealed one of the first call.
    pub safe_set_address_prefixes-setup_sdk_config :
        (n : ℕ) (c : Config)
        → is_sealed c ≡ false
        → (c' : Config) × (setup_sdk_config l c ≡ returned c')
          × (is_sealed c' ≡ true)
          × (calls (suc n) (record { done = false; config = c })
              ≡ returned (record { done = true; config = c' }))
    unfolding safe_set_address_prefixes
    safe_set_address_prefixes-setup_sdk_config n c open_ =
        let (c', p, sealed, _) = setup_sdk_config_once c open_ in
        (c', p, sealed, rw p (calls-done n (record { done = true; config = c' }) refl))

    -- The client context for the generated commands, whether or not the client's configuration could
    -- be read.
    abbrev pub client_context : (c : Commands l) → App → c.Home → ClientContext c.Home
    client_context c app home =
        (c.read_from_client_config (initial_client_context (encoding_config app) home)).0

    -- The root command that comes of an application, if nothing fails.
    abbrev pub Builds : (c : Commands l) → App → (c.Home → c.RootCmd) → Type 0
    Builds c app root =
        (home : c.Home)
        → on_ok (c.add_tx_flags (c.commands app home root_commands))
            (c.enhance_root_command app (client_context c app home))
          ≡ ok (root home)

    new_root_cmd_eq :
        (c : Commands l) (answers : Answers c.env 0 true) (home : c.Home) (root : c.RootCmd)
        (cfg sealed : Config)
        → l.seal cfg ≡ returned sealed
        → on_ok
            (c.add_tx_flags (c.commands (result c.env 0 true [] answers).0 home root_commands))
            (c.enhance_root_command
              (result c.env 0 true [] answers).0
              (client_context c (result c.env 0 true [] answers).0 home))
          ≡ ok root
        → new_root_cmd l c home cfg ≡ returned (root, sealed)
    unfolding new_root_cmd init_root_cmd
    new_root_cmd_eq c answers home root cfg sealed seal builds =
        let app = (result c.env 0 true [] answers).0 in
        let (flagged, flags, enhanced) =
          on_ok_inv (c.add_tx_flags (c.commands app home root_commands)) _ builds in
        bind_eq (new_app c.env 0 true []) _ (new_app_eq c.env 0 true [] answers)
        ∙ rw (seal, flags, enhanced) refl

    -- Where the temporary application's `NewApp` gets the answers that it needs and the commands can
    -- be built, `main` does not panic, though it seals the configuration twice, in `setupSDKConfig`
    -- and in `initRootCmd`, and whether or not the client's configuration can be read: it ends with
    -- status 1 if there is no home directory or the command fails, and well otherwise.
    pub main_seals :
        (c : Commands l) (answers : Answers c.env 0 true) (root : c.Home → c.RootCmd) (cfg : Config)
        → Builds c (result c.env 0 true [] answers).0 root
        → is_sealed cfg ≡ false
        → (final : Config) × (is_sealed final ≡ true)
          × (main l c cfg ≡ (
              or_exit c.home_directory >>= λ home.
              or_exit (c.execute (root home)) >>= λ _. returned final))
    unfolding main
    main_seals c answers root cfg builds open_ =
        let (set_up, p, _, _) = setup_sdk_config_once cfg open_ in
        let (final, seal, sealed) = laws.seals set_up in
        let made = λ (home : c.Home).
          new_root_cmd_eq c answers home (root home) set_up final seal (builds home) in
        (
          final,
          sealed,
          bind_eq (setup_sdk_config l cfg) _ p ∙ (λ i. or_exit c.home_directory >>= λ home.
              made home i >>= λ (cmd, end). or_exit (c.execute cmd) >>= λ _. returned end),
        )
