-- ===== src/SdkConfig.antt =====
-- cmd/sandboxd/main.go, `main` and `setupSDKConfig`, and testutil/address_prefix.go: how the SDK's
-- global configuration is set and sealed, in the binary and in tests. `NewRootCmd` of app/app.go
-- seals it too, in `initRootCmd`.
pub mod Laws
mod Tests
use sandbox_ledger.Base.{
  Option, List, [], Bool, true, false, Error, Result, ok, err, Outcome, returned, panicked, exited,
  ◌>>=◌, ◌>>◌, or_exit, or_panic, if◌then◌else◌,
}
use sandbox_ledger.Wiring.{App}
use sandbox_ledger.Client.{encoding_config, ClientContext, initial_client_context}
use sandbox_ledger.CommandTree.{Subcommand, root_commands}
use sandbox_ledger.Wiring.Build.{Env, new_app}

-- The operations of `sdk.Config` on the configuration, and what else `main` calls.
pub record SdkConfigLib : Type 1 where
  pub Config : Type 0
  -- `evmconfig.SetBech32Prefixes`
  pub set_bech32_prefixes : Config → Outcome Config
  -- `SetCoinType(hd.Bip44CoinType)`
  pub set_coin_type : Config → Outcome Config
  -- `SetPurpose(sdk.Purpose)`
  pub set_purpose : Config → Outcome Config
  -- `SetFullFundraiserPath(hd.BIP44HDPath)`
  pub set_full_fundraiser_path : Config → Outcome Config
  pub seal : Config → Outcome Config

module _ (l : SdkConfigLib) where
  open l use {Config}

  -- `setupSDKConfig`
  unfoldable pub setup_sdk_config : Config → Outcome Config
  setup_sdk_config cfg = do
    prefixed ← l.set_bech32_prefixes cfg
    typed ← l.set_coin_type prefixed
    purposed ← l.set_purpose typed
    funded ← l.set_full_fundraiser_path purposed
    l.seal funded

  -- The package variable `once` of testutil, whether it has run, and the configuration.
  pub record TestProcess : Type 0 where
    pub done : Bool
    pub config : Config

  -- `SafeSetAddressPrefixes`; the function inside it is that of `setupSDKConfig`.
  unfoldable pub safe_set_address_prefixes : TestProcess → Outcome TestProcess
  unfolding setup_sdk_config
  safe_set_address_prefixes p = if p.done then returned p else (do
    set_up ← setup_sdk_config p.config
    returned (record { done = true; config = set_up }))

  -- What else `main` and `NewRootCmd` call, with the answers to the temporary application's
  -- `NewApp`.
  pub record Commands : Type 1 where
    pub Home : Type 0
    pub RootCmd : Type 0
    pub home_directory : Result Home
    -- `clientcfg.ReadFromClientConfig`, which returns a context also with an error
    pub read_from_client_config : ClientContext Home → ClientContext Home × Option Error
    pub env : Env
    -- the root command with its subcommands, over the application
    pub commands : App → Home → List Subcommand → RootCmd
    -- `srvflags.AddTxFlags`
    pub add_tx_flags : RootCmd → Result RootCmd
    -- `EnhanceRootCommand` of the application's `AutoCliOpts`, with their `ClientCtx`
    pub enhance_root_command : App → ClientContext Home → RootCmd → Result RootCmd
    pub execute : RootCmd → Result (Unit {0})

  -- `initRootCmd`
  unfoldable pub init_root_cmd :
      (c : Commands) → App → c.Home → Config → Outcome (c.RootCmd × Config)
  init_root_cmd c app home cfg = do
    sealed ← l.seal cfg
    flagged ← or_panic (c.add_tx_flags (c.commands app home root_commands))
    returned (flagged, sealed)

  -- `NewRootCmd`; its temporary application has no options, so its limit of gas is 0.
  unfoldable pub new_root_cmd : (c : Commands) → c.Home → Config → Outcome (c.RootCmd × Config)
  unfolding init_root_cmd
  new_root_cmd c home cfg = do
    temp_app ← new_app c.env 0 true []
    let init_client_ctx = initial_client_context (encoding_config temp_app.0) home
    made ← init_root_cmd c temp_app.0 home cfg
    let read = c.read_from_client_config init_client_ctx
    root_cmd ← or_panic (c.enhance_root_command temp_app.0 read.0 made.0)
    returned (root_cmd, made.1)

  -- `main`, with the configuration in which the process ends well
  unfoldable pub main : Commands → Config → Outcome Config
  unfolding setup_sdk_config new_root_cmd
  main c cfg = do
    set_up ← setup_sdk_config cfg
    home ← or_exit c.home_directory
    root ← new_root_cmd c home set_up
    or_exit (c.execute root.0)
    returned root.1
