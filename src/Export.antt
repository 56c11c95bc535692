-- ===== src/Export.antt =====
-- app/export.go, and `appExport` and `LoadHeight` of app/app.go: the state that the export command
-- writes.
pub mod Laws
pub mod Height
mod Tests
use sandbox_ledger.Base.{
  [], ℕ, String, Bool, true, false, Option, none, some, List, Error, not_viper, Result, ok, err,
  Outcome, returned, ◌>>=◌, if◌then◌else◌, not,
}
use sandbox_ledger.Base.Int.{ℤ, pos, is_minus_one, suc_int64}
use sandbox_ledger.Mempool.{Slots}
use sandbox_ledger.Wiring.{App as SandboxApp}
use sandbox_ledger.Wiring.Build.{Env, new_app}

-- `servertypes.ExportedApp`, of which the source sets three fields.
pub record ExportedApp (Params : Type 0) : Type 0 where
  pub app_state : String
  pub height : ℤ
  pub consensus_params : Params

-- The options of a command: a `*viper.Viper`, or a value of another type.
pub data AppOptions (Viper : Type 0) : Type 0 where
  viper : Viper → AppOptions Viper
  other : AppOptions Viper

-- The calls that the export makes of the application's base and of its module manager, and the
-- answers to `NewApp`. `App` is the application with its loaded state.
pub record ExportLib : Type 1 where
  pub App : Type 0
  pub Context : Type 0
  pub Genesis : Type 0
  pub Params : Type 0
  pub Viper : Type 0
  pub last_block_height : App → ℤ
  -- a context of the application, for checking, at a height
  pub new_context_legacy : App → ℤ → Context
  pub export_genesis_for_modules : App → Context → List String → Result Genesis
  pub marshal_indent : Genesis → Result String
  pub get_consensus_params : App → Context → Params
  -- sets the invariant check period to 1
  pub set_inv_check_period : Viper → Viper
  -- what the packages that `NewApp` calls answer for options, and the options' limit of gas
  pub env : Viper → Env
  pub max_gas_wanted : Viper → ℕ
  -- what `NewApp` has built, with the state that it has loaded, if it has
  pub running : (v : Viper) → Bool → SandboxApp × Slots (env v).mempool → App
  pub load_version : ℤ → App → Result App

module _ (l : ExportLib) where
  open l use {App, Context, Genesis, Params, Viper}

  -- `NewApp` for a command, by whether it loads the latest version, and the options
  unfoldable pub start : Bool → Viper → Outcome App
  start load_latest v = do
    made ← new_app (l.env v) (l.max_gas_wanted v) load_latest []
    returned (l.running v load_latest made)

  abbrev pub Exported : Type 0
  Exported = Result (ExportedApp Params)

  export_genesis : App → Context → ℤ → Genesis → Exported
  export_genesis app ctx height gen_state = elim (l.marshal_indent gen_state) [
    | err e ↦ err e
    | ok app_state ↦ ok (record {
      app_state = app_state;
      height = height;
      consensus_params = l.get_consensus_params app ctx;
    })
  ]

  -- `ExportAppStateAndValidators`; the source ignores the list of jailed addresses.
  unfoldable pub export_app_state_and_validators : App → Bool → List String → List String → Exported
  unfolding export_genesis
  export_app_state_and_validators app for_zero_height _ modules_to_export =
      let ctx = l.new_context_legacy app (l.last_block_height app) in
      let height = if for_zero_height then pos 0 else suc_int64 (l.last_block_height app) in
      elim (l.export_genesis_for_modules app ctx modules_to_export) [
        | err e ↦ err e
        | ok gen_state ↦ export_genesis app ctx height gen_state
      ]

  -- `LoadHeight`
  unfoldable pub load_height : ℤ → App → Result App
  load_height h app = l.load_version h app

  export_loaded : Result App → Bool → List String → List String → Exported
  export_loaded (err e) for_zero_height jail_allowed modules = err e
  export_loaded (ok app) for_zero_height jail_allowed modules =
      export_app_state_and_validators app for_zero_height jail_allowed modules

  -- `appExport`; the options come back as the call leaves them.
  unfoldable pub app_export :
      ℤ
      → Bool
      → List String
      → AppOptions Viper
      → List String
      → Outcome (Exported × AppOptions Viper)
  unfolding export_loaded export_app_state_and_validators load_height
  app_export height for_zero_height jail_allowed other modules = returned (err not_viper, other)
  app_export height for_zero_height jail_allowed (viper v) modules =
      let opts = l.set_inv_check_period v in
      if not (is_minus_one height)
      then (do
        app ← start false opts
        returned (
          export_loaded (load_height height app) for_zero_height jail_allowed modules,
          viper opts,
        ))
      else (do
        app ← start true opts
        returned
            (export_app_state_and_validators app for_zero_height jail_allowed modules, viper opts))
