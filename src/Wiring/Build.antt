-- ===== src/Wiring/Build.antt =====
-- `NewApp`: every call of it that can fail, in order, with what it sets in between.
use sandbox_ledger.Base.{
  ℕ, Bool, true, false, Option, none, some, List, [], ◌∷◌, ◌++◌, Error, Result, ok, err, Outcome,
  returned, panicked, ◌>>=◌, ◌>>◌, or_panic, or_exit,
}
use sandbox_ledger.Base.Int.{ℤ}
use sandbox_ledger.BaseSetup.{BaseOption, Machine, non_transient_keys, set_up_base}
use sandbox_ledger.Modules.{ManagerLib, HookOrders, set_module_orders}
use sandbox_ledger.Ante.{HandlerOptions, AnteLib, AnteHandler, new_poa_evm_ante_handler}
use sandbox_ledger.Mempool.{MempoolLib, Slots, nil_interface, configure_evm_mempool}
use sandbox_ledger.Wiring.{App, Ref, empty_app}
use sandbox_ledger.Wiring.Keepers.{Inputs, make_keepers}
use sandbox_ledger.Wiring.Handlers.{mount_stores, set_hooks, set_ante_handler, set_post_handler}

-- What the packages that `NewApp` calls answer.
pub record Env : Type 1 where
  pub machine : Machine
  pub register_streaming_services : Result (Unit {0})
  -- the options `EVMChainID` and `UnsafeSkipUpgrades`, as `cast` reads them
  pub evm_chain_id : ℕ
  pub unsafe_skip_upgrades : List ℤ
  pub new_tx_config_with_options : Result (Unit {0})
  pub manager : ManagerLib
  -- the module manager's `RegisterServices`
  pub register_services : Result (Unit {0})
  pub validate : HandlerOptions Ref → Result (Unit {0})
  pub new_post_handler : Result (Unit {0})
  pub FeeMarketParams : Type 0
  pub EvmParams : Type 0
  pub Context : Type 0
  pub Body : Type 0
  pub ante : AnteLib Ref FeeMarketParams EvmParams Context Body
  pub mempool : MempoolLib
  pub opts : mempool.O
  -- the handler as the base application hands it to the mempool
  pub installed : AnteHandler Context Body → mempool.AnteHandler
  -- what the base application answers while no handler is set
  pub no_handler : mempool.AnteHandler
  -- the query contexts, keepers and transaction configuration that the mempool is made of
  pub parts : App → mempool.A
  pub ProtoFiles : Type 0
  pub merged_registry : Result ProtoFiles
  pub validate_proto_annotations : ProtoFiles → Result (Unit {0})
  pub load_latest_version : Result (Unit {0})

-- `app.AnteHandler()`
unfoldable pub ante_handler_of : (e : Env) → App → e.mempool.AnteHandler
ante_handler_of e app = elim app.ante_options [
  | none ↦ e.no_handler
  | some o ↦ e.installed (new_poa_evm_ante_handler e.ante o)
]

-- The application's slots before `configureEVMMempool`.
unfoldable pub slots : (e : Env) → App → Slots e.mempool
unfolding ante_handler_of
slots e app = record {
  parts = e.parts app;
  ante_handler = ante_handler_of e app;
  evm_mempool = nil_interface;
  check_tx = none;
  prepare_proposal = none;
  base_mempool = nil_interface;
}

-- `if err := app.configureEVMMempool(…); err != nil { panic(…) }`; the text around the error is left
-- out.
unfoldable pub mempool_or_panic : {A : Type 0} → Option Error × A → Outcome A
mempool_or_panic (none, a) = returned a
mempool_or_panic (some e, a) = panicked e

-- The check of the proto annotations, whose error is only printed.
unfoldable pub print_error : Result (Unit {0}) → App → App
print_error (ok _) app = app
print_error (err e) app = record app { printed = app.printed ++ e ∷ [] }

unfoldable pub load_if : Bool → Result (Unit {0}) → App → Outcome App
load_if false load app = returned app
load_if true load app = do or_exit load; returned (record app { loaded = true })

-- `module.NewConfigurator`
unfoldable pub set_configurator : App → App
set_configurator app = record app { configurator = some app.app_codec }

-- What `NewApp` makes the keepers of.
abbrev pub inputs : Env → Inputs
inputs e = record {
  unsafe_skip_upgrades = e.unsafe_skip_upgrades;
  non_transient_keys = non_transient_keys e.machine;
  evm_chain_id = e.evm_chain_id;
}

unfoldable pub set_orders : HookOrders → App → App
set_orders orders app = record app { orders = some orders }

-- `NewApp` up to the first handlers: the base application, the keepers, the modules, their orders and services, and the
-- stores. The transaction configuration is made behind the bank keeper, of which a panic leaves
-- nothing.
unfoldable pub assemble : Env → List BaseOption → Outcome App
assemble e base_app_options = do
  let base = set_up_base e.machine base_app_options
  or_exit e.register_streaming_services
  or_panic e.new_tx_config_with_options
  let app = make_keepers (inputs e) (empty_app e.evm_chain_id base)
  orders ← set_module_orders e.manager
  or_panic e.register_services
  returned (set_hooks (mount_stores (set_configurator (set_orders orders app))))

-- Both of the transaction handlers, for the options' limit of gas.
unfoldable pub set_handlers : Env → ℕ → App → Outcome App
set_handlers e max_gas_wanted app = do
  with_ante ← set_ante_handler e.validate max_gas_wanted app
  set_post_handler e.new_post_handler with_ante

-- `NewApp` behind the mempool, for `loadLatest`.
unfoldable pub check_and_load : Env → Bool → App → Outcome App
check_and_load e load_latest app = do
  proto_files ← or_panic e.merged_registry
  load_if load_latest e.load_latest_version
      (print_error (e.validate_proto_annotations proto_files) app)

-- `NewApp`, for the options' limit of gas, `loadLatest`, and the options of the base application
unfoldable pub new_app : (e : Env) → ℕ → Bool → List BaseOption → Outcome (App × Slots e.mempool)
new_app e max_gas_wanted load_latest base_app_options = do
  assembled ← assemble e base_app_options
  handled ← set_handlers e max_gas_wanted assembled
  with_mempool ← mempool_or_panic (configure_evm_mempool e.mempool e.opts (slots e handled))
  loaded ← check_and_load e load_latest handled
  returned (loaded, with_mempool)
