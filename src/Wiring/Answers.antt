-- ===== src/Wiring/Answers.antt =====
-- What `NewApp` needs of the calls that it makes, and the application that they make together.
use sandbox_ledger.Base.{
  ℕ, ◌≡◌, refl, inl, inr, Bool, true, false, Option, none, some, List, [], ◌∷◌, ◌++◌, Error, Result,
  ok, ◌||◌, returned, Bool-cases,
}
use sandbox_ledger.Base.Int.{is_negative}
use sandbox_ledger.BaseSetup.{BaseOption, new_base_app, set_up_base}
use sandbox_ledger.Ante.{HandlerOptions}
use sandbox_ledger.Modules.{HookOrders, set_module_orders}
use sandbox_ledger.Mempool.{MempoolLib, Slots, configure_evm_mempool}
use sandbox_ledger.Names.{poa}
use sandbox_ledger.Wiring.{ante_handler, post_handler, App, Ref, empty_app}
use sandbox_ledger.Wiring.Keepers.{Inputs, make_keepers}
use sandbox_ledger.Wiring.Handlers.{mount_stores, set_hooks, ante_handler_options}
use sandbox_ledger.Wiring.Build.{
  Env, inputs, set_configurator, set_orders, slots, mempool_or_panic, print_error,
}

pub configure_fst :
    (l : MempoolLib) (o : l.O) (s : Slots l) → (configure_evm_mempool l o s).0 ≡ none
unfolding configure_evm_mempool
configure_fst l o s = elim (Bool-cases l.has_chain_config) [
  | inl chain ↦ elim (Bool-cases (is_negative (l.get_cosmos_pool_max_tx o))) [
    | inl off ↦ rw (chain, off) refl
    | inr on ↦ rw (chain, on) refl
  ]
  | inr no_chain ↦ rw no_chain refl
]

pub mempool_or_panic_eq :
    {A : Type 0} (p : Option Error × A) → p.0 ≡ none → mempool_or_panic p ≡ returned p.1
unfolding mempool_or_panic
mempool_or_panic_eq (none, a) h = refl
mempool_or_panic_eq (some e, a) h = cc

-- The latest version is loaded where it is asked for.
abbrev pub Loads : Bool → Result (Unit {0}) → Type 0
Loads false load = Unit
Loads true load = load ≡ ok tt

-- The application in front of the transaction handlers.
abbrev pub assembled : Env → List BaseOption → HookOrders → App
assembled e opts orders =
    let base = set_up_base e.machine opts in
    let app = make_keepers (inputs e) (empty_app e.evm_chain_id base) in
    set_hooks (mount_stores (set_configurator (set_orders orders app)))

-- The options of the ante handler depend on nothing but the keepers and the limit of gas.
abbrev pub options : ℕ → HandlerOptions Ref
options g =
    let none_given : Inputs = record {
      unsafe_skip_upgrades = [];
      non_transient_keys = [];
      evm_chain_id = 0;
    } in
    ante_handler_options g (make_keepers none_given (empty_app 0 (new_base_app [])))

pub options_eq :
    (e : Env) (opts : List BaseOption) (orders : HookOrders) (g : ℕ)
    → ante_handler_options g (assembled e opts orders) ≡ options g
unfolding set_hooks mount_stores set_configurator set_orders make_keepers ante_handler_options
options_eq e opts orders g = refl

abbrev pub with_ante : ℕ → App → App
with_ante g app = record app {
  fee_recipient_module = some poa;
  ante_options = some (ante_handler_options g app);
  hooks = app.hooks ++ ante_handler ∷ [];
}

abbrev pub with_post : App → App
with_post app = record app { hooks = app.hooks ++ post_handler ∷ [] }

abbrev pub handled : Env → List BaseOption → ℕ → HookOrders → App
handled e opts g orders = with_post (with_ante g (assembled e opts orders))

abbrev pub checked : (e : Env) → Bool → e.ProtoFiles → App → App
checked e load_latest files app =
    let app = print_error (e.validate_proto_annotations files) app in
    record app { loaded = load_latest || app.loaded }

-- What `NewApp` needs of the calls that it makes. The check of the proto annotations is not among
-- them, nor is the configuration of the mempool.
pub record Answers (e : Env) (g : ℕ) (load_latest : Bool) : Type 0 where
  pub streaming : e.register_streaming_services ≡ ok tt
  pub tx_config : e.new_tx_config_with_options ≡ ok tt
  pub orders : HookOrders
  pub ordered : set_module_orders e.manager ≡ returned orders
  pub services : e.register_services ≡ ok tt
  pub valid : e.validate (options g) ≡ ok tt
  pub post : e.new_post_handler ≡ ok tt
  pub files : e.ProtoFiles
  pub registry : e.merged_registry ≡ ok files
  pub load : Loads load_latest e.load_latest_version

-- The application that `NewApp` returns, with its mempool.
abbrev pub result :
    (e : Env) (g : ℕ) (b : Bool) (opts : List BaseOption) → Answers e g b → App × Slots e.mempool
result e g b opts a = (
  checked e b a.files (handled e opts g a.orders),
  (configure_evm_mempool e.mempool e.opts (slots e (handled e opts g a.orders))).1,
)
