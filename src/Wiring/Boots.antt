-- ===== src/Wiring/Boots.antt =====
-- `NewApp` returns a complete application where the packages that it calls do what they promise.
use sandbox_ledger.Base.{ℕ, ◌≡◌, Bool, List, [], ◌∷◌, Result, ok, returned}
use sandbox_ledger.Base.Lists.{All}
use sandbox_ledger.Modules.Orders.{PassesComplete, HooksOf, set_module_orders-WellOrdered}
use sandbox_ledger.Ante.{HandlerOptions}
use sandbox_ledger.BaseSetup.{BaseOption}
use sandbox_ledger.Mempool.{Slots}
use sandbox_ledger.Wiring.{App, Ref}
use sandbox_ledger.Wiring.Handlers.{ante_handler_options}
use sandbox_ledger.Wiring.Build.{Env, new_app}
use sandbox_ledger.Wiring.Answers.{Answers, Loads, result}
use sandbox_ledger.Wiring.Complete.{new_app_eq}
use sandbox_ledger.Wiring.Dependencies.{IsPresent, IsComplete, new_app-IsComplete}

-- The fields that `HandlerOptions.Validate` asks for.
abbrev pub AreSet : HandlerOptions Ref → Type 0
AreSet o = All IsPresent (
    o.account_keeper ∷ o.bank_keeper ∷ o.ibc_keeper ∷ o.fee_market_keeper ∷ o.evm_keeper
    ∷ o.sign_mode_handler ∷ o.sig_gas_consumer ∷ o.pending_tx_listener ∷ [])

-- `Validate` accepts options in which they are set.
abbrev pub AcceptsSet : (HandlerOptions Ref → Result (Unit {0})) → Type 0
AcceptsSet validate = (o : HandlerOptions Ref) → AreSet o → validate o ≡ ok tt

options-AreSet : (g : ℕ) (app : App) → AreSet (ante_handler_options g app)
unfolding ante_handler_options
options-AreSet g app = (tt, (tt, (tt, (tt, (tt, (tt, (tt, (tt, tt))))))))

-- If the module manager's check passes complete orders and the modules have the hooks that they
-- have, `Validate` accepts options whose keepers and functions are set, and the other calls that
-- `NewApp` makes succeed, then neither the orders of the modules nor the options of the ante
-- handler make it fail: it returns, and every keeper that the application holds is complete.
pub new_app_boots :
    (e : Env) (g : ℕ) (load_latest : Bool) (opts : List BaseOption) (files : e.ProtoFiles)
    → PassesComplete e.manager
    → HooksOf e.manager
    → AcceptsSet e.validate
    → e.register_streaming_services ≡ ok tt
    → e.new_tx_config_with_options ≡ ok tt
    → e.register_services ≡ ok tt
    → e.new_post_handler ≡ ok tt
    → e.merged_registry ≡ ok files
    → Loads load_latest e.load_latest_version
    → (r : App × Slots e.mempool) × (new_app e g load_latest opts ≡ returned r) × IsComplete r.0
new_app_boots e g load_latest opts files passes hooks accepts streaming tx_config services post
      registry load =
    let (orders, ordered, _, _, _, _, _) = set_module_orders-WellOrdered e.manager hooks passes in
    let answers : Answers e g load_latest = record {
      streaming = streaming;
      tx_config = tx_config;
      orders = orders;
      ordered = ordered;
      services = services;
      valid = accepts _ (options-AreSet g _);
      post = post;
      files = files;
      registry = registry;
      load = load;
    } in
    let returns = new_app_eq e g load_latest opts answers in
    (
      result e g load_latest opts answers,
      returns,
      new_app-IsComplete e g load_latest opts (result e g load_latest opts answers) returns,
    )
