-- ===== src/Wiring/Tests.antt =====
-- `NewApp` at the sample, and without state streaming.
use sandbox_ledger.Base.{
  panicked, arith, ℕ, Option, none, some, ok, ◌≡◌, refl, ◌↔◌, true, [], foreign, err, returned,
  exited, ◌≢◌, ◌⊎◌,
}
use sandbox_ledger.Base.Lists.{All}
use sandbox_ledger.Modules.{set_module_orders}
use sandbox_ledger.Mempool.{Slots}
use sandbox_ledger.Wiring.{Ref, App, keeper_of}
use sandbox_ledger.Wiring.Handlers.{ante_handler_options}
use sandbox_ledger.Wiring.Build.{Env, assemble, new_app}
use sandbox_ledger.Wiring.Answers.{Answers, result}
use sandbox_ledger.Wiring.Complete.{new_app_eq, new_app_iff}
use sandbox_ledger.Wiring.Dependencies.{IsPresent, IsComplete, with_keeper, new_app-IsComplete}
use sandbox_ledger.BaseSetup.Laws.{count}
use sandbox_ledger.Wiring.Stores.{own_stores, AnswersToGov, new_app-stores}
use sandbox_ledger.Wiring.Serving.{Serves, MempoolServes, new_app-Serves}
use sandbox_ledger.Modules.Sample.{manager, passes, hooks}
use sandbox_ledger.Wiring.BaseApp.{HoldsPersistent, RunsInParallel, new_app-RunsInParallel}
use sandbox_ledger.Wiring.Failing.{Fails, LoadFails}
use sandbox_ledger.Wiring.Exits.{new_app_exits}
use sandbox_ledger.Wiring.Boots.{new_app_boots}
use sandbox_ledger.Wiring.Sample.{required, pool, env, answers}

abbrev made : App × Slots pool
made = result env 7 true [] (answers 7 true)

returns : new_app env 7 true [] ≡ returned made
returns = new_app_eq env 7 true [] (answers 7 true)

-- Without the textual sign mode `NewApp` panics.
no_textual :
    new_app (record env { new_tx_config_with_options = err (foreign "textual") }) 7 true []
    ≡ panicked (foreign "textual")
unfolding new_app assemble
no_textual = refl

-- Without state streaming the process ends.
no_streaming :
    new_app (record env { register_streaming_services = err (foreign "streaming") }) 7 true []
    ≡ exited 1
unfolding new_app assemble
no_streaming = refl

abbrev without_version : Env
without_version = record env { load_latest_version = err (foreign "version") }

orders_return : set_module_orders without_version.manager ≢ exited 1
unfolding set_module_orders
orders_return h = cc

new_app_exits_example : (new_app without_version 7 true [] ≡ exited 1) ↔ (
    (◌≡◌ {A = ℕ} 1 1)
    × (Fails without_version.register_streaming_services ⊎ LoadFails without_version 7 true))
new_app_exits_example = new_app_exits without_version 7 true [] 1 orders_return

new_app_iff_example :
    (new_app env 7 true [] ≡ returned made)
    ↔ (a : Answers env 7 true) × (made ≡ result env 7 true [] a)
new_app_iff_example = new_app_iff env 7 true [] made

new_app-IsComplete_example : IsComplete made.0
new_app-IsComplete_example = new_app-IsComplete env 7 true [] made returns

new_app-stores_example :
    All (λ key. count key (own_stores made.0 with_keeper) ≡ 1) made.0.mounted
    × All (λ key. count key made.0.mounted ≡ 1) (own_stores made.0 with_keeper)
    × HoldsPersistent made.0 made.0.evm_store_keys
    × All (λ m. AnswersToGov (keeper_of m made.0)) with_keeper
new_app-stores_example = new_app-stores env 7 true [] made (λ key ks. refl) returns

new_app-Serves_example :
    Serves 7 true made.0 × MempoolServes env (ante_handler_options 7 made.0) made.1
new_app-Serves_example = new_app-Serves env 7 true [] made returns

accepts :
    {rest : Type 0} (account bank : Option Ref)
    → IsPresent account × (IsPresent bank × rest)
    → required account bank ≡ ok tt
accepts none bank (absent, _) = elim absent [ ]
accepts (some a) none (_, (absent, _)) = elim absent [ ]
accepts (some a) (some b) h = refl

abbrev checked_env : Env
checked_env = record env { manager = manager }

new_app_boots_example :
    (r : App × Slots pool) × (new_app checked_env 7 true [] ≡ returned r) × IsComplete r.0
new_app_boots_example =
    new_app_boots checked_env 7 true [] tt passes hooks
      (λ o set. accepts o.account_keeper o.bank_keeper set) refl refl refl refl refl refl

new_app-RunsInParallel_example : RunsInParallel env [] made.0
new_app-RunsInParallel_example =
    new_app-RunsInParallel env 7 true [] made (λ key ks. refl) (omega arith) (omega arith) returns
