-- ===== src/Blocks/Sample.antt =====
-- Blocks over contexts that list the modules that were called, the latest first.
use mathlib.Core.Path.{subst}
use sandbox_ledger.Base.{
  ◌≡◌, refl, sym, ap, Bool, true, false, Option, none, some, List, [], ◌∷◌, ok, err, foreign,
  Result, returned, if◌then◌else◌, arith, Bool-cases, inl, inr,
}
use sandbox_ledger.Names.{ModuleName, evm}
use sandbox_ledger.Modules.{HookOrders}
use sandbox_ledger.Modules.Sample.{manager, complete_inv, orders, ordered}
use sandbox_ledger.Mempool.{Slots}
use sandbox_ledger.Wiring.{App}
use sandbox_ledger.Wiring.Build.{set_configurator, Env, new_app}
use sandbox_ledger.Wiring.Answers.{Answers, result}
use sandbox_ledger.Wiring.Complete.{new_app_eq}
use sandbox_ledger.Wiring.Sample.{env, pool, answers}
use sandbox_ledger.Blocks.{BlockLib}
use sandbox_ledger.Blocks.Calls.{Calls, done, left_out, then_called, RunsInOrder, RefusesForgotten}
use sandbox_ledger.Modules.{pre_blocker_order, begin_blocker_order, end_blocker_order}
use sandbox_ledger.Wiring.Build.{print_error, set_orders}
use sandbox_ledger.Wiring.Handlers.{set_hooks, mount_stores}
use sandbox_ledger.Wiring.Keepers.{make_keepers}
use sandbox_ledger.Blocks.{run_pre_blocker, run_begin_blocker, run_end_blocker}

abbrev pub hook : ModuleName → List ModuleName → Result (Unit {0}) × List ModuleName
hook m ctx = (ok tt, m ∷ ctx)

abbrev pub run : (ModuleName → Bool) → List ModuleName → List ModuleName → List ModuleName
run has [] ctx = ctx
run has (m ∷ ms) ctx = if has m then run has ms (m ∷ ctx) else run has ms ctx

-- A call of the manager, for one of its orders.
abbrev pub call :
    (ModuleName → Bool)
    → Option (List ModuleName)
    → List ModuleName
    → Result (Unit {0}) × List ModuleName
call has none ctx = (err (foreign "no order"), ctx)
call has (some order) ctx = (ok tt, run has order ctx)

abbrev pub map_order : (HookOrders → List ModuleName) → Option HookOrders → Option (List ModuleName)
map_order f none = none
map_order f (some o) = some (f o)

abbrev pub has_pre : ModuleName → Bool
has_pre evm = true
has_pre _ = false

abbrev pub lib : BlockLib
lib = record {
  Ctx = List ModuleName;
  ResponsePreBlock = Unit;
  BeginBlock = Unit;
  EndBlock = Unit;
  pre_block = λ m ctx. call has_pre (map_order (λ o. o.pre_blockers) m.1) ctx;
  begin_block = λ m ctx. call manager.has_begin_blocker (map_order (λ o. o.begin_blockers) m.1) ctx;
  end_block = λ m ctx. call manager.has_end_blocker (map_order (λ o. o.end_blockers) m.1) ctx;
}

ran_first :
    (has : ModuleName → Bool) (m : ModuleName) (ms ctx : List ModuleName)
    → has m ≡ true
    → run has (m ∷ ms) ctx ≡ run has ms (m ∷ ctx)
ran_first has m ms ctx h = rw h refl

ran_later :
    (has : ModuleName → Bool) (m : ModuleName) (ms ctx : List ModuleName)
    → has m ≡ false
    → run has (m ∷ ms) ctx ≡ run has ms ctx
ran_later has m ms ctx h = rw h refl

run-Calls :
    (has : ModuleName → Bool) (order ctx : List ModuleName)
    → (log : List ModuleName) × Calls has hook order ctx log (run has order ctx)
run-Calls has [] ctx = ([], done)
run-Calls has (m ∷ ms) ctx = elim (Bool-cases (has m)) [
  | inl here ↦
      let (log, calls) = run-Calls has ms (m ∷ ctx) in
      (
        m ∷ log,
        subst (Calls has hook (m ∷ ms) ctx (m ∷ log)) (sym (ran_first has m ms ctx here))
            (then_called here refl calls),
      )
  | inr absent ↦
      let (log, calls) = run-Calls has ms ctx in
      (
        log,
        subst (Calls has hook (m ∷ ms) ctx log) (sym (ran_later has m ms ctx absent))
            (left_out absent calls),
      )
]

pub call-Calls :
    (has : ModuleName → Bool) (order ctx ctx' : List ModuleName)
    → call has (some order) ctx ≡ (ok tt, ctx')
    → (log : List ModuleName) × Calls has hook order ctx log ctx'
call-Calls has order ctx ctx' h =
    let (log, calls) = run-Calls has order ctx in
    (log, subst (Calls has hook order ctx log) (ap (λ p. p.1) h) calls)

abbrev pub runs : RunsInOrder lib manager
runs = record {
  has_pre_blocker = has_pre;
  pre_hook = hook;
  begin_hook = hook;
  end_hook = hook;
  pre = λ _ o ctx ctx' _ h. call-Calls has_pre o.pre_blockers ctx ctx' h;
  begin = λ _ o ctx ctx' _ h. call-Calls manager.has_begin_blocker o.begin_blockers ctx ctx' h;
  end = λ _ o ctx ctx' _ h. call-Calls manager.has_end_blocker o.end_blockers ctx ctx' h;
}

pub refuses : RefusesForgotten manager
refuses modules needs order passed = complete_inv modules needs order (ground arith)

-- The sample application, with a manager that looks at its modules.
abbrev pub careful : Env
careful = record env { manager = manager }

unfoldable pub careful_answers : Answers careful 7 true
careful_answers = record {
  streaming = refl;
  tx_config = refl;
  orders = orders;
  ordered = ordered;
  services = refl;
  valid = (answers 7 true).valid;
  post = refl;
  files = tt;
  registry = refl;
  load = refl;
}

abbrev pub made : App × Slots pool
made = result careful 7 true [] careful_answers

pub returns : new_app careful 7 true [] ≡ returned made
returns = new_app_eq careful 7 true [] careful_answers

pub prepares :
    (ctx : List ModuleName)
    → run_pre_blocker lib made.0 ctx ≡ (ok tt, run has_pre pre_blocker_order ctx)
unfolding run_pre_blocker set_hooks mount_stores set_configurator set_orders make_keepers
    print_error careful_answers
prepares ctx = refl

pub begins :
    (ctx : List ModuleName)
    → run_begin_blocker lib made.0 ctx
      ≡ (ok tt, run manager.has_begin_blocker begin_blocker_order ctx)
unfolding run_begin_blocker set_hooks mount_stores set_configurator set_orders make_keepers
    print_error careful_answers
begins ctx = refl

pub ends :
    (ctx : List ModuleName)
    → run_end_blocker lib made.0 ctx ≡ (ok tt, run manager.has_end_blocker end_blocker_order ctx)
unfolding run_end_blocker set_hooks mount_stores set_configurator set_orders make_keepers
    print_error careful_answers
ends ctx = refl
