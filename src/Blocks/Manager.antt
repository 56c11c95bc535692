-- ===== src/Blocks/Manager.antt =====
-- The calls of the module manager that `NewApp` has filled: each follows the order of `NewApp`.
use mathlib.Core.Path.{subst}
use sandbox_ledger.Base.{
  ℕ, ◌≡◌, refl, sym, ap, ◌∙◌, Bool, some, List, Result, ok, err, arith, returned, >>=-eq-returned,
  returned_inj,
}
use sandbox_ledger.Names.{ModuleName}
use sandbox_ledger.BaseSetup.{BaseOption}
use sandbox_ledger.Modules.{
  registered_modules, pre_blocker_order, begin_blocker_order, end_blocker_order, listed, HookOrders,
  ManagerLib, set_module_orders,
}
use sandbox_ledger.Modules.Orders.{WellOrdered}
use sandbox_ledger.Mempool.{Slots}
use sandbox_ledger.Wiring.{App}
use sandbox_ledger.Wiring.Build.{set_configurator, Env, new_app, print_error, set_orders}
use sandbox_ledger.Wiring.Answers.{handled}
use sandbox_ledger.Wiring.Complete.{new_app_inv}
use sandbox_ledger.Wiring.Handlers.{set_hooks, mount_stores}
use sandbox_ledger.Wiring.Keepers.{make_keepers}
use sandbox_ledger.Blocks.{BlockLib, run_pre_blocker, run_begin_blocker, run_end_blocker}
use sandbox_ledger.Blocks.Calls.{Calls, RunsInOrder}

pub set_module_orders_inv :
    (l : ManagerLib) (o : HookOrders)
    → set_module_orders l ≡ returned o
    → (l.assert_no_forgotten_modules registered_modules l.has_begin_blocker begin_blocker_order
        ≡ returned tt)
      × (l.assert_no_forgotten_modules registered_modules l.has_end_blocker end_blocker_order
          ≡ returned tt)
      × (o.pre_blockers ≡ pre_blocker_order)
      × (o.begin_blockers ≡ begin_blocker_order)
      × (o.end_blockers ≡ end_blocker_order)
unfolding set_module_orders
set_module_orders_inv l o h =
    let (_, p, h1) =
      >>=-eq-returned
        (l.assert_no_forgotten_modules registered_modules l.has_begin_blocker begin_blocker_order) _
        h in
    let (_, q, h2) =
      >>=-eq-returned
        (l.assert_no_forgotten_modules registered_modules l.has_end_blocker end_blocker_order) _
        h1 in
    let (_, _, h3) = >>=-eq-returned (l.assert_no_forgotten_modules _ _ _) _ h2 in
    let (_, _, h4) = >>=-eq-returned (l.assert_no_forgotten_modules _ _ _) _ h3 in
    let same = returned_inj h4 in
    (
      p,
      q,
      ap (λ o. o.pre_blockers) same,
      ap (λ o. o.begin_blockers) same,
      ap (λ o. o.end_blockers) same,
    )

pub pre_blocker_order-WellOrdered : WellOrdered pre_blocker_order
unfolding listed registered_modules pre_blocker_order
pre_blocker_order-WellOrdered = ground arith

pub begin_blocker_order-WellOrdered : WellOrdered begin_blocker_order
unfolding listed registered_modules begin_blocker_order
begin_blocker_order-WellOrdered = ground arith

pub end_blocker_order-WellOrdered : WellOrdered end_blocker_order
unfolding listed registered_modules end_blocker_order
end_blocker_order-WellOrdered = ground arith

print_error-orders : (r : Result (Unit {0})) (app : App) → (print_error r app).orders ≡ app.orders
unfolding print_error
print_error-orders (ok _) app = refl
print_error-orders (err e) app = refl

-- The manager's orders in the application that `NewApp` returns.
pub new_app-orders :
    (e : Env) (g : ℕ) (b : Bool) (opts : List BaseOption) (r : App × Slots e.mempool)
    → new_app e g b opts ≡ returned r
    → (o : HookOrders) × (set_module_orders e.manager ≡ returned o) × (r.0.orders ≡ some o)
unfolding set_hooks mount_stores set_configurator set_orders make_keepers
new_app-orders e g b opts r h =
    let (a, p) = new_app_inv e g b opts r h in
    (
      a.orders,
      a.ordered,
      ap (λ r. r.0.orders) p
          ∙ print_error-orders (e.validate_proto_annotations a.files) (handled e opts g a.orders),
    )

module _ (e : Env) (g : ℕ) (b : Bool) (opts : List BaseOption) (r : App × Slots e.mempool)
    (made : new_app e g b opts ≡ returned r) (l : BlockLib) (runs : RunsInOrder l e.manager) where
  pub pre-Calls :
      (ctx ctx' : l.Ctx) (response : l.ResponsePreBlock)
      → run_pre_blocker l r.0 ctx ≡ (ok response, ctx')
      → (log : List ModuleName) × Calls runs.has_pre_blocker runs.pre_hook pre_blocker_order ctx log
          ctx'
  unfolding run_pre_blocker
  pre-Calls ctx ctx' response h =
      let (o, ordered, held) = new_app-orders e g b opts r made in
      let (_, _, same, _, _) = set_module_orders_inv e.manager o ordered in
      let (log, calls) =
        runs.pre r.0.modules o ctx ctx' response
          (sym (ap (λ q. l.pre_block (r.0.modules, q) ctx) held) ∙ h) in
      (log, subst (λ q. Calls runs.has_pre_blocker runs.pre_hook q ctx log ctx') same calls)

  pub begin-Calls :
      (ctx ctx' : l.Ctx) (response : l.BeginBlock)
      → run_begin_blocker l r.0 ctx ≡ (ok response, ctx')
      → (log : List ModuleName) × Calls e.manager.has_begin_blocker runs.begin_hook
          begin_blocker_order ctx log ctx'
  unfolding run_begin_blocker
  begin-Calls ctx ctx' response h =
      let (o, ordered, held) = new_app-orders e g b opts r made in
      let (_, _, _, same, _) = set_module_orders_inv e.manager o ordered in
      let (log, calls) =
        runs.begin r.0.modules o ctx ctx' response
          (sym (ap (λ q. l.begin_block (r.0.modules, q) ctx) held) ∙ h) in
      (
        log,
        subst (λ q. Calls e.manager.has_begin_blocker runs.begin_hook q ctx log ctx') same calls,
      )

  pub end-Calls :
      (ctx ctx' : l.Ctx) (response : l.EndBlock)
      → run_end_blocker l r.0 ctx ≡ (ok response, ctx')
      → (log : List ModuleName) × Calls e.manager.has_end_blocker runs.end_hook end_blocker_order
          ctx log ctx'
  unfolding run_end_blocker
  end-Calls ctx ctx' response h =
      let (o, ordered, held) = new_app-orders e g b opts r made in
      let (_, _, _, _, same) = set_module_orders_inv e.manager o ordered in
      let (log, calls) =
        runs.end r.0.modules o ctx ctx' response
          (sym (ap (λ q. l.end_block (r.0.modules, q) ctx) held) ∙ h) in
      (log, subst (λ q. Calls e.manager.has_end_blocker runs.end_hook q ctx log ctx') same calls)
