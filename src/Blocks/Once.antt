-- ===== src/Blocks/Once.antt =====
-- In a block that succeeds, each module with a hook is called exactly once.
use sandbox_ledger.Base.{ℕ, ◌≡◌, Bool, true, List, Result, ok, returned}
use sandbox_ledger.Base.Lists.{All}
use sandbox_ledger.Names.{ModuleName}
use sandbox_ledger.BaseSetup.{BaseOption}
use sandbox_ledger.Modules.{
  registered_modules, pre_blocker_order, begin_blocker_order, end_blocker_order, listed,
}
use sandbox_ledger.Modules.Orders.{Registered, WellOrdered}
use sandbox_ledger.Mempool.{Slots}
use sandbox_ledger.Wiring.{App}
use sandbox_ledger.Wiring.Build.{Env, new_app}
use sandbox_ledger.Blocks.{BlockLib, run_pre_blocker, run_begin_blocker, run_end_blocker}
use sandbox_ledger.Blocks.Calls.{
  occurrences, Calls, called_once, Calls-Registered, RunsInOrder, RefusesForgotten,
}
use sandbox_ledger.Blocks.Manager.{
  set_module_orders_inv, pre_blocker_order-WellOrdered, begin_blocker_order-WellOrdered,
  end_blocker_order-WellOrdered, new_app-orders, pre-Calls, begin-Calls, end-Calls,
}

-- The three calls of a block that all succeed, with any transactions in between.
pub record Block (l : BlockLib) (app : App) : Type 0 where
  pub start : l.Ctx
  pub prepared : l.Ctx
  pub begun : l.Ctx
  pub delivered : l.Ctx
  pub ended : l.Ctx
  pub pre_response : l.ResponsePreBlock
  pub begin_response : l.BeginBlock
  pub end_response : l.EndBlock
  pub prepares : run_pre_blocker l app start ≡ (ok pre_response, prepared)
  pub begins : run_begin_blocker l app prepared ≡ (ok begin_response, begun)
  pub ends : run_end_blocker l app delivered ≡ (ok end_response, ended)

-- The hooks of some modules are called, each once and no others, from a context to a context.
abbrev pub CallsOnce :
    {Ctx : Type 0} (has : ModuleName → Bool) (hook : ModuleName → Ctx → Result (Unit {0}) × Ctx)
    → List ModuleName
    → (ModuleName → Type 0)
    → Ctx
    → Ctx
    → Type 0
CallsOnce has hook order Wanted ctx ctx' =
    (log : List ModuleName) × Calls has hook order ctx log ctx'
    × ((m : ModuleName) → Wanted m → has m ≡ true → occurrences m log ≡ 1)
    × Registered log
    × All (λ m. has m ≡ true) log

all_called_once :
    {Ctx : Type 0} (has : ModuleName → Bool) (hook : ModuleName → Ctx → Result (Unit {0}) × Ctx)
    (Wanted : ModuleName → Type 0) {order : List ModuleName} (ctx ctx' : Ctx)
    → WellOrdered order
    → ((m : ModuleName) → Wanted m → has m ≡ true → listed m order ≡ true)
    → (log : List ModuleName) × Calls has hook order ctx log ctx'
    → CallsOnce has hook order Wanted ctx ctx'
all_called_once has hook Wanted ctx ctx' (unique, registered) complete (log, calls) =
    let (known, with_hook) = Calls-Registered has hook calls registered in
    (
      log,
      calls,
      λ m wanted here. called_once has hook m here calls unique (complete m wanted here),
      known,
      with_hook,
    )

-- If the check of the module manager lets no order pass that forgets a module, and the manager runs
-- the hooks by its orders, then in each block of the application that `NewApp` returns, where the
-- three calls succeed, every registered module that has a hook for the begin or for the end of a
-- block is called for it exactly once, and each module of the pre-block order that has a pre-block
-- hook is called exactly once. No other hooks are called, and the calls follow the orders of
-- `NewApp`.
pub new_app-CallsOnce :
    (e : Env) (g : ℕ) (b : Bool) (opts : List BaseOption) (r : App × Slots e.mempool)
    → new_app e g b opts ≡ returned r
    → RefusesForgotten e.manager
    → (l : BlockLib) (runs : RunsInOrder l e.manager) (block : Block l r.0)
    → CallsOnce runs.has_pre_blocker runs.pre_hook pre_blocker_order
        (λ m. listed m pre_blocker_order ≡ true)
        block.start
        block.prepared
      × CallsOnce e.manager.has_begin_blocker runs.begin_hook begin_blocker_order
          (λ m. listed m registered_modules ≡ true)
          block.prepared
          block.begun
      × CallsOnce e.manager.has_end_blocker runs.end_hook end_blocker_order
          (λ m. listed m registered_modules ≡ true)
          block.delivered
          block.ended
new_app-CallsOnce e g b opts r h refuses l runs block =
    let (_, ordered, _) = new_app-orders e g b opts r h in
    let (asked_begin, asked_end, _, _, _) = set_module_orders_inv e.manager _ ordered in
    (
      all_called_once runs.has_pre_blocker runs.pre_hook _ _ _ pre_blocker_order-WellOrdered
          (λ m wanted _. wanted) (pre-Calls e g b opts r h l runs _ _ _ block.prepares),
      all_called_once e.manager.has_begin_blocker runs.begin_hook _ _ _
          begin_blocker_order-WellOrdered (refuses _ _ _ asked_begin)
          (begin-Calls e g b opts r h l runs _ _ _ block.begins),
      all_called_once e.manager.has_end_blocker runs.end_hook _ _ _ end_blocker_order-WellOrdered
          (refuses _ _ _ asked_end) (end-Calls e g b opts r h l runs _ _ _ block.ends),
    )
