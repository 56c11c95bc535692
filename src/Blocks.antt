-- ===== src/Blocks.antt =====
-- app/app.go, `PreBlocker`, `BeginBlocker` and `EndBlocker`: what the base application calls in each
-- block. `NewApp` sets them, and its orders of the modules' hooks are those that the module manager
-- then holds.
pub mod Calls
pub mod Manager
pub mod Once
pub mod Life
pub mod Metadata
pub mod Delivery
pub mod Fees
pub mod Replay
pub mod Ledger
pub mod Refinement
pub mod Signed
pub mod Sample
mod Tests
use sandbox_ledger.Base.{Option, List, Result}
use sandbox_ledger.Names.{ModuleName}
use sandbox_ledger.Modules.{HookOrders}
use sandbox_ledger.Wiring.{App, Ref}

-- What the module manager holds: the modules, with what they are given, and its orders.
abbrev pub ModuleManager : Type 0
ModuleManager = List (ModuleName × List Ref) × Option HookOrders

-- The manager's calls, on a context with the stores behind it.
pub record BlockLib : Type 1 where
  pub Ctx : Type 0
  pub ResponsePreBlock : Type 0
  pub BeginBlock : Type 0
  pub EndBlock : Type 0
  pub pre_block : ModuleManager → Ctx → Result ResponsePreBlock × Ctx
  pub begin_block : ModuleManager → Ctx → Result BeginBlock × Ctx
  pub end_block : ModuleManager → Ctx → Result EndBlock × Ctx

-- `app.ModuleManager`
abbrev pub module_manager : App → ModuleManager
module_manager app = (app.modules, app.orders)

module _ (l : BlockLib) (app : App) where
  open l use {Ctx}

  -- `PreBlocker`
  unfoldable pub run_pre_blocker : Ctx → Result l.ResponsePreBlock × Ctx
  run_pre_blocker ctx = l.pre_block (module_manager app) ctx

  -- `BeginBlocker`
  unfoldable pub run_begin_blocker : Ctx → Result l.BeginBlock × Ctx
  run_begin_blocker ctx = l.begin_block (module_manager app) ctx

  -- `EndBlocker`
  unfoldable pub run_end_blocker : Ctx → Result l.EndBlock × Ctx
  run_end_blocker ctx = l.end_block (module_manager app) ctx
