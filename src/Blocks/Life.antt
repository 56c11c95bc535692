-- ===== src/Blocks/Life.antt =====
-- The life of a node, from the genesis block by block, and what holds all along it.
use sandbox_ledger.Base.{ℕ, suc, ◌≡◌, Bool, true, List, Result, ok, returned}
use sandbox_ledger.Names.{ModuleName}
use sandbox_ledger.BaseSetup.{BaseOption}
use sandbox_ledger.Genesis.{GenesisLib}
use sandbox_ledger.Modules.{registered_modules, listed, InitLib, init_chainer}
use sandbox_ledger.Modules.Orders.{Registered}
use sandbox_ledger.Mempool.{Slots}
use sandbox_ledger.Wiring.{App}
use sandbox_ledger.Wiring.Build.{Env, new_app}
use sandbox_ledger.Blocks.{BlockLib, run_pre_blocker, run_begin_blocker, run_end_blocker}
use sandbox_ledger.Blocks.Calls.{Calls, done, left_out, then_called, RunsInOrder}
use sandbox_ledger.Blocks.Manager.{
  pre_blocker_order-WellOrdered, begin_blocker_order-WellOrdered, end_blocker_order-WellOrdered,
  pre-Calls, begin-Calls, end-Calls,
}

-- What the base application has beside the application's own calls: the delivery of a transaction,
-- which also covers one that fails, and the context over a state.
pub record Node (l : BlockLib) {g : GenesisLib} (i : InitLib g) : Type 1 where
  pub Tx : Type 0
  pub deliver : Tx → l.Ctx → l.Ctx
  pub context : i.State → l.Ctx

-- A node between two blocks or in one, at a height. A call that fails halts the node.
pub data Phase (l : BlockLib) : Type 0 where
  idle in_block : ℕ → l.Ctx → Phase l

abbrev pub context_of : {l : BlockLib} → Phase l → l.Ctx
context_of (idle height ctx) = ctx
context_of (in_block height ctx) = ctx

module _ (l : BlockLib) (app : App) {g : GenesisLib} (i : InitLib g) (node : Node l i) where
  open l use {Ctx}

  pub data Step : Phase l → Phase l → Type 0 where
    opens :
        {height : ℕ} {ctx prepared begun : Ctx} {pre_response : l.ResponsePreBlock}
        {begin_response : l.BeginBlock}
        → run_pre_blocker l app ctx ≡ (ok pre_response, prepared)
        → run_begin_blocker l app prepared ≡ (ok begin_response, begun)
        → Step (idle height ctx) (in_block (suc height) begun)
    delivers :
        {height : ℕ} {ctx : Ctx} (tx : node.Tx)
        → Step (in_block height ctx) (in_block height (node.deliver tx ctx))
    closes :
        {height : ℕ} {ctx ended : Ctx} {end_response : l.EndBlock}
        → run_end_blocker l app ctx ≡ (ok end_response, ended)
        → Step (in_block height ctx) (idle height ended)

  -- What is reached from a phase by any steps.
  pub data Steps (p : Phase l) : Phase l → Type 0 where
    stays : Steps p p
    follows : {q q' : Phase l} → Steps p q → Step q q' → Steps p q'

  -- What is reached from a genesis by `InitChainer` and then any steps.
  pub data Reach (bytes : i.Bytes) (empty : i.State) : Phase l → Type 0 where
    starts :
        {response : i.Response} {state : i.State}
        → init_chainer i bytes empty ≡ returned (ok response, state)
        → Reach bytes empty (idle 0 (node.context state))
    goes_on : {p q : Phase l} → Reach bytes empty p → Step p q → Reach bytes empty q

-- The hooks of the registered modules keep an invariant where they succeed.
abbrev pub HooksKeep :
    {Ctx : Type 0} (has : ModuleName → Bool) (hook : ModuleName → Ctx → Result (Unit {0}) × Ctx)
    → (Ctx → Type 0)
    → Type 0
HooksKeep {Ctx} has hook I =
    (m : ModuleName) (ctx ctx' : Ctx)
    → listed m registered_modules ≡ true
    → has m ≡ true
    → hook m ctx ≡ (ok tt, ctx')
    → I ctx
    → I ctx'

Calls_keep :
    {Ctx : Type 0} (has : ModuleName → Bool) (hook : ModuleName → Ctx → Result (Unit {0}) × Ctx)
    (I : Ctx → Type 0) {order log : List ModuleName} {ctx ctx' : Ctx}
    → HooksKeep has hook I
    → Registered order
    → Calls has hook order ctx log ctx'
    → I ctx
    → I ctx'
Calls_keep has hook I keep registered done h = h
Calls_keep has hook I keep registered (left_out _ rest) h =
    Calls_keep has hook I keep registered.1 rest h
Calls_keep has hook I keep registered (then_called {m = m} {ctx = ctx} {ctx1 = ctx1} here p rest)
      h =
    Calls_keep has hook I keep registered.1 rest (keep m ctx ctx1 registered.0 here p h)

module _ (e : Env) (n : ℕ) (b : Bool) (opts : List BaseOption) (r : App × Slots e.mempool)
    (made : new_app e n b opts ≡ returned r) (l : BlockLib) (runs : RunsInOrder l e.manager)
    (g : GenesisLib) (i : InitLib g) (node : Node l i) (I : l.Ctx → Type 0)
    (pre : HooksKeep runs.has_pre_blocker runs.pre_hook I)
    (begin : HooksKeep e.manager.has_begin_blocker runs.begin_hook I)
    (end : HooksKeep e.manager.has_end_blocker runs.end_hook I)
    (delivers_keep : (tx : node.Tx) (ctx : l.Ctx) → I ctx → I (node.deliver tx ctx)) where
  Step_keeps : (p q : Phase l) → Step l r.0 i node p q → I (context_of p) → I (context_of q)
  Step_keeps p q (opens {ctx = ctx} {prepared = prepared} prepares begins) h =
      let (_, pre_called) = pre-Calls e n b opts r made l runs _ _ _ prepares in
      let (_, begin_called) = begin-Calls e n b opts r made l runs _ _ _ begins in
      Calls_keep e.manager.has_begin_blocker runs.begin_hook I begin
        begin_blocker_order-WellOrdered.1 begin_called
        (Calls_keep runs.has_pre_blocker runs.pre_hook I pre pre_blocker_order-WellOrdered.1
          pre_called h)
  Step_keeps p q (delivers {ctx = ctx} tx) h = delivers_keep tx ctx h
  Step_keeps p q (closes ends) h =
      let (_, end_called) = end-Calls e n b opts r made l runs _ _ _ ends in
      Calls_keep e.manager.has_end_blocker runs.end_hook I end end_blocker_order-WellOrdered.1
        end_called h

  -- An invariant of a phase that each step keeps.
  pub Steps_keep : (p q : Phase l) → Steps l r.0 i node p q → I (context_of p) → I (context_of q)
  Steps_keep p q stays h = h
  Steps_keep p q (follows {q = before} earlier taken) h =
      Step_keeps before q taken (Steps_keep p before earlier h)

  -- An invariant of the first state that each step keeps.
  pub Reach_keeps :
      (bytes : i.Bytes) (empty : i.State)
      → ((state : i.State) (response : i.Response)
          → init_chainer i bytes empty ≡ returned (ok response, state)
          → I (node.context state))
      → (phase : Phase l) → Reach l r.0 i node bytes empty phase
      → I (context_of phase)
  Reach_keeps bytes empty first p (starts {response = response} {state = state} h) =
      first state response h
  Reach_keeps bytes empty first p (goes_on {p = before} reached taken) =
      Step_keeps before p taken (Reach_keeps bytes empty first before reached)
