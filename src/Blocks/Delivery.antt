-- ===== src/Blocks/Delivery.antt =====
-- How the base application delivers the transactions of a block with the handler that is set on it.
use sandbox_ledger.Base.{
  Result, ◌≡◌, ◌≢◌, Bool, true, false, Option, none, some, List, [], ◌∷◌, Error,
}
use sandbox_ledger.Ante.{Tx, AnteHandler, first_extension}
use sandbox_ledger.Genesis.{GenesisLib}
use sandbox_ledger.Modules.{InitLib}
use sandbox_ledger.Blocks.{ModuleManager, BlockLib}
use sandbox_ledger.Blocks.Life.{Node}
use sandbox_ledger.Wiring.Build.{Env}

-- A transaction that is no Ethereum one.
abbrev pub IsCosmos : (e : Env) → Tx e.Body → Type 0
IsCosmos e tx = first_extension (some tx) ≢ some e.ante.ethereum_tx_url

-- Whether the handler has accepted a transaction.
abbrev pub is_accepted : {C : Type 0} → C × Option Error → Bool
is_accepted (ctx, none) = true
is_accepted (ctx, some e) = false

-- The context of a transaction that the handler refuses is dropped. The messages of one that it
-- accepts run after it, from the context that it returns, and whether or not they succeed they
-- relate that context to the one after them as `Keeps` says.
pub record Delivery (C B : Type 0) (Keeps : C → C → Type 0) : Type 0 where
  pub deliver : AnteHandler C B → Tx B → C → C
  pub refused :
      (handler : AnteHandler C B) (tx : Tx B) (ctx ctx' : C) (e : Error)
      → handler ctx (some tx) false ≡ (ctx', some e)
      → deliver handler tx ctx ≡ ctx
  pub accepted :
      (handler : AnteHandler C B) (tx : Tx B) (ctx ctx' : C)
      → handler ctx (some tx) false ≡ (ctx', none)
      → Keeps ctx' (deliver handler tx ctx)

-- A block's transactions, in order.
abbrev pub deliver_all :
    {C B : Type 0} {Keeps : C → C → Type 0}
    → Delivery C B Keeps
    → AnteHandler C B
    → List (Tx B)
    → C
    → C
deliver_all d handler [] ctx = ctx
deliver_all d handler (tx ∷ txs) ctx = deliver_all d handler txs (d.deliver handler tx ctx)

-- The module manager's calls on the contexts in which transactions are delivered.
pub record BlockCalls (C : Type 0) : Type 1 where
  pub ResponsePreBlock : Type 0
  pub BeginBlock : Type 0
  pub EndBlock : Type 0
  pub pre_block : ModuleManager → C → Result ResponsePreBlock × C
  pub begin_block : ModuleManager → C → Result BeginBlock × C
  pub end_block : ModuleManager → C → Result EndBlock × C

abbrev pub block_lib : {C : Type 0} → BlockCalls C → BlockLib
block_lib {C} calls = record {
  Ctx = C;
  ResponsePreBlock = calls.ResponsePreBlock;
  BeginBlock = calls.BeginBlock;
  EndBlock = calls.EndBlock;
  pre_block = calls.pre_block;
  begin_block = calls.begin_block;
  end_block = calls.end_block;
}

-- A node that delivers its transactions with a handler.
abbrev pub node_with :
    {C B : Type 0} {Keeps : C → C → Type 0} {calls : BlockCalls C} {g : GenesisLib} {i : InitLib g}
    → Delivery C B Keeps
    → AnteHandler C B
    → (i.State → C)
    → Node (block_lib calls) i
node_with {B = B} d handler context = record {
  Tx = Tx B;
  deliver = λ tx ctx. d.deliver handler tx ctx;
  context = context;
}
