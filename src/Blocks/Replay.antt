-- ===== src/Blocks/Replay.antt =====
-- A transaction that was delivered once, on the application that `NewApp` returns.
mod Tests
use mathlib.Core.Path.{subst}
use sandbox_ledger.Base.{
  Result, ok, true, ℕ, suc, ◌≤◌, ◌≡◌, refl, sym, ap, ◌∙◌, Bool, true, false, Option, none, some,
  List, [], ◌∷◌, Error, returned, arith, some_inj,
}
use sandbox_ledger.Base.Lists.{All}
use sandbox_ledger.BaseSetup.{BaseOption}
use sandbox_ledger.Ante.{Tx, AnteHandler, new_poa_evm_ante_handler}
use sandbox_ledger.Ante.Chain.{ChainLaws}
use sandbox_ledger.Ante.Replay.{Numbers, Grows, new_poa_evm_ante_handler-Grows, verified_between}
use sandbox_ledger.Mempool.{Slots}
use sandbox_ledger.Wiring.{App}
use sandbox_ledger.Wiring.Handlers.{ante_handler_options}
use sandbox_ledger.Wiring.Build.{Env, new_app}
use sandbox_ledger.Wiring.Accessors.{get_ante_handler, get_ante_handler-some}
use sandbox_ledger.Wiring.Serving.{new_app-get_ante_handler}
use sandbox_ledger.Names.{ModuleName}
use sandbox_ledger.Genesis.{GenesisLib}
use sandbox_ledger.Modules.{InitLib, listed, registered_modules}
use sandbox_ledger.Blocks.Calls.{RunsInOrder}
use sandbox_ledger.Blocks.Life.{Phase, in_block, context_of, Steps, Steps_keep}
use sandbox_ledger.Blocks.Delivery.{
  BlockCalls, block_lib, node_with, Delivery, deliver_all, is_accepted, IsCosmos,
}

module _ (e : Env) (laws : ChainLaws e.ante) (n : Numbers laws.check)
    (d : Delivery e.Context e.Body (Grows n)) where
  module _ (g : ℕ) (app : App) where
    abbrev handler_of : AnteHandler e.Context e.Body
    handler_of = new_poa_evm_ante_handler e.ante (ante_handler_options g app)

    deliver-Grows :
        (tx : Tx e.Body) (ctx : e.Context) (r : e.Context × Option Error)
        → handler_of ctx (some tx) false ≡ r
        → Grows n ctx (d.deliver handler_of tx ctx)
    deliver-Grows tx ctx (ctx', none) h a =
        let by_handler =
          new_poa_evm_ante_handler-Grows laws n (ante_handler_options g app) ctx ctx' (some tx) h
            a in
        let by_messages = d.accepted handler_of tx ctx ctx' h a in
        omega (arith, by_handler, by_messages)
    deliver-Grows tx ctx (ctx', some x) h a =
        let same = ap (λ c. n.sequence c a) (d.refused handler_of tx ctx ctx' x h) in
        omega (arith, same)

    -- A signer's number that has passed what the transaction is signed for.
    refuses_passed :
        (tx : Tx e.Body) (ctx : e.Context) (r : e.Context × Option Error)
        → IsCosmos e tx
        → n.IsOrdered tx
        → suc (n.signed tx) ≤ n.sequence ctx (n.signer tx)
        → handler_of ctx (some tx) false ≡ r
        → is_accepted r ≡ false
    refuses_passed tx ctx (ctx', none) cosmos ordered passed h =
        let (not_passed, _) =
          verified_between laws n (ante_handler_options g app) ctx ctx' tx cosmos h ordered in
        absurd (omega (arith, passed, not_passed))
    refuses_passed tx ctx (ctx', some x) cosmos ordered passed h = refl

    -- The number of the signer of a transaction has passed what that is signed for.
    abbrev HasPassed : Tx e.Body → e.Context → Type 0
    HasPassed tx ctx = suc (n.signed tx) ≤ n.sequence ctx (n.signer tx)

    passed_by_delivery :
        (tx : Tx e.Body) (ctx ctx' : e.Context)
        → IsCosmos e tx
        → n.IsOrdered tx
        → handler_of ctx (some tx) false ≡ (ctx', none)
        → HasPassed tx (d.deliver handler_of tx ctx)
    passed_by_delivery tx ctx ctx' cosmos ordered h =
        let (_, passed) =
          verified_between laws n (ante_handler_options g app) ctx ctx' tx cosmos h ordered in
        let by_messages = d.accepted handler_of tx ctx ctx' h (n.signer tx) in
        omega (arith, passed, by_messages)

    HasPassed-Grows :
        (tx : Tx e.Body) (c c' : e.Context) → Grows n c c' → HasPassed tx c → HasPassed tx c'
    HasPassed-Grows tx c c' grows passed =
        let more = grows (n.signer tx) in omega (arith, passed, more)

  -- The hooks of the registered modules lower no sequence number where they succeed.
  abbrev pub HooksGrow :
      (ModuleName → Bool) → (ModuleName → e.Context → Result (Unit {0}) × e.Context) → Type 0
  HooksGrow has hook =
      (m : ModuleName) (ctx ctx' : e.Context)
      → listed m registered_modules ≡ true
      → has m ≡ true
      → hook m ctx ≡ (ok tt, ctx')
      → Grows n ctx ctx'

  -- The hooks of a block, as the module manager runs them.
  module _ (calls : BlockCalls e.Context) (runs : RunsInOrder (block_lib calls) e.manager)
      (pre : HooksGrow runs.has_pre_blocker runs.pre_hook)
      (begin : HooksGrow e.manager.has_begin_blocker runs.begin_hook)
      (end : HooksGrow e.manager.has_end_blocker runs.end_hook) (gl : GenesisLib) (i : InitLib gl)
      (context : i.State → e.Context) where
    refuses_later :
        (g : ℕ) (b : Bool) (opts : List BaseOption) (r : App × Slots e.mempool)
        → new_app e g b opts ≡ returned r
        → (tx : Tx e.Body) (height : ℕ) (ctx ctx' : e.Context) → IsCosmos e tx
        → n.IsOrdered tx
        → handler_of g r.0 ctx (some tx) false ≡ (ctx', none)
        → (later : Phase (block_lib calls))
        → Steps
            (block_lib calls)
            r.0
            i
            (node_with d (handler_of g r.0) context)
            (in_block height (d.deliver (handler_of g r.0) tx ctx))
            later
        → is_accepted (handler_of g r.0 (context_of later) (some tx) false) ≡ false
    refuses_later g b opts r made tx height ctx ctx' cosmos ordered h later steps =
        let keeps = HasPassed-Grows g r.0 tx in
        let passed =
          Steps_keep e g b opts r made (block_lib calls) runs gl i
            (node_with d (handler_of g r.0) context) (HasPassed g r.0 tx)
            (λ m c c' known here p. keeps c c' (pre m c c' known here p))
            (λ m c c' known here p. keeps c c' (begin m c c' known here p))
            (λ m c c' known here p. keeps c c' (end m c c' known here p))
            (λ t c. keeps c (d.deliver (handler_of g r.0) t c) (deliver-Grows g r.0 t c _ refl))
            (in_block height (d.deliver (handler_of g r.0) tx ctx)) later steps
            (passed_by_delivery g r.0 tx ctx ctx' cosmos ordered h) in
        refuses_passed g r.0 tx (context_of later) _ cosmos ordered passed refl

    -- If no decorator, message or hook of a registered module lowers the sequence number of an
    -- account, and the signatures of an ordered transaction are accepted only for its signer's
    -- number, which is then incremented, then on the application that `NewApp` returns an ordered
    -- Cosmos transaction that the ante handler has accepted is never accepted again: once it has been
    -- delivered in a block, the handler refuses it there and in every context that the chain reaches
    -- from there, through further transactions of either chain, accepted or refused, and through
    -- the ends and beginnings of any number of blocks.
    pub new_app-refuses_again :
        (g : ℕ) (b : Bool) (opts : List BaseOption) (r : App × Slots e.mempool)
        → new_app e g b opts ≡ returned r
        → (handler : AnteHandler e.Context e.Body) → get_ante_handler e r.0 ≡ some handler
        → (tx : Tx e.Body) (height : ℕ) (ctx ctx' : e.Context) → IsCosmos e tx
        → n.IsOrdered tx
        → handler ctx (some tx) false ≡ (ctx', none)
        → (later : Phase (block_lib calls))
        → Steps
            (block_lib calls)
            r.0
            i
            (node_with d handler context)
            (in_block height (d.deliver handler tx ctx))
            later
        → is_accepted (handler (context_of later) (some tx) false) ≡ false
    new_app-refuses_again g b opts r h handler set tx height ctx ctx' cosmos ordered =
        subst
          (λ f.
            f ctx (some tx) false ≡ (ctx', none)
            → (later : Phase (block_lib calls))
            → Steps (block_lib calls) r.0 i (node_with d f context)
                (in_block height (d.deliver f tx ctx)) later
            → is_accepted (f (context_of later) (some tx) false) ≡ false)
          (some_inj (sym (new_app-get_ante_handler e g b opts r h) ∙ set))
          (refuses_later g b opts r h tx height ctx ctx' cosmos ordered)
