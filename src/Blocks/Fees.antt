-- ===== src/Blocks/Fees.antt =====
-- The fees of a block's transactions, which pass the ante handler of the application.
mod Tests
use mathlib.Core.Logic.{ite}
use sandbox_ledger.Base.{
  ℕ, ◌+◌, ◌≡◌, refl, sym, ap, ◌∙◌, ◌≢◌, Bool, true, false, Option, none, some, List, [], ◌∷◌, Error,
  returned, arith,
}
use sandbox_ledger.Base.Lists.{All}
use sandbox_ledger.Names.{ModuleName, poa, feemarket, ModuleName-discrete}
use sandbox_ledger.BaseSetup.{BaseOption}
use sandbox_ledger.Ante.{Tx, HandlerOptions, AnteHandler, first_extension, new_poa_evm_ante_handler}
use sandbox_ledger.Ante.Chain.{ChainLaws}
use sandbox_ledger.Ante.Fees.{FeeLedger, collected-new_poa_evm_ante_handler}
use sandbox_ledger.Mempool.{Slots}
use sandbox_ledger.Wiring.{App, Ref, by_value}
use sandbox_ledger.Wiring.Handlers.{ante_handler_options}
use sandbox_ledger.Wiring.Build.{Env, new_app}
use sandbox_ledger.Wiring.Accessors.{get_ante_handler, get_ante_handler-some}
use sandbox_ledger.Blocks.Delivery.{Delivery, deliver_all, is_accepted, IsCosmos}
use sandbox_ledger.Wiring.Serving.{new_app-get_ante_handler}

-- The messages of an accepted transaction deduct no fee, whether or not they succeed.
abbrev pub SameFees : {C : Type 0} → (C → ModuleName → ℕ) → C → C → Type 0
SameFees collected ctx ctx' = (m : ModuleName) → collected ctx' m ≡ collected ctx m

add_nothing : {P : Type 0} (p : Dec P) (n : ℕ) → n ≡ n + ite p 0 0
add_nothing (yes _) n = omega arith
add_nothing (no _) n = omega arith

add_both : {P : Type 0} (p : Dec P) (n a b : ℕ) → n + ite p a 0 + ite p b 0 ≡ n + ite p (a + b) 0
add_both (yes _) n a b = omega arith
add_both (no _) n a b = omega arith

module _ {C B : Type 0} {collected : C → ModuleName → ℕ} (d : Delivery C B (SameFees collected))
    (handler : AnteHandler C B) (fee : C → Tx B → ℕ) where
  abbrev pub fee_if : Bool → ℕ → ℕ
  fee_if true n = n
  fee_if false n = 0

  -- The fees of those that are accepted, each by the context in which it is delivered.
  abbrev pub paid : List (Tx B) → C → ℕ
  paid [] ctx = 0
  paid (tx ∷ txs) ctx =
      fee_if (is_accepted (handler ctx (some tx) false)) (fee ctx tx)
      + paid txs (d.deliver handler tx ctx)

  -- An accepted transaction of the kind pays its fee to one module account.
  abbrev pub PaysTo : ModuleName → (Tx B → Type 0) → Type 0
  PaysTo recipient Kind =
      (tx : Tx B) (ctx ctx' : C)
      → Kind tx
      → handler ctx (some tx) false ≡ (ctx', none)
      → (m : ModuleName)
      → collected ctx' m ≡ collected ctx m + ite (ModuleName-discrete m recipient) (fee ctx tx) 0

  module _ (recipient : ModuleName) (Kind : Tx B → Type 0) (pays : PaysTo recipient Kind) where
    deliver_collects :
        (tx : Tx B) (ctx : C) (r : C × Option Error)
        → Kind tx
        → handler ctx (some tx) false ≡ r
        → (m : ModuleName)
        → collected (d.deliver handler tx ctx) m
          ≡ collected ctx m
            + ite (ModuleName-discrete m recipient) (fee_if (is_accepted r) (fee ctx tx)) 0
    deliver_collects tx ctx (ctx', none) kind h m =
        d.accepted handler tx ctx ctx' h m ∙ pays tx ctx ctx' kind h m
    deliver_collects tx ctx (ctx', some e) kind h m =
        ap (λ c. collected c m) (d.refused handler tx ctx ctx' e h)
        ∙ add_nothing (ModuleName-discrete m recipient) (collected ctx m)

    pub collected-deliver_all :
        (txs : List (Tx B)) (ctx : C)
        → All Kind txs
        → (m : ModuleName)
        → collected (deliver_all d handler txs ctx) m
          ≡ collected ctx m + ite (ModuleName-discrete m recipient) (paid txs ctx) 0
    collected-deliver_all [] ctx kinds m =
        add_nothing (ModuleName-discrete m recipient) (collected ctx m)
    collected-deliver_all (tx ∷ txs) ctx (kind, kinds) m =
        collected-deliver_all txs (d.deliver handler tx ctx) kinds m
        ∙ ap
            (λ n. n + ite (ModuleName-discrete m recipient) (paid txs (d.deliver handler tx ctx)) 0)
            (deliver_collects tx ctx (handler ctx (some tx) false) kind refl m)
        ∙ add_both (ModuleName-discrete m recipient) (collected ctx m) _ _

module _ (e : Env) (laws : ChainLaws e.ante) (ledger : FeeLedger laws.check) where
  -- The fee of a transaction, by the fee market's parameters in a context.
  abbrev pub fee_of : App → e.Context → Tx e.Body → ℕ
  fee_of app ctx tx =
      ledger.fee (some (e.ante.fee_market_params (some (by_value feemarket app)) ctx)) (some tx)

  -- A block of Cosmos transactions, whichever of them are refused, on the application that `NewApp`
  -- returns, if the decorator that deducts fees on the Cosmos chain pays a transaction's fee to its
  -- recipient, and the other decorators and the messages leave the fees alone: the handler that the application has set makes the POA module account collect the
  -- fees of all that are accepted, each by the fee market's parameters in the context in which it is
  -- delivered, and every other module account collects nothing.
  pub new_app-collected :
      (g : ℕ) (b : Bool) (opts : List BaseOption) (r : App × Slots e.mempool)
      → new_app e g b opts ≡ returned r
      → (d : Delivery e.Context e.Body (SameFees ledger.collected)) (txs : List (Tx e.Body))
        (ctx : e.Context)
      → All (IsCosmos e) txs
      → (handler : AnteHandler e.Context e.Body) × (get_ante_handler e r.0 ≡ some handler)
        × ((m : ModuleName)
            → ledger.collected (deliver_all d handler txs ctx) m
              ≡ ledger.collected ctx m
                + ite (ModuleName-discrete m poa) (paid d handler (fee_of r.0) txs ctx) 0)
  unfolding ante_handler_options
  new_app-collected g b opts r h d txs ctx kinds =
      let o = ante_handler_options g r.0 in
      (
        new_poa_evm_ante_handler e.ante o,
        new_app-get_ante_handler e g b opts r h,
        collected-deliver_all d (new_poa_evm_ante_handler e.ante o) (fee_of r.0) poa (IsCosmos e)
            (λ tx ctx ctx' cosmos done m.
              collected-new_poa_evm_ante_handler laws o ctx ctx' (some tx) false ledger cosmos done
                m)
            txs ctx kinds,
      )
