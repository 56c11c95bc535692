-- ===== src/Blocks/Fees/Tests.antt =====
-- Two transactions on the sample application, of which one is refused.
use sandbox_ledger.Base.{
  ℕ, zero, suc, ◌+◌, Option, none, some, ◌≢◌, ◌∷◌, Error, String, sym, arith, eq_iff, ◌≡◌, ap, Bool,
  true, List, [], returned,
}
use sandbox_ledger.Names.{ModuleName}
use sandbox_ledger.Wiring.Build.{new_app}
use mathlib.Core.Logic.{ite}
use sandbox_ledger.Names.{poa, ModuleName-discrete}
use sandbox_ledger.Ante.{Tx, Decorator, AnteHandler}
use sandbox_ledger.Ante.Fees.{FeeLedger, DeductsFee}
use sandbox_ledger.Wiring.{App, Ref}
use sandbox_ledger.Wiring.Accessors.{get_ante_handler}
use sandbox_ledger.Wiring.Sample.{laws_of, Fees, body_of, deduct, check, env, answers, pool}
use sandbox_ledger.Wiring.Answers.{result}
use sandbox_ledger.Wiring.Complete.{new_app_eq}
use sandbox_ledger.Mempool.{Slots}
use sandbox_ledger.Blocks.Signed.{delivery_of}
use sandbox_ledger.Blocks.Delivery.{Delivery, deliver_all}
use sandbox_ledger.Blocks.Fees.{SameFees, paid, fee_of, new_app-collected}

keeps_fees :
    (d : Decorator Ref ℕ ℕ) (tx : Option (Tx ℕ)) (sim : Bool) (fees fees' : Fees)
    → ¬ DeductsFee d
    → check d fees tx sim ≡ (fees', none)
    → (m : ModuleName) → fees' m ≡ fees m
keeps_fees (Decorator.deduct_fee _ _ _ _ _) tx sim fees fees' other h m = absurd (other tt)
keeps_fees (Decorator.evm_mono _ _ _ _ _ _) tx sim fees fees' other h m = absurd (other tt)
keeps_fees _ tx sim fees fees' other h m = ap (λ (r : Fees × Option Error). r.0 m) (sym h)

deducted :
    (fee : ℕ) (recipient : ModuleName) (fees fees' : Fees)
    → deduct fee recipient fees ≡ (fees', none)
    → (m : ModuleName) → fees' m ≡ fees m + ite (ModuleName-discrete m recipient) fee 0
deducted zero recipient fees fees' h m = cc
deducted (suc n) recipient fees fees' h m = ap (λ (r : Fees × Option Error). r.0 m) (sym h)

abbrev ledger : FeeLedger check
ledger = record {
  collected = λ fees. fees;
  fee = λ base tx. body_of tx;
  others_keep = keeps_fees;
  deducts =
      λ a k f base recipient tx sim ctx ctx' h m. deducted (body_of tx) recipient ctx ctx' h m;
}

abbrev two_txs : List (Tx ℕ)
two_txs =
    record { extension_options = some ("/dynamic" ∷ []); body = 10 }
    ∷ record { extension_options = none; body = 0 }
    ∷ []

abbrev delivery : Delivery Fees ℕ (SameFees (λ fees. fees))
delivery = delivery_of (λ fees fees' same m. ap (λ (f : Fees). f m) same)

abbrev made_by_env : App × Slots pool
made_by_env = result env 7 true [] (answers 7 true)

returns_env : new_app env 7 true [] ≡ returned made_by_env
returns_env = new_app_eq env 7 true [] (answers 7 true)

cosmos_first : ◌≢◌ {A = Option String} (some "/dynamic") (some "/ethereum")
cosmos_first = ground (arith, eq_iff "/dynamic" "/ethereum")

cosmos_second : ◌≢◌ {A = Option String} none (some "/ethereum")
cosmos_second h = cc

new_app-collected_example :
    (handler : AnteHandler Fees ℕ) × (get_ante_handler env made_by_env.0 ≡ some handler)
    × ((m : ModuleName)
        → deliver_all delivery handler two_txs (λ _. 0) m
          ≡ 0
            + ite
                (ModuleName-discrete m poa)
                (paid delivery handler
                  (fee_of env (laws_of check) ledger made_by_env.0)
                  two_txs
                  (λ _. 0))
                0)
new_app-collected_example =
    new_app-collected env (laws_of check) ledger 7 true [] made_by_env returns_env delivery two_txs
      (λ _. 0) (cosmos_first, (cosmos_second, tt))
