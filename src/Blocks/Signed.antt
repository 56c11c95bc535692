-- ===== src/Blocks/Signed.antt =====
-- Sample checks of the number that a transaction is signed for, and a sample delivery.
use sandbox_ledger.Base.{
  ℕ, zero, suc, ◌≡◌, refl, sym, ap, Option, none, some, Error, foreign, false,
}
use sandbox_ledger.Blocks.Delivery.{Delivery}

module _ {C : Type 0} where
  -- The difference of the two numbers is counted down.
  abbrev pub verify : ℕ → ℕ → C → C × Option Error
  verify zero zero ctx = (ctx, none)
  verify (suc a) (suc b) ctx = verify a b ctx
  verify _ _ ctx = (ctx, some (foreign "incorrect account sequence"))

  pub verify-same :
      (a b : ℕ) (ctx ctx' : C) → verify a b ctx ≡ (ctx', none) → (a ≡ b) × (ctx' ≡ ctx)
  verify-same zero zero ctx ctx' h = (refl, ap (λ (r : C × Option Error). r.0) (sym h))
  verify-same zero (suc b) ctx ctx' h = cc
  verify-same (suc a) zero ctx ctx' h = cc
  verify-same (suc a) (suc b) ctx ctx' h =
      let (same, kept) = verify-same a b ctx ctx' h in (ap suc same, kept)

  abbrev pub keep_or_drop : C → C × Option Error → C
  keep_or_drop ctx (ctx', none) = ctx'
  keep_or_drop ctx (ctx', some e) = ctx

  -- Messages that do nothing.
  abbrev pub delivery_of :
      {B : Type 0} {Keeps : C → C → Type 0}
      → ((ctx ctx' : C) → ctx' ≡ ctx → Keeps ctx ctx')
      → Delivery C B Keeps
  delivery_of keeps = record {
    deliver = λ handler tx ctx. keep_or_drop ctx (handler ctx (some tx) false);
    refused = λ handler tx ctx ctx' e h. ap (keep_or_drop ctx) h;
    accepted = λ handler tx ctx ctx' h. keeps ctx' _ (ap (keep_or_drop ctx) h);
  }
