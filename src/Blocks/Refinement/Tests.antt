-- ===== src/Blocks/Refinement/Tests.antt =====
-- Four transactions of two accounts on the sample application, of which one is signed for a number
-- that its account has not reached.
use mathlib.Core.Logic.{ite}
use sandbox_ledger.Base.{
  ℕ, ◌+◌, ◌≤◌, ◌≡◌, ◌≢◌, refl, sym, ap, ◌∙◌, suc, Bool, true, false, Option, none, some, List, [],
  ◌∷◌, Error, String, arith, eq_iff, returned,
}
use sandbox_ledger.Names.{ModuleName, poa, ModuleName-discrete}
use sandbox_ledger.Ante.{
  Tx, Decorator, AnteHandler, new_poa_evm_ante_handler, by_extension, by_type,
  new_poa_cosmos_ante_handler, cosmos_decorators,
}
use sandbox_ledger.Ante.Chain.{Check}
use sandbox_ledger.Ante.Fees.{FeeLedger, DeductsFee}
use sandbox_ledger.Ante.Sequence.{IncrementsSequence}
use sandbox_ledger.Ante.Replay.{Numbers}
use sandbox_ledger.Ante.Counts.{Counts}
use sandbox_ledger.Mempool.{Slots}
use sandbox_ledger.Wiring.{App, Ref}
use sandbox_ledger.Wiring.Build.{new_app}
use sandbox_ledger.Wiring.Handlers.{ante_handler_options}
use sandbox_ledger.Wiring.Accessors.{get_ante_handler}
use sandbox_ledger.Wiring.Answers.{result}
use sandbox_ledger.Wiring.Complete.{new_app_eq}
use sandbox_ledger.Wiring.Sample.{body_of, env_of, laws_of, pool_of, answers_of}
use sandbox_ledger.Blocks.Signed.{verify, verify-same, delivery_of}
use sandbox_ledger.Blocks.Delivery.{Delivery, deliver_all}
use sandbox_ledger.Blocks.Ledger.{Entry, post_all, signed_by, IsConsecutive}
use sandbox_ledger.Blocks.Refinement.{
  SameLedger, ledger_of, entry_of, accepted_entries, new_app-refines,
}

record State : Type 0 where
  fees : ModuleName → ℕ
  numbers : Bool → ℕ

-- One of the accounts signs the transactions with an extension option, the other those without.
abbrev signer_of : Option (Tx ℕ) → Bool
signer_of none = false
signer_of (some tx) = elim tx.extension_options [ none ↦ false | some _ ↦ true ]

unfoldable same_account : Discrete Bool
same_account = hlevel

-- Each transaction pays 5.
abbrev checked : Check Ref ℕ ℕ State ℕ
checked (Decorator.deduct_fee _ _ _ _ recipient) s tx sim =
    (record s { fees = λ m. s.fees m + ite (ModuleName-discrete m recipient) 5 0 }, none)
checked (Decorator.sig_verification _ _) s tx sim = verify (s.numbers (signer_of tx)) (body_of tx) s
checked (Decorator.increment_sequence _) s tx sim =
    (record s { numbers = λ a. s.numbers a + ite (same_account a (signer_of tx)) 1 0 }, none)
checked _ s tx sim = (s, none)

first : {s : State} {r : State × Option Error} → (s, none) ≡ r → r.0 ≡ s
first h = ap (λ (r : State × Option Error). r.0) (sym h)

at_number :
    (tx : Option (Tx ℕ)) (s s' : State)
    → verify (s.numbers (signer_of tx)) (body_of tx) s ≡ (s', none)
    → (s.numbers (signer_of tx) ≡ body_of tx) × (s' ≡ s)
at_number tx s s' h = verify-same (s.numbers (signer_of tx)) (body_of tx) s s' h

keeps_fees :
    (d : Decorator Ref ℕ ℕ) (tx : Option (Tx ℕ)) (sim : Bool) (s s' : State)
    → ¬ DeductsFee d
    → checked d s tx sim ≡ (s', none)
    → (m : ModuleName) → s'.fees m ≡ s.fees m
keeps_fees (Decorator.deduct_fee _ _ _ _ _) tx sim s s' other h m = absurd (other tt)
keeps_fees (Decorator.sig_verification _ _) tx sim s s' other h m =
    ap (λ (x : State). x.fees m) (at_number tx s s' h).1
keeps_fees (Decorator.increment_sequence _) tx sim s s' other h m =
    ap (λ (x : State). x.fees m) (first h)
keeps_fees _ tx sim s s' other h m = ap (λ (x : State). x.fees m) (first h)

abbrev fees : FeeLedger checked
fees = record {
  collected = λ s. s.fees;
  fee = λ base tx. 5;
  others_keep = keeps_fees;
  deducts = λ a k f base recipient tx sim s s' h m. ap (λ (x : State). x.fees m) (first h);
}

keeps_number :
    (d : Decorator Ref ℕ ℕ) (tx : Option (Tx ℕ)) (s s' : State)
    → ¬ IncrementsSequence d
    → checked d s tx false ≡ (s', none)
    → (a : Bool) → s'.numbers a ≡ s.numbers a
keeps_number (Decorator.increment_sequence _) tx s s' other h a = absurd (other tt)
keeps_number (Decorator.sig_verification _ _) tx s s' other h a =
    ap (λ (x : State). x.numbers a) (at_number tx s s' h).1
keeps_number (Decorator.deduct_fee _ _ _ _ _) tx s s' other h a =
    ap (λ (x : State). x.numbers a) (first h)
keeps_number _ tx s s' other h a = ap (λ (x : State). x.numbers a) (first h)

grows :
    (d : Decorator Ref ℕ ℕ) (tx : Option (Tx ℕ)) (s s' : State)
    → checked d s tx false ≡ (s', none)
    → (a : Bool) → s.numbers a ≤ s'.numbers a
grows (Decorator.increment_sequence _) tx s s' h a =
    let more = ap (λ (x : State). x.numbers a) (first h) in omega (arith, more)
grows (Decorator.sig_verification _ _) tx s s' h a =
    let same = ap (λ (x : State). x.numbers a) (at_number tx s s' h).1 in omega (arith, same)
grows (Decorator.deduct_fee _ _ _ _ _) tx s s' h a =
    let same = ap (λ (x : State). x.numbers a) (first h) in omega (arith, same)
grows _ tx s s' h a = let same = ap (λ (x : State). x.numbers a) (first h) in omega (arith, same)

self_plus_one : (a : Bool) (n : ℕ) → n + ite (same_account a a) 1 0 ≡ suc n
unfolding same_account
self_plus_one true n = omega arith
self_plus_one false n = omega arith

abbrev numbers : Numbers checked
numbers = record {
  Account = Bool;
  signer = λ tx. signer_of (some tx);
  signed = λ tx. tx.body;
  IsOrdered = λ tx. Unit;
  sequence = λ s. s.numbers;
  grows = grows;
  increments_signer = λ accounts tx s s' ordered h.
      ap (λ (x : State). x.numbers (signer_of (some tx))) (first h)
      ∙ self_plus_one (signer_of (some tx)) _;
  verifies = λ accounts modes tx s s' ordered h. (at_number (some tx) s s' h).0;
}

abbrev counts : Counts numbers
counts = record {
  same_account = same_account;
  others_keep = keeps_number;
  increments = λ accounts tx s s' ordered h a. ap (λ (x : State). x.numbers a) (first h);
}

abbrev delivery :
    Delivery State ℕ (SameLedger (ledger_of (env_of checked) (laws_of checked) fees numbers counts))
delivery =
    delivery_of
      (λ s s' same. ap (ledger_of (env_of checked) (laws_of checked) fees numbers counts) same)

abbrev made : App × Slots (pool_of checked)
made = result (env_of checked) 7 true [] (answers_of checked 7 true)

returns : new_app (env_of checked) 7 true [] ≡ returned made
returns = new_app_eq (env_of checked) 7 true [] (answers_of checked 7 true)

abbrev plain_tx : ℕ → Tx ℕ
plain_tx n = record { extension_options = none; body = n }

abbrev dynamic_tx : ℕ → Tx ℕ
dynamic_tx n = record { extension_options = some ("/dynamic" ∷ []); body = n }

abbrev txs : List (Tx ℕ)
txs = plain_tx 3 ∷ dynamic_tx 7 ∷ plain_tx 9 ∷ plain_tx 4 ∷ []

abbrev start_number : Bool → ℕ
start_number true = 7
start_number false = 3

abbrev start : State
start = record { fees = λ _. 0; numbers = start_number }

plain : ◌≢◌ {A = Option String} none (some "/ethereum")
plain h = cc

dynamic : ◌≢◌ {A = Option String} (some "/dynamic") (some "/ethereum")
dynamic = ground (arith, eq_iff "/dynamic" "/ethereum")

abbrev app_handler : AnteHandler State ℕ
app_handler = new_poa_evm_ante_handler (env_of checked).ante (ante_handler_options 7 made.0)

abbrev entries : List (Entry Bool)
entries =
    record { signer = false; signed = 3; fee = 5 }
    ∷ record { signer = true; signed = 7; fee = 5 }
    ∷ record { signer = false; signed = 4; fee = 5 }
    ∷ []

three_accepted :
    accepted_entries
      (entry_of (env_of checked) (laws_of checked) fees numbers counts made.0)
      delivery
      app_handler
      txs
      start
    ≡ entries
unfolding new_poa_evm_ante_handler by_type by_extension new_poa_cosmos_ante_handler
    cosmos_decorators same_account
three_accepted = refl

new_app-refines_example :
    (handler : AnteHandler State ℕ) × (get_ante_handler (env_of checked) made.0 ≡ some handler)
    × (ledger_of
          (env_of checked)
          (laws_of checked)
          fees
          numbers
          counts
          (deliver_all delivery handler txs start)
        ≡ post_all same_account poa
            (accepted_entries
              (entry_of (env_of checked) (laws_of checked) fees numbers counts made.0)
              delivery
              handler
              txs
              start)
            (record { collected = λ _. 0; sequence = start_number }))
    × ((a : Bool)
        → IsConsecutive (start_number a) (
            signed_by same_account a (
              accepted_entries
                (entry_of (env_of checked) (laws_of checked) fees numbers counts made.0)
                delivery
                handler
                txs
                start)))
new_app-refines_example =
    new_app-refines (env_of checked) (laws_of checked) fees numbers counts 7 true [] made returns
      delivery txs start ((plain, tt), ((dynamic, tt), ((plain, tt), ((plain, tt), tt))))
