-- ===== src/Blocks/Ledger.antt =====
-- What the Cosmos chain promises of fees and sequence numbers, without decorators and contexts: a
-- ledger to which transactions are posted.
use mathlib.Core.Logic.{ite}
use mathlib.Core.Path.{subst}
use sandbox_ledger.Base.{ℕ, suc, ◌+◌, ◌≡◌, sym, ◌∙◌, ap, List, [], ◌∷◌, arith}
use sandbox_ledger.Names.{ModuleName, ModuleName-discrete}

pub record Ledger (Account : Type 0) : Type 0 where
  pub collected : ModuleName → ℕ
  pub sequence : Account → ℕ

-- What a transaction posts: its signer, the number that it is signed for, and its fee.
pub record Entry (Account : Type 0) : Type 0 where
  pub signer : Account
  pub signed : ℕ
  pub fee : ℕ

-- The numbers count up from the first one, without a gap.
abbrev pub IsConsecutive : ℕ → List ℕ → Type 0
IsConsecutive n [] = Unit
IsConsecutive n (k ∷ ks) = (k ≡ n) × IsConsecutive (suc n) ks

-- A number in front, if the account is the signer.
abbrev pub add_signed : {P : Type 0} → Dec P → ℕ → List ℕ → List ℕ
add_signed (yes _) n ns = n ∷ ns
add_signed (no _) n ns = ns

-- One more entry in front, of this account or of another.
add_signed-IsConsecutive :
    {Account : Type 0} {a b : Account} (same : Dec (a ≡ b)) (l : Ledger Account) (n : ℕ)
    (ns : List ℕ)
    → l.sequence b ≡ n
    → IsConsecutive (l.sequence a + ite same 1 0) ns
    → IsConsecutive (l.sequence a) (add_signed same n ns)
add_signed-IsConsecutive (yes here) l n ns at later =
    (sym at ∙ ap l.sequence (sym here), subst (λ k. IsConsecutive k ns) (omega arith) later)
add_signed-IsConsecutive (no _) l n ns at later =
    subst (λ k. IsConsecutive k ns) (omega arith) later

module _ {Account : Type 0} (same_account : (a b : Account) → Dec (a ≡ b)) where
  -- The numbers for which an account has signed.
  abbrev pub signed_by : Account → List (Entry Account) → List ℕ
  signed_by a [] = []
  signed_by a (entry ∷ entries) =
      add_signed (same_account a entry.signer) entry.signed (signed_by a entries)

module _ {Account : Type 0} (same_account : (a b : Account) → Dec (a ≡ b))
    (recipient : ModuleName) where
  abbrev pub post : Entry Account → Ledger Account → Ledger Account
  post entry l = record {
    collected = λ m. l.collected m + ite (ModuleName-discrete m recipient) entry.fee 0;
    sequence = λ a. l.sequence a + ite (same_account a entry.signer) 1 0;
  }

  abbrev pub post_all : List (Entry Account) → Ledger Account → Ledger Account
  post_all [] l = l
  post_all (entry ∷ entries) l = post_all entries (post entry l)

  -- Each entry is signed for the number that its signer has when it is posted.
  abbrev pub IsSigned : List (Entry Account) → Ledger Account → Type 0
  IsSigned [] l = Unit
  IsSigned (entry ∷ entries) l =
      (l.sequence entry.signer ≡ entry.signed) × IsSigned entries (post entry l)

  -- Every account signs for consecutive numbers, beginning with the one it has.
  pub IsSigned-IsConsecutive :
      (a : Account) (entries : List (Entry Account)) (l : Ledger Account)
      → IsSigned entries l
      → IsConsecutive (l.sequence a) (signed_by same_account a entries)
  IsSigned-IsConsecutive a [] l signed = tt
  IsSigned-IsConsecutive a (entry ∷ entries) l (here, signed) =
      add_signed-IsConsecutive (same_account a entry.signer) l entry.signed
        (signed_by same_account a entries) here
        (IsSigned-IsConsecutive a entries (post entry l) signed)
