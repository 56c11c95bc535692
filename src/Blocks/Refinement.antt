-- ===== src/Blocks/Refinement.antt =====
-- The Cosmos transactions of a block, on the application that `NewApp` returns, against the ledger.
mod Tests
use mathlib.Core.Logic.{ite}
use mathlib.Core.Path.{subst}
use sandbox_ledger.Base.{
  ℕ, ◌+◌, ◌≡◌, refl, sym, ap, ◌∙◌, ◌≢◌, Bool, false, Option, none, some, List, [], ◌∷◌, Error,
  returned,
}
use sandbox_ledger.Base.Lists.{All}
use sandbox_ledger.Names.{ModuleName, poa, ModuleName-discrete}
use sandbox_ledger.BaseSetup.{BaseOption}
use sandbox_ledger.Ante.{Tx, AnteHandler, new_poa_evm_ante_handler}
use sandbox_ledger.Ante.Chain.{ChainLaws}
use sandbox_ledger.Ante.Fees.{FeeLedger, collected-new_poa_evm_ante_handler}
use sandbox_ledger.Ante.Replay.{Numbers}
use sandbox_ledger.Ante.Counts.{Counts, counted}
use sandbox_ledger.Mempool.{Slots}
use sandbox_ledger.Wiring.{App}
use sandbox_ledger.Wiring.Handlers.{ante_handler_options}
use sandbox_ledger.Wiring.Build.{Env, new_app}
use sandbox_ledger.Wiring.Accessors.{get_ante_handler}
use sandbox_ledger.Wiring.Serving.{new_app-get_ante_handler}
use sandbox_ledger.Blocks.Delivery.{Delivery, deliver_all, IsCosmos}
use sandbox_ledger.Blocks.Fees.{fee_of}
use sandbox_ledger.Blocks.Ledger.{
  Ledger, Entry, post, post_all, IsSigned, signed_by, IsConsecutive, IsSigned-IsConsecutive,
}

-- Two ledgers with the same amounts and the same numbers.
ledger_path :
    {Account : Type 0} {l l' : Ledger Account}
    → ((m : ModuleName) → l.collected m ≡ l'.collected m)
    → ((a : Account) → l.sequence a ≡ l'.sequence a)
    → l ≡ l'
ledger_path p q i = record { collected = λ m. p m i; sequence = λ a. q a i }

-- The messages of an accepted transaction collect no fee and leave the signers' numbers alone.
abbrev pub SameLedger : {C Account : Type 0} → (C → Ledger Account) → C → C → Type 0
SameLedger view ctx ctx' = view ctx' ≡ view ctx

module _ {C B Account : Type 0} {Keeps : C → C → Type 0} (entry : C → Tx B → Entry Account)
    (d : Delivery C B Keeps) (handler : AnteHandler C B) where
  abbrev pub add_accepted :
      C × Option Error → Entry Account → List (Entry Account) → List (Entry Account)
  add_accepted (ctx, none) x xs = x ∷ xs
  add_accepted (ctx, some e) x xs = xs

  -- What the accepted transactions of a block post, each in the context in which it is delivered.
  abbrev pub accepted_entries : List (Tx B) → C → List (Entry Account)
  accepted_entries [] ctx = []
  accepted_entries (tx ∷ txs) ctx =
      add_accepted (handler ctx (some tx) false) (entry ctx tx)
        (accepted_entries txs (d.deliver handler tx ctx))

module _ {C B Account : Type 0} (view : C → Ledger Account)
    (same_account : (a b : Account) → Dec (a ≡ b)) (recipient : ModuleName)
    (entry : C → Tx B → Entry Account) (d : Delivery C B (SameLedger view))
    (handler : AnteHandler C B) where
  -- A ledger to which the entries are posted, each signed for its signer's number.
  abbrev pub PostedTo : List (Entry Account) → Ledger Account → Ledger Account → Type 0
  PostedTo entries before after =
      (after ≡ post_all same_account recipient entries before)
      × IsSigned same_account recipient entries before

  -- The handler posts each transaction of a kind that it accepts.
  abbrev pub PostsEach : (Tx B → Type 0) → Type 0
  PostsEach Kind =
      (tx : Tx B) (ctx ctx' : C)
      → Kind tx
      → handler ctx (some tx) false ≡ (ctx', none)
      → PostedTo (entry ctx tx ∷ []) (view ctx) (view ctx')

  module _ (Kind : Tx B → Type 0) (posts : PostsEach Kind) where
    delivered :
        (tx : Tx B) (ctx : C) (r : C × Option Error) (xs : List (Entry Account))
        (l : Ledger Account)
        → Kind tx
        → handler ctx (some tx) false ≡ r
        → PostedTo xs (view (d.deliver handler tx ctx)) l
        → PostedTo (add_accepted entry d handler r (entry ctx tx) xs) (view ctx) l
    delivered tx ctx (ctx', none) xs l kind h later =
        let (posted, (at_number, _)) = posts tx ctx ctx' kind h in
        let (rest, signed) =
          subst (λ v. PostedTo xs v l) (d.accepted handler tx ctx ctx' h ∙ posted) later in
        (rest, (at_number, signed))
    delivered tx ctx (ctx', some e) xs l kind h later =
        subst (λ v. PostedTo xs v l) (ap view (d.refused handler tx ctx ctx' e h)) later

    pub deliver_all-PostedTo :
        (txs : List (Tx B)) (ctx : C)
        → All Kind txs
        → PostedTo
            (accepted_entries entry d handler txs ctx)
            (view ctx)
            (view (deliver_all d handler txs ctx))
    deliver_all-PostedTo [] ctx kinds = (refl, tt)
    deliver_all-PostedTo (tx ∷ txs) ctx (kind, kinds) =
        delivered tx ctx (handler ctx (some tx) false) _ _ kind refl
          (deliver_all-PostedTo txs (d.deliver handler tx ctx) kinds)

module _ (e : Env) (laws : ChainLaws e.ante) (fees : FeeLedger laws.check) (n : Numbers laws.check)
    (counts : Counts n) where
  -- What a context tells of the ledger.
  abbrev pub ledger_of : e.Context → Ledger n.Account
  ledger_of ctx = record { collected = fees.collected ctx; sequence = n.sequence ctx }

  abbrev pub entry_of : App → e.Context → Tx e.Body → Entry n.Account
  entry_of app ctx tx = record {
    signer = n.signer tx;
    signed = n.signed tx;
    fee = fee_of e laws fees app ctx tx;
  }

  abbrev pub IsOrderedCosmos : Tx e.Body → Type 0
  IsOrderedCosmos tx = IsCosmos e tx × n.IsOrdered tx

  posts_entry :
      (g : ℕ) (app : App) (d : Delivery e.Context e.Body (SameLedger ledger_of))
      → PostsEach ledger_of counts.same_account poa
          (entry_of app)
          d
          (new_poa_evm_ante_handler e.ante (ante_handler_options g app))
          IsOrderedCosmos
  unfolding ante_handler_options
  posts_entry g app d tx ctx ctx' (cosmos, ordered) h =
      let o = ante_handler_options g app in
      let (at_number, sequences) = counted laws n counts o ctx ctx' tx cosmos h ordered in
      (
        ledger_path
            (collected-new_poa_evm_ante_handler laws o ctx ctx' (some tx) false fees cosmos h)
            sequences,
        (at_number, tt),
      )

  -- If the decorator that deducts fees on the Cosmos chain pays a transaction's fee to its recipient,
  -- the signatures of an ordered transaction are accepted only for the number of the signer's account
  -- and that decorator increments it, and the other decorators of the Cosmos chain and the messages
  -- leave fees and numbers alone, then delivering the ordered Cosmos transactions of a block, each of
  -- one signer, with the handler that is set on the application of `NewApp` refines a ledger: the fees that the module
  -- accounts have collected and the numbers of all accounts are afterwards those of the ledger to
  -- which the accepted transactions have been posted, in order, with POA as the recipient of every
  -- fee, and those that an account has signed among them are signed for consecutive numbers,
  -- beginning with the one that it had before the block.
  pub new_app-refines :
      (g : ℕ) (b : Bool) (opts : List BaseOption) (r : App × Slots e.mempool)
      → new_app e g b opts ≡ returned r
      → (d : Delivery e.Context e.Body (SameLedger ledger_of)) (txs : List (Tx e.Body))
        (ctx : e.Context)
      → All IsOrderedCosmos txs
      → (handler : AnteHandler e.Context e.Body) × (get_ante_handler e r.0 ≡ some handler)
        × (ledger_of (deliver_all d handler txs ctx)
            ≡ post_all counts.same_account poa
                (accepted_entries (entry_of r.0) d handler txs ctx)
                (ledger_of ctx))
        × ((a : n.Account)
            → IsConsecutive (n.sequence ctx a) (
                signed_by counts.same_account a
                  (accepted_entries (entry_of r.0) d handler txs ctx)))
  new_app-refines g b opts r h d txs ctx kinds =
      let handler = new_poa_evm_ante_handler e.ante (ante_handler_options g r.0) in
      let (posted, signed) =
        deliver_all-PostedTo ledger_of counts.same_account poa (entry_of r.0) d handler
          IsOrderedCosmos (posts_entry g r.0 d) txs ctx kinds in
      (
        handler,
        new_app-get_ante_handler e g b opts r h,
        posted,
        λ a. IsSigned-IsConsecutive counts.same_account poa a _ (ledger_of ctx) signed,
      )
