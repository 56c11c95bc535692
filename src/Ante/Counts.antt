-- ===== src/Ante/Counts.antt =====
-- By how much the Cosmos chain raises the sequence numbers of accounts.
use mathlib.Core.Logic.{ite}
use sandbox_ledger.Base.{
  sym, ◌∙◌, ap, ◌+◌, ◌≡◌, ◌≢◌, false, Option, none, some, List, [], ◌∷◌, arith,
}
use sandbox_ledger.Base.Lists.{All}
use sandbox_ledger.Ante.{
  Tx, HandlerOptions, Decorator, AnteLib, first_extension, cosmos_decorators,
  new_poa_evm_ante_handler,
}
use sandbox_ledger.Ante.Chain.{
  Check, check_all, check_all-cons, check_all-split, check_all-keeps, ChainLaws,
}
use sandbox_ledger.Ante.Fees.{cosmos_checks}
use sandbox_ledger.Ante.Sequence.{IncrementsSequence}
use sandbox_ledger.Ante.Replay.{Numbers, before_verification}

-- What the SDK documents besides: the decorators that do not increment sequence numbers leave them
-- alone, and that of the Cosmos chain increments the signer's only.
pub record Counts {K F V C B : Type 0} {check : Check K F V C B} (n : Numbers check) : Type 0 where
  pub same_account : (a b : n.Account) → Dec (a ≡ b)
  pub others_keep :
      (d : Decorator K F V) (tx : Option (Tx B)) (ctx ctx' : C)
      → ¬ IncrementsSequence d
      → check d ctx tx false ≡ (ctx', none)
      → (a : n.Account) → n.sequence ctx' a ≡ n.sequence ctx a
  pub increments :
      (accounts : Option K) (tx : Tx B) (ctx ctx' : C)
      → n.IsOrdered tx
      → check (Decorator.increment_sequence accounts) ctx (some tx) false ≡ (ctx', none)
      → (a : n.Account)
      → n.sequence ctx' a ≡ n.sequence ctx a + ite (same_account a (n.signer tx)) 1 0

module _ {K F V C B : Type 0} {l : AnteLib K F V C B} (laws : ChainLaws l) (n : Numbers laws.check)
    (counts : Counts n) (o : HandlerOptions K) (ctx ctx' : C) (tx : Tx B)
    (not_eth : first_extension (some tx) ≢ some l.ethereum_tx_url)
    (h : new_poa_evm_ante_handler l o ctx (some tx) false ≡ (ctx', none)) where
  open n use {sequence, signer, signed, IsOrdered}

  kept :
      (ds : List (Decorator K F V)) (c : C) {c' : C}
      → All (λ d. ¬ IncrementsSequence d) ds
      → check_all laws.check ds c (some tx) false ≡ (c', none)
      → (a : n.Account) → sequence c' a ≡ sequence c a
  kept ds c frees accepted a =
      check_all-keeps laws.check (some tx) false (λ x. sequence x a) (λ d. ¬ IncrementsSequence d)
        (λ d x x' other at_d. counts.others_keep d (some tx) x x' other at_d a) ds c frees accepted

  -- An ordered transaction that is accepted is signed for the number of its signer's account, which
  -- is then one more, and the other accounts' are the same.
  pub counted :
      IsOrdered tx
      → (sequence ctx (signer tx) ≡ signed tx)
        × ((a : n.Account)
            → sequence ctx' a ≡ sequence ctx a + ite (counts.same_account a (signer tx)) 1 0)
  unfolding cosmos_decorators
  counted ordered =
      let (c, c', before, verified, later) =
        check_all-split laws.check (some tx) false (before_verification laws n o ctx)
          (Decorator.increment_sequence o.account_keeper
            ∷ Decorator.redundant_relay o.ibc_keeper
            ∷ [])
          (Decorator.sig_verification o.account_keeper o.sign_mode_handler) ctx
          (cosmos_checks laws o ctx ctx' (some tx) false not_eth h) in
      let (c'', incremented, behind) =
        check_all-cons laws.check (some tx) false (Decorator.increment_sequence o.account_keeper)
          (Decorator.redundant_relay o.ibc_keeper ∷ []) c' later in
      let first = kept (before_verification laws n o ctx) ctx (omega arith) before in
      let second = counts.others_keep _ (some tx) c c' (λ p. p) verified in
      (
        sym (first (signer tx))
            ∙ n.verifies o.account_keeper o.sign_mode_handler tx c c' ordered verified,
        λ a.
            kept (Decorator.redundant_relay o.ibc_keeper ∷ []) c'' (omega arith) behind a
            ∙ counts.increments o.account_keeper tx c' c'' ordered incremented a
            ∙ ap (λ k. k + ite (counts.same_account a (signer tx)) 1 0) (second a ∙ first a),
      )
