-- ===== src/Ante/Replay.antt =====
-- The sequence number that a Cosmos transaction is signed for, and the decorators that use it.
use sandbox_ledger.Base.{
  sym, ◌∙◌, Bool, ℕ, suc, ◌≤◌, ◌≡◌, ap, ◌≢◌, false, Option, none, some, List, [], ◌∷◌, arith, Error,
}
use sandbox_ledger.Ante.{
  Tx, HandlerOptions, Decorator, AnteLib, first_extension, cosmos_decorators,
  new_poa_evm_ante_handler, new_evm_ante_handler, evm_decorators, new_poa_cosmos_ante_handler,
}
use sandbox_ledger.Names.{poa}
use sandbox_ledger.Ante.Chain.{
  Check, check_all, check_all-cons, check_all-split, chain-check_all, ChainLaws,
}
use sandbox_ledger.Ante.Fees.{fee_checker, cosmos_checks}
use sandbox_ledger.Ante.Routing.{
  Route, evm_chain, cosmos_chain, refuse, follow, new_poa_evm_ante_handler-Routes,
}

-- What the SDK documents of the decorators outside of a simulation, for one signer of each
-- transaction: none of them lowers the sequence number of an account, and for an ordered transaction
-- the signatures are accepted only for the number of the signer's account, which is then
-- incremented. The numbers are counted without the bound of 64 bits.
pub record Numbers {K F V C B : Type 0} (check : Check K F V C B) : Type 1 where
  pub Account : Type 0
  pub signer : Tx B → Account
  pub signed : Tx B → ℕ
  pub IsOrdered : Tx B → Type 0
  pub sequence : C → Account → ℕ
  pub grows :
      (d : Decorator K F V) (tx : Option (Tx B)) (ctx ctx' : C)
      → check d ctx tx false ≡ (ctx', none)
      → (a : Account) → sequence ctx a ≤ sequence ctx' a
  pub increments_signer :
      (accounts : Option K) (tx : Tx B) (ctx ctx' : C)
      → IsOrdered tx
      → check (Decorator.increment_sequence accounts) ctx (some tx) false ≡ (ctx', none)
      → sequence ctx' (signer tx) ≡ suc (sequence ctx (signer tx))
  pub verifies :
      (accounts modes : Option K) (tx : Tx B) (ctx ctx' : C)
      → IsOrdered tx
      → check (Decorator.sig_verification accounts modes) ctx (some tx) false ≡ (ctx', none)
      → sequence ctx (signer tx) ≡ signed tx

module _ {K F V C B : Type 0} {check : Check K F V C B} (n : Numbers check) where
  open n use {Account, sequence}

  abbrev pub Grows : C → C → Type 0
  Grows ctx ctx' = (a : Account) → sequence ctx a ≤ sequence ctx' a

  check_all-Grows :
      (ds : List (Decorator K F V)) (tx : Option (Tx B)) (ctx ctx' : C)
      → check_all check ds ctx tx false ≡ (ctx', none)
      → Grows ctx ctx'
  check_all-Grows [] tx ctx ctx' h a =
      let same = ap (λ (r : C × Option Error). sequence r.0 a) h in omega (arith, same)
  check_all-Grows (d ∷ ds) tx ctx ctx' h a =
      let (c, here, later) = check_all-cons check tx false d ds ctx h in
      let first = n.grows d tx ctx c here a in
      let rest = check_all-Grows ds tx c ctx' later a in omega (arith, first, rest)

module _ {K F V C B : Type 0} {l : AnteLib K F V C B} (laws : ChainLaws l) (n : Numbers laws.check)
    (o : HandlerOptions K) where
  open n use {sequence, signer, signed, IsOrdered}

  abbrev pub before_verification : C → List (Decorator K F V)
  before_verification ctx =
      Decorator.reject_messages
      ∷ Decorator.authz_limiter l.msg_ethereum_tx_url l.msg_create_vesting_account_url
      ∷ Decorator.set_up_context
      ∷ Decorator.extension_options o.extension_option_checker
      ∷ Decorator.validate_basic
      ∷ Decorator.tx_timeout_height
      ∷ Decorator.validate_memo o.account_keeper
      ∷ Decorator.min_gas_price (l.fee_market_params o.fee_market_keeper ctx)
      ∷ Decorator.consume_gas_for_tx_size o.account_keeper
      ∷ Decorator.deduct_fee o.account_keeper o.bank_keeper o.feegrant_keeper
          (fee_checker laws o ctx) poa
      ∷ Decorator.set_pub_key o.account_keeper
      ∷ Decorator.validate_sig_count o.account_keeper
      ∷ Decorator.sig_gas_consume o.account_keeper o.sig_gas_consumer
      ∷ []

  module _ (ctx ctx' : C) (tx : Option (Tx B)) (sim : Bool)
      (h : new_poa_evm_ante_handler l o ctx tx sim ≡ (ctx', none)) where
    -- The checks of the chain that a transaction has passed.
    abbrev Passed : Type 0
    Passed = (ds : List (Decorator K F V)) × (check_all laws.check ds ctx tx sim ≡ (ctx', none))

    passed : Passed
    unfolding new_evm_ante_handler evm_decorators new_poa_cosmos_ante_handler cosmos_decorators
    passed =
        let (r, _, _, followed) = new_poa_evm_ante_handler-Routes l o ctx tx sim in
        go r (sym followed ∙ h)
      where
        go : (r : Route) → follow l o r ctx tx sim ≡ (ctx', none) → Passed
        go evm_chain accepted =
            (evm_decorators l ctx o, sym (chain-check_all laws _ _ ctx tx sim) ∙ accepted)
        go cosmos_chain accepted =
            (cosmos_decorators l ctx o, sym (chain-check_all laws _ _ ctx tx sim) ∙ accepted)
        go (refuse x) accepted = cc

  -- No account's sequence number gets smaller.
  pub new_poa_evm_ante_handler-Grows :
      (ctx ctx' : C) (tx : Option (Tx B))
      → new_poa_evm_ante_handler l o ctx tx false ≡ (ctx', none)
      → Grows n ctx ctx'
  new_poa_evm_ante_handler-Grows ctx ctx' tx h =
      let (ds, accepted) = passed ctx ctx' tx false h in check_all-Grows n ds tx ctx ctx' accepted

  module _ (ctx ctx' : C) (tx : Tx B) (not_eth : first_extension (some tx) ≢ some l.ethereum_tx_url)
      (h : new_poa_evm_ante_handler l o ctx (some tx) false ≡ (ctx', none)) where
    -- An ordered transaction is signed for a number that its signer's account had not passed before
    -- it, and has passed after it.
    pub verified_between :
        IsOrdered tx
        → (sequence ctx (signer tx) ≤ signed tx) × (suc (signed tx) ≤ sequence ctx' (signer tx))
    unfolding cosmos_decorators
    verified_between ordered =
        let (c, c', before, verified, later) =
          check_all-split laws.check (some tx) false (before_verification ctx)
            (Decorator.increment_sequence o.account_keeper
              ∷ Decorator.redundant_relay o.ibc_keeper
              ∷ [])
            (Decorator.sig_verification o.account_keeper o.sign_mode_handler) ctx
            (cosmos_checks laws o ctx ctx' (some tx) false not_eth h) in
        let (c'', incremented, behind) =
          check_all-cons laws.check (some tx) false (Decorator.increment_sequence o.account_keeper)
            (Decorator.redundant_relay o.ibc_keeper ∷ []) c' later in
        let for_signed = n.verifies o.account_keeper o.sign_mode_handler tx c c' ordered verified in
        let at_first =
          check_all-Grows n (before_verification ctx) (some tx) ctx c before (signer tx) in
        let kept =
          n.grows (Decorator.sig_verification o.account_keeper o.sign_mode_handler) (some tx) c c'
            verified (signer tx) in
        let one_more = n.increments_signer o.account_keeper tx c' c'' ordered incremented in
        let rest =
          check_all-Grows n (Decorator.redundant_relay o.ibc_keeper ∷ []) (some tx) c'' ctx' behind
            (signer tx) in
        (omega (arith, for_signed, at_first), omega (arith, for_signed, kept, one_more, rest))
