-- ===== src/Ante/Fees.antt =====
-- Where the fees of Cosmos transactions go, and what an accepted one has passed.
use mathlib.Core.Logic.{ite}
use sandbox_ledger.Base.{
  ℕ, ◌+◌, ◌≡◌, ◌≢◌, Bool, Option, none, some, inl, inr, List, [], ◌∷◌, ◌++◌, ◌∙◌, sym, arith, ap,
  if◌then◌else◌,
}
use sandbox_ledger.Base.Lists.{All}
use sandbox_ledger.Names.{ModuleName, poa, ModuleName-discrete}
use sandbox_ledger.Ante.{
  Tx, HandlerOptions, Decorator, AnteLib, first_extension, cosmos_decorators,
  new_poa_cosmos_ante_handler, new_poa_evm_ante_handler,
}
use sandbox_ledger.Ante.Chain.{
  Check, check_all, ChainLaws, chain-check_all, Accepts, check_all-Accepts, check_all-split,
  check_all-keeps,
}
use sandbox_ledger.Ante.Routing.{cosmos_or_refused}

-- The decorators that deduct fees: that of the Cosmos chain, and the EVM's.
abbrev pub DeductsFee : {K F V : Type 0} → Decorator K F V → Type 0
DeductsFee (Decorator.deduct_fee _ _ _ _ _) = Unit
DeductsFee (Decorator.evm_mono _ _ _ _ _ _) = Unit
DeductsFee _ = ⊥

module _ {K F V C B : Type 0} where
  -- What a decorator that deducts no fee, or that of the Cosmos chain, is documented to do with the fees that
  -- each module account has collected.
  pub record FeeLedger (check : Check K F V C B) : Type 0 where
    pub collected : C → ModuleName → ℕ
    -- the fee of a transaction, by the parameters that the dynamic fee checker was given
    pub fee : Option F → Option (Tx B) → ℕ
    pub others_keep :
        (d : Decorator K F V) (tx : Option (Tx B)) (sim : Bool) (ctx ctx' : C)
        → ¬ DeductsFee d
        → check d ctx tx sim ≡ (ctx', none)
        → (m : ModuleName) → collected ctx' m ≡ collected ctx m
    pub deducts :
        (accounts bank grants : Option K) (checker : Option F) (recipient : ModuleName)
        (tx : Option (Tx B)) (sim : Bool) (ctx ctx' : C)
        → check (Decorator.deduct_fee accounts bank grants checker recipient) ctx tx sim
          ≡ (ctx', none)
        → (m : ModuleName)
        → collected ctx' m
          ≡ collected ctx m + ite (ModuleName-discrete m recipient) (fee checker tx) 0

module _ {K F V C B : Type 0} {check : Check K F V C B} (ledger : FeeLedger check)
    (tx : Option (Tx B)) (sim : Bool) where
  open ledger use {collected}

  -- A list of decorators around one that deducts the fee.
  collected-deduct_fee :
      (before after : List (Decorator K F V)) (accounts bank grants : Option K) (checker : Option F)
      (recipient : ModuleName) (ctx ctx' : C)
      → All (λ d. ¬ DeductsFee d) before
      → All (λ d. ¬ DeductsFee d) after
      → check_all check
          (before ++ Decorator.deduct_fee accounts bank grants checker recipient ∷ after)
          ctx
          tx
          sim
        ≡ (ctx', none)
      → (m : ModuleName)
      → collected ctx' m
        ≡ collected ctx m + ite (ModuleName-discrete m recipient) (ledger.fee checker tx) 0
  collected-deduct_fee before after accounts bank grants checker recipient ctx ctx' free free' h m =
      let (c, c', passed, here, later) =
        check_all-split check tx sim before after
          (Decorator.deduct_fee accounts bank grants checker recipient) ctx h in
      kept after c' free' later m
      ∙ ledger.deducts accounts bank grants checker recipient tx sim c c' here m
      ∙ ap (λ n. n + ite (ModuleName-discrete m recipient) (ledger.fee checker tx) 0)
          (kept before ctx free passed m)
    where
      kept :
          (ds : List (Decorator K F V)) (c : C) {c' : C}
          → All (λ d. ¬ DeductsFee d) ds
          → check_all check ds c tx sim ≡ (c', none)
          → (m : ModuleName) → collected c' m ≡ collected c m
      kept ds c frees accepted m =
          check_all-keeps check tx sim (λ x. collected x m) (λ d. ¬ DeductsFee d)
            (λ d x x' other at_d. ledger.others_keep d tx sim x x' other at_d m) ds c frees accepted

module _ {K F V C B : Type 0} {l : AnteLib K F V C B} (laws : ChainLaws l)
    (o : HandlerOptions K) where
  -- The parameters that the fee is computed with.
  abbrev pub fee_checker : C → Option F
  fee_checker ctx =
      if o.dynamic_fee_checker then some (l.fee_market_params o.fee_market_keeper ctx) else none

  module _ (ctx ctx' : C) (tx : Option (Tx B)) (sim : Bool) where
    pub cosmos_checks :
        first_extension tx ≢ some l.ethereum_tx_url
        → new_poa_evm_ante_handler l o ctx tx sim ≡ (ctx', none)
        → check_all laws.check (cosmos_decorators l ctx o) ctx tx sim ≡ (ctx', none)
    unfolding new_poa_cosmos_ante_handler cosmos_decorators
    cosmos_checks not_eth h = elim (cosmos_or_refused l o ctx tx sim not_eth) [
      | inl cosmos ↦ rw (← chain-check_all laws _ _ ctx tx sim) (sym cosmos ∙ h)
      | inr (e, refused) ↦ cc
    ]

    -- A transaction without the Ethereum option that the handler accepts has been accepted by each
    -- of the decorators of the Cosmos chain.
    pub new_poa_evm_ante_handler-Accepts :
        first_extension tx ≢ some l.ethereum_tx_url
        → new_poa_evm_ante_handler l o ctx tx sim ≡ (ctx', none)
        → All (Accepts laws.check tx sim) (cosmos_decorators l ctx o)
    new_poa_evm_ante_handler-Accepts not_eth h =
        check_all-Accepts laws.check tx sim (cosmos_decorators l ctx o) ctx
          (cosmos_checks not_eth h)

    -- A transaction without the Ethereum option that the handler accepts pays its fee, computed
    -- with the fee market's parameters if the dynamic fee checker is on, to the POA module account
    -- and to no other.
    pub collected-new_poa_evm_ante_handler :
        (ledger : FeeLedger laws.check)
        → first_extension tx ≢ some l.ethereum_tx_url
        → new_poa_evm_ante_handler l o ctx tx sim ≡ (ctx', none)
        → (m : ModuleName)
        → ledger.collected ctx' m
          ≡ ledger.collected ctx m
            + ite (ModuleName-discrete m poa) (ledger.fee (fee_checker ctx) tx) 0
    unfolding cosmos_decorators
    collected-new_poa_evm_ante_handler ledger not_eth h =
        collected-deduct_fee ledger tx sim
          (Decorator.reject_messages
            ∷ Decorator.authz_limiter _ _
            ∷ Decorator.set_up_context
            ∷ Decorator.extension_options _
            ∷ Decorator.validate_basic
            ∷ Decorator.tx_timeout_height
            ∷ Decorator.validate_memo _
            ∷ Decorator.min_gas_price _
            ∷ Decorator.consume_gas_for_tx_size _
            ∷ [])
          (Decorator.set_pub_key _
            ∷ Decorator.validate_sig_count _
            ∷ Decorator.sig_gas_consume _ _
            ∷ Decorator.sig_verification _ _
            ∷ Decorator.increment_sequence _
            ∷ Decorator.redundant_relay _
            ∷ [])
          o.account_keeper o.bank_keeper o.feegrant_keeper (fee_checker ctx) poa ctx ctx'
          (omega arith) (omega arith) (cosmos_checks not_eth h)
