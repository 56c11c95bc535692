-- ===== src/Ante/Sequence.antt =====
-- The account sequence of a Cosmos transaction whose signatures do not verify.
use sandbox_ledger.Base.{
  ℕ, ◌≡◌, refl, ◌≢◌, ◌∙◌, Bool, Option, none, some, List, [], ◌∷◌, ◌++◌, arith, Error, inl, inr,
}
use sandbox_ledger.Base.Lists.{All}
use sandbox_ledger.Ante.{
  Tx, HandlerOptions, AnteHandler, Decorator, AnteLib, first_extension, cosmos_decorators,
  new_poa_cosmos_ante_handler, new_poa_evm_ante_handler,
}
use sandbox_ledger.Ante.Chain.{Check, check_all, ChainLaws, chain-check_all, hand_on}
use sandbox_ledger.Ante.Routing.{cosmos_or_refused}

-- The decorators that increment sequence numbers: that of the Cosmos chain, and the EVM's.
abbrev pub IncrementsSequence : {K F V : Type 0} → Decorator K F V → Type 0
IncrementsSequence (Decorator.increment_sequence _) = Unit
IncrementsSequence (Decorator.evm_mono _ _ _ _ _ _) = Unit
IncrementsSequence _ = ⊥

-- Only these change an account's sequence, in the context that they hand on.
pub record Sequences {K F V C B : Type 0} (check : Check K F V C B) : Type 0 where
  pub sequence : C → ℕ
  pub others_keep :
      (d : Decorator K F V) (ctx : C) (tx : Option (Tx B)) (sim : Bool)
      → ¬ IncrementsSequence d
      → sequence (check d ctx tx sim).0 ≡ sequence ctx

module _ {K F V C B : Type 0} {check : Check K F V C B} (s : Sequences check) (tx : Option (Tx B))
    (sim : Bool) where
  open s use {sequence}

  -- Rejected, with the sequence that the context had.
  abbrev pub Unspent : C → C × Option Error → Type 0
  Unspent ctx (ctx', e) = (e ≢ none) × (sequence ctx' ≡ sequence ctx)

  hand_on-Unspent :
      (ctx : C) (r : C × Option Error) (next : AnteHandler C B)
      → sequence r.0 ≡ sequence ctx
      → ((c : C) → Unspent c (next c tx sim))
      → Unspent ctx (hand_on r next ctx tx sim)
  hand_on-Unspent ctx (c, none) next same later = ((later c).0, (later c).1 ∙ same)
  hand_on-Unspent ctx (c, some e) next same later = ((λ p. cc), same)

  -- Once a check rejects in every context, the decorators behind it do not run.
  check_all-Unspent :
      (before after : List (Decorator K F V)) (d : Decorator K F V)
      → All (λ x. ¬ IncrementsSequence x) before
      → ¬ IncrementsSequence d
      → ((c : C) → (check d c tx sim).1 ≢ none)
      → (ctx : C) → Unspent ctx (check_all check (before ++ d ∷ after) ctx tx sim)
  check_all-Unspent [] after d free other rejects ctx =
      go (check d ctx tx sim) (rejects ctx) (s.others_keep d ctx tx sim other)
    where
      go :
          (r : C × Option Error)
          → r.1 ≢ none
          → sequence r.0 ≡ sequence ctx
          → Unspent ctx (hand_on r (check_all check after) ctx tx sim)
      go (c, none) failed same = absurd (failed refl)
      go (c, some e) failed same = (failed, same)
  check_all-Unspent (x ∷ before) after d (keeps, free) other rejects ctx =
      hand_on-Unspent ctx (check x ctx tx sim) (check_all check (before ++ d ∷ after))
        (s.others_keep x ctx tx sim keeps) (check_all-Unspent before after d free other rejects)

module _ {K F V C B : Type 0} {l : AnteLib K F V C B} (laws : ChainLaws l)
    (s : Sequences laws.check) (o : HandlerOptions K) where
  cosmos-Unspent :
      (ctx : C) (tx : Option (Tx B)) (sim : Bool)
      → ((c : C)
          → (laws.check
              (Decorator.sig_verification o.account_keeper o.sign_mode_handler)
              c
              tx
              sim).1
            ≢ none)
      → Unspent s tx sim ctx (new_poa_cosmos_ante_handler l ctx o ctx tx sim)
  unfolding new_poa_cosmos_ante_handler cosmos_decorators
  cosmos-Unspent ctx tx sim rejects = rw (chain-check_all laws) (
      check_all-Unspent s tx sim
        (Decorator.reject_messages
          ∷ Decorator.authz_limiter _ _
          ∷ Decorator.set_up_context
          ∷ Decorator.extension_options _
          ∷ Decorator.validate_basic
          ∷ Decorator.tx_timeout_height
          ∷ Decorator.validate_memo _
          ∷ Decorator.min_gas_price _
          ∷ Decorator.consume_gas_for_tx_size _
          ∷ Decorator.deduct_fee _ _ _ _ _
          ∷ Decorator.set_pub_key _
          ∷ Decorator.validate_sig_count _
          ∷ Decorator.sig_gas_consume _ _
          ∷ [])
        (Decorator.increment_sequence o.account_keeper
          ∷ Decorator.redundant_relay o.ibc_keeper
          ∷ [])
        (Decorator.sig_verification o.account_keeper o.sign_mode_handler) (omega arith) (λ p. p)
        rejects ctx)

  -- A transaction without the Ethereum option whose signatures the verification rejects, in every
  -- context, is rejected by the handler, and the context that comes back has the account sequence
  -- of the one that was given.
  pub sequence-new_poa_evm_ante_handler :
      (ctx : C) (tx : Option (Tx B)) (sim : Bool)
      → first_extension tx ≢ some l.ethereum_tx_url
      → ((c : C)
          → (laws.check
              (Decorator.sig_verification o.account_keeper o.sign_mode_handler)
              c
              tx
              sim).1
            ≢ none)
      → ((new_poa_evm_ante_handler l o ctx tx sim).1 ≢ none)
        × (s.sequence (new_poa_evm_ante_handler l o ctx tx sim).0 ≡ s.sequence ctx)
  sequence-new_poa_evm_ante_handler ctx tx sim not_eth rejects =
      elim (cosmos_or_refused l o ctx tx sim not_eth) [
        | inl cosmos ↦ rw cosmos (cosmos-Unspent ctx tx sim rejects)
        | inr (e, refused) ↦ rw refused ((λ p. cc), refl)
      ]
