-- ===== src/Ante/Tests.antt =====
-- A small chain state with real checks, and the theorems at it.
use mathlib.Core.Logic.{ite}
use sandbox_ledger.Base.{
  ℕ, ◌+◌, String, ◌≡◌, refl, ◌≢◌, Bool, true, false, Option, none, some, [], ◌∷◌, Error, foreign,
  arith, ap, sym, eq_iff, unknown_extension_options,
}
use sandbox_ledger.Names.{ModuleName, poa, ModuleName-discrete}
use sandbox_ledger.Ante.{
  Tx, HandlerOptions, AnteHandler, Decorator, AnteLib, cosmos_decorators, new_poa_evm_ante_handler,
  new_poa_cosmos_ante_handler,
}
use sandbox_ledger.Ante.Chain.{Check, ChainLaws, nest, hand_on}
use sandbox_ledger.Ante.Routing.{Route, Routes, follow, new_poa_evm_ante_handler-Routes}
use sandbox_ledger.Ante.Fees.{FeeLedger, DeductsFee}
use sandbox_ledger.Ante.Sequence.{Sequences, IncrementsSequence, sequence-new_poa_evm_ante_handler}

record Ctx : Type 0 where
  fees : ModuleName → ℕ
  seq : ℕ

-- Whether the signatures verify, and the fee.
abbrev Body : Type 0
Body = Bool × ℕ

abbrev sig_ok : Option (Tx Body) → Bool
sig_ok none = false
sig_ok (some t) = t.body.0

-- The fee that the transaction offers, and the base fee.
abbrev fee : Option ℕ → Option (Tx Body) → ℕ
fee base none = 0
fee none (some t) = t.body.1
fee (some base) (some t) = t.body.1 + base

abbrev check_signature : Bool → Ctx → Ctx × Option Error
check_signature true ctx = (ctx, none)
check_signature false ctx = (ctx, some (foreign "unauthorized"))

abbrev check : Check Unit ℕ Unit Ctx Body
check (Decorator.deduct_fee _ _ _ checker recipient) ctx tx sim = (
  record ctx { fees = λ m. ctx.fees m + ite (ModuleName-discrete m recipient) (fee checker tx) 0 },
  none,
)
check (Decorator.sig_verification _ _) ctx tx sim = check_signature (sig_ok tx) ctx
check (Decorator.increment_sequence _) ctx tx sim = (record ctx { seq = ctx.seq + 1 }, none)
check _ ctx tx sim = (ctx, none)

abbrev handle : Decorator Unit ℕ Unit → AnteHandler Ctx Body → AnteHandler Ctx Body
handle d next ctx tx sim = hand_on (check d ctx tx sim) next ctx tx sim

abbrev lib : AnteLib Unit ℕ Unit Ctx Body
lib = record {
  ethereum_tx_url = "/ethereum";
  dynamic_fee_tx_url = "/dynamic";
  msg_ethereum_tx_url = "/msg.ethereum";
  msg_create_vesting_account_url = "/msg.vesting";
  evm_params = λ _ _. tt;
  fee_market_params = λ _ _. 2;
  ante_handle = handle;
  chain_ante_decorators = nest handle;
}

abbrev laws : ChainLaws lib
laws = record {
  check = check;
  handles = λ d next ctx tx sim. refl;
  chains = λ d ds ctx tx sim. refl;
}

abbrev options : HandlerOptions Unit
options = record {
  cdc = some tt;
  account_keeper = some tt;
  bank_keeper = some tt;
  ibc_keeper = some tt;
  fee_market_keeper = some tt;
  evm_keeper = some tt;
  feegrant_keeper = none;
  extension_option_checker = some tt;
  sign_mode_handler = some tt;
  sig_gas_consumer = some tt;
  max_tx_gas_wanted = 0;
  dynamic_fee_checker = true;
  pending_tx_listener = some tt;
}

abbrev start : Ctx
start = record { fees = λ _. 0; seq = 0 }

abbrev paid : Ctx
paid = record { fees = λ m. 0 + ite (ModuleName-discrete m poa) 12 0; seq = 1 }

abbrev signed : Tx Body
signed = record { extension_options = some ("/dynamic" ∷ []); body = (true, 10) }

abbrev unsigned : Tx Body
unsigned = record { extension_options = none; body = (false, 10) }

abbrev odd : Tx Body
odd = record { extension_options = some ("/odd" ∷ "/ethereum" ∷ []); body = (true, 10) }

signed-paid : new_poa_evm_ante_handler lib options start (some signed) false ≡ (paid, none)
unfolding new_poa_evm_ante_handler new_poa_cosmos_ante_handler cosmos_decorators
signed-paid = refl

odd_refused :
    new_poa_evm_ante_handler lib options start (some odd) false
    ≡ (start, some (unknown_extension_options "/odd"))
unfolding new_poa_evm_ante_handler
odd_refused = refl

signed_not_ethereum : ◌≢◌ {A = Option String} (some "/dynamic") (some "/ethereum")
signed_not_ethereum = ground (arith, eq_iff "/dynamic" "/ethereum")

keeps_fees :
    (d : Decorator Unit ℕ Unit) (tx : Option (Tx Body)) (sim : Bool) (ctx ctx' : Ctx)
    → ¬ DeductsFee d
    → check d ctx tx sim ≡ (ctx', none)
    → (m : ModuleName) → ctx'.fees m ≡ ctx.fees m
keeps_fees (Decorator.deduct_fee _ _ _ _ _) tx sim ctx ctx' other h m = absurd (other tt)
keeps_fees (Decorator.evm_mono _ _ _ _ _ _) tx sim ctx ctx' other h m = absurd (other tt)
keeps_fees (Decorator.sig_verification _ _) tx sim ctx ctx' other h m = ground arith
keeps_fees (Decorator.increment_sequence _) tx sim ctx ctx' other h m =
    ap (λ (r : Ctx × Option Error). r.0.fees m) (sym h)
keeps_fees _ tx sim ctx ctx' other h m = ap (λ (r : Ctx × Option Error). r.0.fees m) (sym h)

keeps_sequence :
    (d : Decorator Unit ℕ Unit) (ctx : Ctx) (tx : Option (Tx Body)) (sim : Bool)
    → ¬ IncrementsSequence d
    → (check d ctx tx sim).0.seq ≡ ctx.seq
keeps_sequence (Decorator.increment_sequence _) ctx tx sim other = absurd (other tt)
keeps_sequence (Decorator.evm_mono _ _ _ _ _ _) ctx tx sim other = absurd (other tt)
keeps_sequence (Decorator.sig_verification _ _) ctx tx sim other = ground arith
keeps_sequence (Decorator.deduct_fee _ _ _ _ _) ctx tx sim other = refl
keeps_sequence _ ctx tx sim other = refl

abbrev sequences : Sequences check
sequences = record { sequence = λ c. c.seq; others_keep = keeps_sequence }

abbrev ledger : FeeLedger check
ledger = record {
  collected = λ c. c.fees;
  fee = fee;
  others_keep = keeps_fees;
  deducts = λ a b g f r tx sim c c' h m. ap (λ (r : Ctx × Option Error). r.0.fees m) (sym h);
}

new_poa_evm_ante_handler-Routes_example :
    (r : Route) × Routes lib (some odd) r
    × ((r' : Route) → Routes lib (some odd) r' → r' ≡ r)
    × (new_poa_evm_ante_handler lib options start (some odd) false
        ≡ follow lib options r start (some odd) false)
new_poa_evm_ante_handler-Routes_example =
    new_poa_evm_ante_handler-Routes lib options start (some odd) false

sequence-new_poa_evm_ante_handler_example :
    ((new_poa_evm_ante_handler lib options start (some unsigned) false).1 ≢ none)
    × ((new_poa_evm_ante_handler lib options start (some unsigned) false).0.seq ≡ 0)
sequence-new_poa_evm_ante_handler_example =
    sequence-new_poa_evm_ante_handler laws sequences options start (some unsigned) false (λ p. cc)
      (λ c p. cc)
