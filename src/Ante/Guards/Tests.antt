-- ===== src/Ante/Guards/Tests.antt =====
-- Decorators that look at the messages and the fee of a transaction.
use sandbox_ledger.Base.{
  ◌≡◌, refl, ℕ, zero, suc, String, Bool, true, false, Option, none, some, List, [], ◌∷◌, Error,
  foreign, ◌==◌, ◌||◌,
}
use sandbox_ledger.Base.Lists.{any}
use sandbox_ledger.Ante.{
  Tx, HandlerOptions, Decorator, AnteLib, AnteHandler, new_poa_evm_ante_handler,
  new_poa_cosmos_ante_handler, by_type, cosmos_decorators,
}
use sandbox_ledger.Ante.Chain.{Check, ChainLaws, nest, hand_on}

-- The type URLs of the messages and of those within authorisations, and the fee.
record Body : Type 0 where
  urls : List String
  inner : List String
  fee : ℕ

abbrev refuse_if : Bool → Unit {0} × Option Error
refuse_if true = (tt, some (foreign "refused"))
refuse_if false = (tt, none)

abbrev contains : String → List String → Bool
contains a xs = any (λ x. a == x) xs

abbrev is_less : ℕ → ℕ → Bool
is_less zero zero = false
is_less zero (suc b) = true
is_less (suc a) zero = false
is_less (suc a) (suc b) = is_less a b

abbrev is_none : Option (Unit {0}) → Bool
is_none none = true
is_none (some _) = false

abbrev is_nil : List String → Bool
is_nil [] = true
is_nil (_ ∷ _) = false

abbrev asked : Decorator (Unit {0}) ℕ (Unit {0}) → Tx Body → Bool
asked Decorator.reject_messages tx = contains "/msg.ethereum" tx.body.urls
asked (Decorator.authz_limiter a b) tx = contains a tx.body.inner || contains b tx.body.inner
asked (Decorator.extension_options checker) tx = is_none checker
asked Decorator.validate_basic tx = is_nil tx.body.urls
asked (Decorator.min_gas_price floor) tx = is_less tx.body.fee floor
asked _ tx = false

abbrev check : Check (Unit {0}) ℕ (Unit {0}) (Unit {0}) Body
check d ctx none sim = (ctx, none)
check d ctx (some tx) sim = refuse_if (asked d tx)

abbrev handle :
    Decorator (Unit {0}) ℕ (Unit {0}) → AnteHandler (Unit {0}) Body → AnteHandler (Unit {0}) Body
handle d next ctx tx sim = hand_on (check d ctx tx sim) next ctx tx sim

abbrev lib : AnteLib (Unit {0}) ℕ (Unit {0}) (Unit {0}) Body
lib = record {
  ethereum_tx_url = "/ethereum";
  dynamic_fee_tx_url = "/dynamic";
  msg_ethereum_tx_url = "/msg.ethereum";
  msg_create_vesting_account_url = "/msg.vesting";
  evm_params = λ _ _. tt;
  fee_market_params = λ _ _. 2;
  ante_handle = handle;
  chain_ante_decorators = nest handle;
}

abbrev laws : ChainLaws lib
laws = record {
  check = check;
  handles = λ d next ctx tx sim. refl;
  chains = λ d ds ctx tx sim. refl;
}

abbrev options : HandlerOptions (Unit {0})
options = record {
  cdc = some tt;
  account_keeper = some tt;
  bank_keeper = some tt;
  ibc_keeper = some tt;
  fee_market_keeper = some tt;
  evm_keeper = some tt;
  feegrant_keeper = none;
  extension_option_checker = some tt;
  sign_mode_handler = some tt;
  sig_gas_consumer = some tt;
  max_tx_gas_wanted = 0;
  dynamic_fee_checker = true;
  pending_tx_listener = some tt;
}

abbrev transfer : Tx Body
transfer = record {
  extension_options = none;
  body = record { urls = "/msg.send" ∷ "/msg.exec" ∷ []; inner = "/msg.send" ∷ []; fee = 3 };
}

-- The same with an Ethereum message within an authorisation.
abbrev hidden : Tx Body
hidden = record {
  extension_options = none;
  body = record { urls = "/msg.exec" ∷ []; inner = "/msg.ethereum" ∷ []; fee = 3 };
}

refuses_hidden :
    new_poa_evm_ante_handler lib options tt (some hidden) false ≡ (tt, some (foreign "refused"))
unfolding new_poa_evm_ante_handler by_type new_poa_cosmos_ante_handler cosmos_decorators
refuses_hidden = refl
