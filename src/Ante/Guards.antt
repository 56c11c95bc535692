-- ===== src/Ante/Guards.antt =====
-- What no Cosmos transaction that the handler accepts contains, and what each has.
mod Tests
use sandbox_ledger.Base.{◌≡◌, ◌≤◌, ℕ, String, false, Bool, Option, none, some, List, arith}
use sandbox_ledger.Base.Lists.{In}
use sandbox_ledger.Ante.{Tx, HandlerOptions, Decorator, AnteLib}
use sandbox_ledger.Ante.Chain.{ChainLaws}

-- What cosmos-sdk and cosmos/evm document of five decorators, outside of a simulation: what each
-- asks of the transactions that it accepts, in whatever context.
pub record GuardLaws {K F V C B : Type 0} {l : AnteLib K F V C B} (laws : ChainLaws l)
    : Type 1 where
  -- the type URLs of a transaction's messages, and of those within authorisations
  pub message_urls : Tx B → List String
  pub authorised_urls : Tx B → List String
  -- each message is valid in itself
  pub IsBasic : Tx B → Type 0
  -- the checker of extension options admits those of the transaction
  pub HasExtensions : Option K → Tx B → Type 0
  -- the fee that the fee market's parameters ask for, and the one that is offered
  pub required : F → Tx B → ℕ
  pub offered : Tx B → ℕ
  pub rejects :
      (tx : Tx B) (ctx ctx' : C)
      → laws.check Decorator.reject_messages ctx (some tx) false ≡ (ctx', none)
      → ¬ In l.msg_ethereum_tx_url (message_urls tx)
  pub limits :
      (a b : String) (tx : Tx B) (ctx ctx' : C)
      → laws.check (Decorator.authz_limiter a b) ctx (some tx) false ≡ (ctx', none)
      → (¬ In a (authorised_urls tx)) × (¬ In b (authorised_urls tx))
  pub admits :
      (checker : Option K) (tx : Tx B) (ctx ctx' : C)
      → laws.check (Decorator.extension_options checker) ctx (some tx) false ≡ (ctx', none)
      → HasExtensions checker tx
  pub validates :
      (tx : Tx B) (ctx ctx' : C)
      → laws.check Decorator.validate_basic ctx (some tx) false ≡ (ctx', none)
      → IsBasic tx
  pub asks :
      (params : F) (tx : Tx B) (ctx ctx' : C)
      → laws.check (Decorator.min_gas_price params) ctx (some tx) false ≡ (ctx', none)
      → required params tx ≤ offered tx

module _ {K F V C B : Type 0} {l : AnteLib K F V C B} {laws : ChainLaws l}
    (guards : GuardLaws laws) where
  open guards use {message_urls, authorised_urls, IsBasic, HasExtensions, required, offered}

  pub record Guarded (o : HandlerOptions K) (ctx : C) (tx : Tx B) : Type 0 where
    pub no_ethereum : ¬ In l.msg_ethereum_tx_url (message_urls tx)
    pub none_authorised : ¬ In l.msg_ethereum_tx_url (authorised_urls tx)
    pub no_vesting : ¬ In l.msg_create_vesting_account_url (authorised_urls tx)
    pub extensions : HasExtensions o.extension_option_checker tx
    pub basic : IsBasic tx
    pub pays : required (l.fee_market_params o.fee_market_keeper ctx) tx ≤ offered tx
