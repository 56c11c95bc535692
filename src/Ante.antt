-- ===== src/Ante.antt =====
-- app/ante.go: the handler that every transaction passes before it runs, and its two chains of
-- decorators.
pub mod Chain
pub mod Routing
pub mod Fees
pub mod Sequence
pub mod Replay
pub mod Counts
pub mod Guards
mod Tests
use sandbox_ledger.Base.{
  ℕ, String, Bool, true, false, Option, none, some, List, [], ◌∷◌, Error, unknown_extension_options,
  unknown_request, if◌then◌else◌, ◌==◌,
}
use sandbox_ledger.Names.{ModuleName, poa}

-- A transaction. `none` stands for one whose type is no `ante.HasExtensionOptionsTx`; otherwise
-- the list holds the type URLs of its extension options.
pub record Tx (Body : Type 0) : Type 0 where
  pub extension_options : Option (List String)
  pub body : Body

-- `evmantelib.HandlerOptions`, over references `K` to keepers and functions.
pub record HandlerOptions (K : Type 0) : Type 0 where
  pub cdc : Option K
  pub account_keeper : Option K
  pub bank_keeper : Option K
  pub ibc_keeper : Option K
  pub fee_market_keeper : Option K
  pub evm_keeper : Option K
  pub feegrant_keeper : Option K
  pub extension_option_checker : Option K
  pub sign_mode_handler : Option K
  pub sig_gas_consumer : Option K
  pub max_tx_gas_wanted : ℕ
  pub dynamic_fee_checker : Bool
  pub pending_tx_listener : Option K

-- The decorators of the two chains, each with the arguments of its constructor. The decorators
-- are code of cosmos-sdk, cosmos/evm and ibc-go. `F` and `V` are the parameters of the fee market
-- and of the EVM.
pub data Decorator (K F V : Type 0) : Type 0 where
  evm_mono : Option K → Option K → Option K → ℕ → V → F → Decorator K F V
  tx_listener : Option K → Decorator K F V
  reject_messages : Decorator K F V
  -- the two type URLs that may not stand inside an authorisation
  authz_limiter : String → String → Decorator K F V
  set_up_context : Decorator K F V
  extension_options : Option K → Decorator K F V
  validate_basic : Decorator K F V
  tx_timeout_height : Decorator K F V
  validate_memo : Option K → Decorator K F V
  min_gas_price : F → Decorator K F V
  consume_gas_for_tx_size : Option K → Decorator K F V
  -- accounts, bank, fee grants, the dynamic fee checker's parameters, and the recipient that
  -- `WithFeeRecipientModule` sets
  deduct_fee : Option K → Option K → Option K → Option F → ModuleName → Decorator K F V
  set_pub_key : Option K → Decorator K F V
  validate_sig_count : Option K → Decorator K F V
  sig_gas_consume : Option K → Option K → Decorator K F V
  sig_verification : Option K → Option K → Decorator K F V
  increment_sequence : Option K → Decorator K F V
  redundant_relay : Option K → Decorator K F V

-- `sdk.AnteHandler`: the context to go on with, and an error.
abbrev pub AnteHandler : Type 0 → Type 0 → Type 0
AnteHandler C B = C → Option (Tx B) → Bool → C × Option Error

-- The calls that the handler makes of other packages, over the contexts `C`.
pub record AnteLib (K F V C B : Type 0) : Type 0 where
  -- `"/" + proto.MessageName(...)` of the two extension options
  pub ethereum_tx_url : String
  pub dynamic_fee_tx_url : String
  -- `sdk.MsgTypeURL` of `MsgEthereumTx` and `MsgCreateVestingAccount`
  pub msg_ethereum_tx_url : String
  pub msg_create_vesting_account_url : String
  -- `EvmKeeper.GetParams` and `FeeMarketKeeper.GetParams`
  pub evm_params : Option K → C → V
  pub fee_market_params : Option K → C → F
  -- a decorator's `AnteHandle`, given the handler of what follows it
  pub ante_handle : Decorator K F V → AnteHandler C B → AnteHandler C B
  -- `sdk.ChainAnteDecorators`
  pub chain_ante_decorators : List (Decorator K F V) → AnteHandler C B

-- `opts[0].GetTypeUrl()`, where there is one.
abbrev pub first_extension : {B : Type 0} → Option (Tx B) → Option String
first_extension none = none
first_extension (some tx) = elim tx.extension_options [
  | none ↦ none
  | some [] ↦ none
  | some (type_url ∷ _) ↦ some type_url
]

module _ {K F V C B : Type 0} (l : AnteLib K F V C B) where
  -- The decorators of `newEVMAnteHandler`.
  unfoldable pub evm_decorators : C → HandlerOptions K → List (Decorator K F V)
  evm_decorators ctx o =
      evm_mono o.account_keeper o.fee_market_keeper o.evm_keeper o.max_tx_gas_wanted
        (l.evm_params o.evm_keeper ctx) (l.fee_market_params o.fee_market_keeper ctx)
      ∷ tx_listener o.pending_tx_listener
      ∷ []

  unfoldable pub new_evm_ante_handler : C → HandlerOptions K → AnteHandler C B
  new_evm_ante_handler ctx o = l.chain_ante_decorators (evm_decorators ctx o)

  -- The decorators of `newPOACosmosAnteHandler`.
  unfoldable pub cosmos_decorators : C → HandlerOptions K → List (Decorator K F V)
  cosmos_decorators ctx o =
      let feemarket_params = l.fee_market_params o.fee_market_keeper ctx in
      let tx_fee_checker : Option F =
        if o.dynamic_fee_checker then some feemarket_params else none in
      reject_messages
      ∷ authz_limiter l.msg_ethereum_tx_url l.msg_create_vesting_account_url
      ∷ set_up_context
      ∷ extension_options o.extension_option_checker
      ∷ validate_basic
      ∷ tx_timeout_height
      ∷ validate_memo o.account_keeper
      ∷ min_gas_price feemarket_params
      ∷ consume_gas_for_tx_size o.account_keeper
      ∷ deduct_fee o.account_keeper o.bank_keeper o.feegrant_keeper tx_fee_checker poa
      ∷ set_pub_key o.account_keeper
      ∷ validate_sig_count o.account_keeper
      ∷ sig_gas_consume o.account_keeper o.sig_gas_consumer
      ∷ sig_verification o.account_keeper o.sign_mode_handler
      ∷ increment_sequence o.account_keeper
      ∷ redundant_relay o.ibc_keeper
      ∷ []

  unfoldable pub new_poa_cosmos_ante_handler : C → HandlerOptions K → AnteHandler C B
  new_poa_cosmos_ante_handler ctx o = l.chain_ante_decorators (cosmos_decorators ctx o)

  -- The `switch` on the type URL of the first extension option.
  unfoldable pub by_extension : HandlerOptions K → String → AnteHandler C B
  by_extension o type_url ctx tx sim =
      if type_url == l.ethereum_tx_url
      then new_evm_ante_handler ctx o ctx tx sim
      else if type_url == l.dynamic_fee_tx_url
      then new_poa_cosmos_ante_handler ctx o ctx tx sim
      else (ctx, some (unknown_extension_options type_url))

  -- The `switch` on the transaction's type: only a nil interface is no `sdk.Tx`.
  unfoldable pub by_type : HandlerOptions K → AnteHandler C B
  by_type o ctx none sim = (ctx, some unknown_request)
  by_type o ctx (some tx) sim = new_poa_cosmos_ante_handler ctx o ctx (some tx) sim

  -- The function that `NewPOAEVMAnteHandler` returns.
  unfoldable pub new_poa_evm_ante_handler : HandlerOptions K → AnteHandler C B
  unfolding by_extension by_type
  new_poa_evm_ante_handler o ctx tx sim = elim (first_extension tx) [
    | some type_url ↦ by_extension o type_url ctx tx sim
    | none ↦ by_type o ctx tx sim
  ]
