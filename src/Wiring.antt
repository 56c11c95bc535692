-- ===== src/Wiring.antt =====
-- app/app.go, `SandboxApp` and `NewApp`: the application as a record whose fields `NewApp` fills one
-- after the other. A keeper is described by the stores that it is given, the authority that may
-- change its parameters, and the other keepers that it is given: by value, which captures what the
-- field holds at that moment, or by the address of the field, which sees what is put there later.
pub mod Keepers
pub mod Handlers
pub mod Build
pub mod Accessors
pub mod Keys
pub mod Answers
pub mod Complete
pub mod Final
pub mod Dependencies
pub mod Stores
pub mod Routes
pub mod Settings
pub mod Accounts
pub mod Serving
pub mod Boots
pub mod BaseApp
pub mod Failing
pub mod Exits
pub mod Sample
mod Tests
use mathlib.Core.Option
use sandbox_ledger.Base.{
  ℕ, String, Bool, true, false, Option, none, some, List, [], ◌∷◌, ◌++◌, Error,
}
use sandbox_ledger.Base.Int.{ℤ}
use sandbox_ledger.Names.{
  ModuleName, auth, bank, consensus, gov, upgrade, poa, ibc, transfer, gmp, evm, feemarket, erc20,
  tokenfactory, ift, StoreKey, kv, object, transient,
}
use sandbox_ledger.BaseSetup.{BaseSetup, keys}
use sandbox_ledger.Accounts.{AccountName, Permission, AddressSet}
use sandbox_ledger.Modules.{HookOrders}
use sandbox_ledger.Ante.{HandlerOptions}

-- What `evmencoding.MakeConfig` makes for an EVM chain id: its codec, its amino codec and its
-- registry of interfaces.
pub data Encoding : Type 0 where
  codec_for amino_for registry_for : ℕ → Encoding

-- A transaction configuration: that of the encoding configuration, or one with the textual sign
-- mode, which reads the metadata of coins from the bank keeper that it captured.
pub data TxConfig : Type 0 where
  of_encoding : TxConfig
  with_textual : Option (Option StoreKey) → TxConfig

-- What a call is given for a keeper. The captured value of a field is `none` for nil, and otherwise
-- the object store of the keeper in it.
pub data Ref : Type 0 where
  value : ModuleName → Option (Option StoreKey) → Ref
  address : ModuleName → Ref
  -- `poaStakingKeeper`, over the POA keeper that it captured
  staking_adapter : Option (Option StoreKey) → Ref
  -- the literal `nil` that gov is given for its staking keeper
  no_staking_keeper : Ref
  -- the sign mode handler of a transaction configuration
  sign_modes : TxConfig → Ref
  -- a function or handler that is no keeper
  callable : String → Ref

pub record Keeper : Type 0 where
  pub stores : List StoreKey
  pub object_store : Option StoreKey
  pub authority : Option ModuleName
  pub deps : List Ref

-- The static precompiles that the EVM keeper is given, with the keepers behind them.
pub data Precompile : Type 0 where
  prague p256 bech32 : Precompile
  ics02 : Ref → Precompile
  bank_precompile : Ref → Ref → Precompile
  gov_precompile : Ref → Ref → Precompile

-- A stack of IBC v2 modules, the outermost first.
pub data IbcModule : Type 0 where
  transfer_v2 : Ref → IbcModule
  erc20_v2 : IbcModule → Ref → IbcModule
  gmp_module : Ref → IbcModule
  -- the module below, the acknowledgement writer, the contract keeper, the channel keeper, and the
  -- limit of gas
  callbacks_v2 : IbcModule → Ref → Ref → Ref → ℕ → IbcModule

-- The name under which a stack is routed: a module's name, or its port.
pub data Port : Type 0 where
  module_name port_id : ModuleName → Port

pub data Hook : Type 0 where
  init_chainer pre_blocker begin_blocker end_blocker ante_handler post_handler : Hook

-- `SandboxApp`, with what `NewApp` sets on the base application and on the objects that the
-- application points to.
pub record App : Type 0 where
  -- the keys of the KV stores, by their names
  pub keys : List StoreKey
  pub app_codec : Encoding
  pub legacy_amino : Encoding
  pub interface_registry : Encoding
  pub tx_config : TxConfig
  -- the codec of the configurator
  pub configurator : Option Encoding
  -- what the base application reads the consensus parameters from
  pub param_store : Option Ref
  -- the heights that the upgrade keeper is given to skip: a missing key reads as `false`
  pub skip_upgrade_heights : Option (ℤ → Bool)
  -- the chain id that the EVM keeper is given
  pub evm_chain_id : Option ℕ
  -- the module accounts that the account keeper is given, with what each may do
  pub account_perms : List (AccountName × List Permission)
  -- the addresses that the bank keeper is given to block, by the addresses of the module accounts
  -- and the order in which Go ranges over their names
  pub blocked_addrs : (AccountName → String) → List AccountName → AddressSet
  pub account_keeper : Option Keeper
  pub bank_keeper : Option Keeper
  pub consensus_params_keeper : Option Keeper
  pub gov_keeper : Option Keeper
  pub upgrade_keeper : Option Keeper
  pub poa_keeper : Option Keeper
  pub ibc_keeper : Option Keeper
  pub transfer_keeper : Option Keeper
  pub gmp_keeper : Option Keeper
  pub token_factory_keeper : Option Keeper
  pub ift_keeper : Option Keeper
  pub fee_market_keeper : Option Keeper
  pub evm_keeper : Option Keeper
  pub erc20_keeper : Option Keeper
  pub gov_hooks : List Ref
  pub static_precompiles : List Precompile
  pub virtual_fee_collection : Bool
  -- the routes of the v1 router that the IBC keeper holds
  pub router_v1 : Option (List Port)
  -- the router object that `NewApp` makes, and whether the IBC keeper points to it
  pub router_v2 : List (Port × IbcModule)
  pub router_v2_set : Bool
  pub light_clients : List ModuleName
  pub modules : List (ModuleName × List Ref)
  pub orders : Option HookOrders
  pub mounted : List StoreKey
  pub hooks : List Hook
  pub ante_options : Option (HandlerOptions Ref)
  -- the SDK's global `ante.FeeRecipientModule`
  pub fee_recipient_module : Option ModuleName
  -- the keys of the stores that the EVM keeper is given beside its own
  pub evm_store_keys : List StoreKey
  -- the base application in front of the keepers
  pub base : BaseSetup
  pub loaded : Bool
  -- the errors that `NewApp` writes to the standard error and goes on
  pub printed : List Error

-- The application before its keepers, for an EVM chain id and over its base application.
abbrev pub empty_app : ℕ → BaseSetup → App
empty_app evm_chain_id base = record {
  keys = keys;
  app_codec = codec_for evm_chain_id;
  legacy_amino = amino_for evm_chain_id;
  interface_registry = registry_for evm_chain_id;
  tx_config = of_encoding;
  configurator = none;
  param_store = none;
  skip_upgrade_heights = none;
  evm_chain_id = none;
  account_perms = [];
  blocked_addrs = λ address order a. false;
  account_keeper = none;
  bank_keeper = none;
  consensus_params_keeper = none;
  gov_keeper = none;
  upgrade_keeper = none;
  poa_keeper = none;
  ibc_keeper = none;
  transfer_keeper = none;
  gmp_keeper = none;
  token_factory_keeper = none;
  ift_keeper = none;
  fee_market_keeper = none;
  evm_keeper = none;
  erc20_keeper = none;
  gov_hooks = [];
  static_precompiles = [];
  virtual_fee_collection = false;
  router_v1 = none;
  router_v2 = [];
  router_v2_set = false;
  light_clients = [];
  modules = [];
  orders = none;
  mounted = [];
  hooks = [];
  ante_options = none;
  fee_recipient_module = none;
  evm_store_keys = [];
  base = base;
  loaded = false;
  printed = [];
}

-- The keeper of a module.
abbrev pub keeper_of : ModuleName → App → Option Keeper
keeper_of auth app = app.account_keeper
keeper_of bank app = app.bank_keeper
keeper_of consensus app = app.consensus_params_keeper
keeper_of gov app = app.gov_keeper
keeper_of upgrade app = app.upgrade_keeper
keeper_of poa app = app.poa_keeper
keeper_of ibc app = app.ibc_keeper
keeper_of transfer app = app.transfer_keeper
keeper_of gmp app = app.gmp_keeper
keeper_of tokenfactory app = app.token_factory_keeper
keeper_of ift app = app.ift_keeper
keeper_of feemarket app = app.fee_market_keeper
keeper_of evm app = app.evm_keeper
keeper_of erc20 app = app.erc20_keeper
keeper_of _ app = none

abbrev pub capture : Option Keeper → Option (Option StoreKey)
capture none = none
capture (some k) = some k.object_store

-- `app.XKeeper`, passed on as a value, also where a field of that keeper is passed on.
abbrev pub by_value : ModuleName → App → Ref
by_value m app = value m (capture (keeper_of m app))
