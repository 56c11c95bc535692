-- ===== src/BaseSetup.antt =====
-- app/app.go, the first part of `NewApp`: the base application, its options, the keys of the stores
-- and the runner that executes the transactions of a block in parallel.
pub mod Laws
mod Tests
use sandbox_ledger.Base.{
  ℕ, String, Bool, true, false, Option, none, some, List, [], ◌∷◌, ◌++◌, if◌then◌else◌, leb,
}
use sandbox_ledger.Names.{
  auth, bank, consensus, gov, upgrade, poa, ibc, transfer, gmp, evm, feemarket, erc20, tokenfactory,
  ift, StoreKey, kv, object, transient,
}

-- An option of the base application: `baseapp.SetChainID`, `baseapp.SetOptimisticExecution`, or
-- another one.
pub data BaseOption : Type 0 where
  set_chain_id : String → BaseOption
  set_optimistic_execution : BaseOption
  other_option : String → BaseOption

-- `txnrunner.NewSTMRunner`, without the decoder.
pub record StmRunner : Type 0 where
  pub stores : List StoreKey
  pub workers : ℕ
  pub estimate : Bool

-- The methods of the base application that `NewApp` calls on what it makes of the codecs.
pub data Setter : Type 0 where
  set_version set_interface_registry set_tx_encoder : Setter

-- `appName`
abbrev pub app_name : String
app_name = "sandboxd"

-- The base application in front of the keepers.
pub record BaseSetup : Type 0 where
  pub name : String
  -- the options, in the order in which `NewBaseApp` applies them
  pub options : List BaseOption
  pub setters : List Setter
  pub stm_runner : Option StmRunner
  pub block_gas_meter_disabled : Bool

-- What `NewApp` finds of the machine, and the order in which Go ranges over a map of keys.
pub record Machine : Type 0 where
  pub range_keys : List StoreKey → List StoreKey
  pub gomaxprocs : ℕ
  pub num_cpu : ℕ

-- `storetypes.NewKVStoreKeys(…)` of `NewApp`.
unfoldable pub keys : List StoreKey
keys =
    kv auth
    ∷ kv bank
    ∷ kv consensus
    ∷ kv gov
    ∷ kv upgrade
    ∷ kv poa
    ∷ kv ibc
    ∷ kv transfer
    ∷ kv gmp
    ∷ kv evm
    ∷ kv feemarket
    ∷ kv erc20
    ∷ kv tokenfactory
    ∷ kv ift
    ∷ []

unfoldable pub o_keys : List StoreKey
o_keys = object bank ∷ object evm ∷ []

unfoldable pub transient_keys : List StoreKey
transient_keys = transient poa ∷ []

-- `nonTransientKeys`, by the two loops
unfoldable pub non_transient_keys : Machine → List StoreKey
non_transient_keys m = m.range_keys keys ++ m.range_keys o_keys

-- `min(goruntime.GOMAXPROCS(0), goruntime.NumCPU())`
unfoldable pub stm_workers : Machine → ℕ
stm_workers m = if leb m.gomaxprocs m.num_cpu then m.gomaxprocs else m.num_cpu

-- `baseapp.NewBaseApp`, with optimistic execution behind the caller's options
unfoldable pub new_base_app : List BaseOption → BaseSetup
new_base_app base_app_options = record {
  name = app_name;
  options = base_app_options ++ set_optimistic_execution ∷ [];
  setters = [];
  stm_runner = none;
  block_gas_meter_disabled = false;
}

-- The base application as `NewApp` has it when it registers the state streaming.
unfoldable pub set_up_base : Machine → List BaseOption → BaseSetup
unfolding new_base_app
set_up_base m base_app_options =
    let base = new_base_app base_app_options in
    let base : BaseSetup = record base {
      setters = base.setters ++ set_version ∷ set_interface_registry ∷ set_tx_encoder ∷ [];
    } in
    let runner : StmRunner = record {
      stores = non_transient_keys m;
      workers = stm_workers m;
      estimate = true;
    } in
    let base : BaseSetup = record base { stm_runner = some runner } in
    record base { block_gas_meter_disabled = true }
