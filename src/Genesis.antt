-- ===== src/Genesis.antt =====
-- app/genesis.go, and `DefaultGenesis` of app/app.go: the genesis that `sandboxd init` writes and
-- the one that the application returns.
pub mod Denom
pub mod Defaults
pub mod Precompiles
pub mod Sample
mod Tests
use Prim.Native.String.{◌++◌ as append}
use mathlib.Core.Logic.{ite}
use sandbox_ledger.Base.{
  ℕ, String, Option, none, some, List, [], ◌∷◌, ◌++◌, Outcome, returned, ◌>>=◌,
}
use sandbox_ledger.Names.{ModuleName, genutil, gov, transfer, bank, evm, ModuleName-discrete}

-- `banktypes.DenomUnit`
pub record DenomUnit : Type 0 where
  pub denom : String
  pub exponent : ℕ

-- `banktypes.Metadata`
pub record Metadata : Type 0 where
  pub description : String
  pub base : String
  pub display : String
  pub name : String
  pub symbol : String
  pub denom_units : List DenomUnit

-- `banktypes.GenesisState`: the metadata, and the rest.
pub record BankGenesis (Rest : Type 0) : Type 0 where
  pub denom_metadata : List Metadata
  pub rest : Rest

-- `evmtypes.Params`: the fields that the source reads or writes, and the rest.
pub record EvmParams (Rest : Type 0) : Type 0 where
  pub evm_denom : String
  pub active_static_precompiles : List String
  pub rest : Rest

-- `evmtypes.GenesisState`
pub record EvmGenesis (Rest Preinstall Accounts : Type 0) : Type 0 where
  pub params : EvmParams Rest
  pub preinstalls : List Preinstall
  pub accounts : Accounts

-- The addresses of the static precompiles that cosmos/evm defines.
pub record PrecompileAddresses : Type 0 where
  pub p256 : String
  pub bech32 : String
  pub bank : String
  pub gov : String
  pub ics02 : String
  pub staking : String
  pub distribution : String
  pub slashing : String
  pub vesting : String
  pub ics20 : String

-- The values and calls that the source takes from other packages. `Raw` is `json.RawMessage`.
pub record GenesisLib : Type 1 where
  pub Raw : Type 0
  pub BankRest : Type 0
  pub EvmRest : Type 0
  pub Preinstall : Type 0
  pub Accounts : Type 0
  pub addresses : PrecompileAddresses
  -- of evmtypes
  pub default_genesis_state : EvmGenesis EvmRest Preinstall Accounts
  pub default_params : EvmParams EvmRest
  pub default_preinstalls : List Preinstall
  -- of the codec; to unmarshal may panic
  pub must_marshal_bank : BankGenesis BankRest → Raw
  pub must_unmarshal_bank : Raw → Outcome (BankGenesis BankRest)
  pub must_marshal_evm : EvmGenesis EvmRest Preinstall Accounts → Raw
  -- the value of a key that a genesis map lacks
  pub nil_raw : Raw
  -- `DefaultGenesis` of the basic modules of bank, genutil, gov and transfer
  pub bank_default_genesis : Outcome Raw
  pub genutil_default_genesis : Outcome Raw
  pub gov_default_genesis : Outcome Raw
  pub transfer_default_genesis : Outcome Raw
  -- `DefaultGenesis` of the manager that `NewBasicManagerFromManager` makes, by what it is told to
  -- use in place of a module's own
  pub basic_manager_default_genesis :
      (ModuleName → Option (Outcome Raw)) → Outcome (ModuleName → Option Raw)

unfoldable pub append_display : String → String
append_display evm_denom = append evm_denom "-display"

-- `EVMBankDenomMetadata`
unfoldable pub evm_bank_denom_metadata : String → Metadata
unfolding append_display
evm_bank_denom_metadata evm_denom =
    let display_denom = append_display evm_denom in
    record {
      description = "Native 18-decimal denom metadata for the sandbox EVM chain";
      base = evm_denom;
      display = display_denom;
      name = "Sandbox";
      symbol = "SBX";
      denom_units =
          record { denom = evm_denom; exponent = 0 }
          ∷ record { denom = display_denom; exponent = 18 }
          ∷ [];
    }

-- `ActivePrecompiles`
unfoldable pub active_precompiles : PrecompileAddresses → List String
active_precompiles a = a.p256 ∷ a.bech32 ∷ a.bank ∷ a.gov ∷ a.ics02 ∷ []

module _ (l : GenesisLib) where
  open l use {Raw, BankRest, EvmRest, Preinstall, Accounts}

  -- `GenesisState`, a map from module names.
  abbrev pub GenesisState : Type 0
  GenesisState = ModuleName → Option Raw

  -- `genesis[name]`, read and written.
  unfoldable pub read : GenesisState → ModuleName → Raw
  read genesis name = elim (genesis name) [ none ↦ l.nil_raw | some raw ↦ raw ]

  unfoldable pub write : ModuleName → Raw → GenesisState → GenesisState
  write name raw genesis m = ite (ModuleName-discrete m name) (some raw) (genesis m)

  abbrev pub add_metadata : Metadata → BankGenesis BankRest → BankGenesis BankRest
  add_metadata metadata gs = record gs { denom_metadata = gs.denom_metadata ++ metadata ∷ [] }

  -- `NewEVMGenesisState`
  unfoldable pub new_evm_genesis_state : EvmGenesis EvmRest Preinstall Accounts
  unfolding active_precompiles
  new_evm_genesis_state =
      let gen = l.default_genesis_state in
      record gen {
        params = record gen.params { active_static_precompiles = active_precompiles l.addresses };
        preinstalls = l.default_preinstalls;
      }

  -- `bankBasicWithEVMDenomMetadata.DefaultGenesis`
  unfoldable pub bank_basic_default_genesis : Outcome Raw
  bank_basic_default_genesis = do
    raw ← l.bank_default_genesis
    gs ← l.must_unmarshal_bank raw
    returned
        (l.must_marshal_bank (add_metadata (evm_bank_denom_metadata l.default_params.evm_denom) gs))

  -- The modules for which `NewApp` gives the basic manager another basic module.
  unfoldable pub basic_overrides : ModuleName → Option (Outcome Raw)
  unfolding bank_basic_default_genesis
  basic_overrides genutil = some l.genutil_default_genesis
  basic_overrides gov = some l.gov_default_genesis
  basic_overrides transfer = some l.transfer_default_genesis
  basic_overrides bank = some bank_basic_default_genesis
  basic_overrides _ = none

  -- The genesis that `sandboxd init` writes: the basic manager's.
  unfoldable pub init_genesis_state : Outcome GenesisState
  init_genesis_state = l.basic_manager_default_genesis basic_overrides

  -- `SandboxApp.DefaultGenesis`
  unfoldable pub default_genesis : Outcome GenesisState
  default_genesis = do
    basics ← init_genesis_state
    let evm_gen_state = new_evm_genesis_state
    let genesis = write evm (l.must_marshal_evm evm_gen_state) basics
    bank_gen ← l.must_unmarshal_bank (read genesis bank)
    let metadata = evm_bank_denom_metadata evm_gen_state.params.evm_denom
    returned (write bank (l.must_marshal_bank (add_metadata metadata bank_gen)) genesis)
