-- ===== src/Modules.antt =====
-- app/app.go, the part of `NewApp` that lists the modules and orders their hooks, and
-- `InitChainer`.
pub mod Orders
pub mod Boot
pub mod Metadata
pub mod Sample
pub mod Chain
mod Tests
use mathlib.Core.Bool.{decide}
use sandbox_ledger.Base.{
  Bool, true, false, ◌||◌, Option, none, some, List, [], ◌∷◌, Error, Result, Outcome, returned,
  ◌>>=◌, ◌>>◌, or_panic,
}
use sandbox_ledger.Names.{
  ModuleName, genutil, auth, bank, consensus, gov, upgrade, poa, ibc, transfer, gmp, attestations,
  evm, feemarket, erc20, tokenfactory, ift, ModuleName-discrete,
}
use sandbox_ledger.Genesis.{GenesisLib, GenesisState}

-- The modules that `NewApp` gives to the module manager.
unfoldable pub registered_modules : List ModuleName
registered_modules =
    genutil ∷ auth ∷ bank ∷ consensus ∷ gov ∷ upgrade ∷ poa ∷ ibc ∷ transfer ∷ gmp ∷ attestations
    ∷ evm ∷ feemarket ∷ erc20 ∷ tokenfactory ∷ ift ∷ []

unfoldable pub pre_blocker_order : List ModuleName
pre_blocker_order = upgrade ∷ auth ∷ evm ∷ []

unfoldable pub begin_blocker_order : List ModuleName
begin_blocker_order =
    genutil ∷ poa ∷ ibc ∷ transfer ∷ erc20 ∷ feemarket ∷ evm ∷ bank ∷ gov ∷ consensus ∷ gmp
    ∷ tokenfactory ∷ ift ∷ []

unfoldable pub end_blocker_order : List ModuleName
end_blocker_order =
    genutil ∷ gov ∷ poa ∷ bank ∷ auth ∷ evm ∷ erc20 ∷ feemarket ∷ ibc ∷ transfer ∷ upgrade
    ∷ consensus ∷ gmp ∷ tokenfactory ∷ ift ∷ []

-- `genesisModuleOrder`, for the initial genesis and for its export.
unfoldable pub genesis_module_order : List ModuleName
genesis_module_order =
    auth ∷ bank ∷ gov ∷ poa ∷ ibc ∷ evm ∷ feemarket ∷ erc20 ∷ transfer ∷ genutil ∷ upgrade
    ∷ consensus ∷ tokenfactory ∷ gmp ∷ ift ∷ []

unfoldable pub listed : ModuleName → List ModuleName → Bool
unfolding ModuleName-discrete decide
listed m [] = false
listed m (n ∷ ns) = decide (ModuleName-discrete m n) || listed m ns

-- The orders that the module manager holds.
pub record HookOrders : Type 0 where
  pub pre_blockers : List ModuleName
  pub begin_blockers : List ModuleName
  pub end_blockers : List ModuleName
  pub init_genesis : List ModuleName
  pub export_genesis : List ModuleName

-- Which modules have a hook, and the manager's check, which panics at an order that forgets one.
pub record ManagerLib : Type 0 where
  pub has_begin_blocker : ModuleName → Bool
  pub has_end_blocker : ModuleName → Bool
  pub has_init_genesis : ModuleName → Bool
  pub has_export_genesis : ModuleName → Bool
  -- given the registered modules, which of them need an entry, and the order
  pub assert_no_forgotten_modules :
      List ModuleName → (ModuleName → Bool) → List ModuleName → Outcome (Unit {0})

-- The calls `SetOrderPreBlockers` to `SetOrderExportGenesis` of `NewApp`.
unfoldable pub set_module_orders : ManagerLib → Outcome HookOrders
set_module_orders l = do
  l.assert_no_forgotten_modules registered_modules l.has_begin_blocker begin_blocker_order
  l.assert_no_forgotten_modules registered_modules l.has_end_blocker end_blocker_order
  l.assert_no_forgotten_modules registered_modules l.has_init_genesis genesis_module_order
  l.assert_no_forgotten_modules registered_modules l.has_export_genesis genesis_module_order
  returned (record {
    pre_blockers = pre_blocker_order;
    begin_blockers = begin_blocker_order;
    end_blockers = end_blocker_order;
    init_genesis = genesis_module_order;
    export_genesis = genesis_module_order;
  })

-- What `InitChainer` calls: `State` is the context with the stores behind it.
pub record InitLib (l : GenesisLib) : Type 1 where
  pub Bytes : Type 0
  pub State : Type 0
  pub Response : Type 0
  -- `json.Unmarshal`
  pub unmarshal : Bytes → Result (GenesisState l)
  -- `UpgradeKeeper.SetModuleVersionMap` with the manager's versions
  pub set_module_version_map : State → Result State
  -- the module manager's `InitGenesis`, by its order
  pub init_genesis : List ModuleName → GenesisState l → State → Outcome (Result Response × State)

-- `InitChainer`
unfoldable pub init_chainer :
    {l : GenesisLib} (i : InitLib l) → i.Bytes → i.State → Outcome (Result i.Response × i.State)
init_chainer i app_state_bytes ctx = do
  genesis_state ← or_panic (i.unmarshal app_state_bytes)
  ctx' ← or_panic (i.set_module_version_map ctx)
  i.init_genesis genesis_module_order genesis_state ctx'
