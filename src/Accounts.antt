-- ===== src/Accounts.antt =====
-- app/app.go, `maccPerms` and `blockedAddresses`: the module accounts, what each may do, and the
-- addresses that may not receive coins.
pub mod Blocked
mod Tests
use sandbox_ledger.Base.{
  String, Bool, true, false, Option, none, some, List, [], ◌∷◌, map, if◌then◌else◌, ◌==◌,
}
use sandbox_ledger.Names.{
  ModuleName, gov, poa, transfer, evm, feemarket, erc20, tokenfactory, gmp, ift,
}

pub data Permission : Type 0 where
  minter burner : Permission

-- The name of a module account: `authtypes.FeeCollectorName` or a module's name.
pub data AccountName : Type 0 where
  fee_collector : AccountName
  of_module : ModuleName → AccountName

-- `maccPerms`
abbrev pub macc_perms : List (AccountName × List Permission)
macc_perms =
    (fee_collector, [])
    ∷ (of_module gov, burner ∷ [])
    ∷ (of_module poa, [])
    ∷ (of_module transfer, minter ∷ burner ∷ [])
    ∷ (of_module evm, minter ∷ burner ∷ [])
    ∷ (of_module feemarket, [])
    ∷ (of_module erc20, minter ∷ burner ∷ [])
    ∷ (of_module tokenfactory, minter ∷ burner ∷ [])
    ∷ (of_module gmp, [])
    ∷ (of_module ift, [])
    ∷ []

-- A map from addresses to `true`; a missing key reads as `false`.
abbrev pub AddressSet : Type 0
AddressSet = String → Bool

-- The loop of `blockedAddresses` over the names in `order`. `address` is
-- `authtypes.NewModuleAddress(acc).String()`.
unfoldable pub block_all : (AccountName → String) → List AccountName → AddressSet → AddressSet
block_all address [] blocked = blocked
block_all address (acc ∷ order) blocked =
    block_all address order (λ a. if address acc == a then true else blocked a)

-- `blockedAddresses`, with the order in which Go ranges over the map.
unfoldable pub blocked_addresses : (AccountName → String) → List AccountName → AddressSet
unfolding block_all
blocked_addresses address order = block_all address order (λ _. false)
