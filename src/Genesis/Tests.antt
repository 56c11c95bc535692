-- ===== src/Genesis/Tests.antt =====
-- A small codec with the genesis theorems at it.
use Prim.Native.String.{count}
use text.Mathlib.TextLemmas.{length-append}
use sandbox_ledger.Base.{
  ◌≤◌, String, ◌≡◌, refl, ◌≢◌, Bool, false, true, some, List, [], ◌∷◌, ◌++◌, not, ◌&&◌, ◌==◌,
  returned, arith, eq_iff,
}
use sandbox_ledger.Base.Lists.{All, all}
use sandbox_ledger.Names.{bank, evm, gov}
use sandbox_ledger.Genesis.{
  GenesisState, read, evm_bank_denom_metadata, default_genesis, new_evm_genesis_state,
}
use sandbox_ledger.Genesis.Denom.{
  DenomRules, IsBankMetadata, decimals, evm_bank_denom_metadata-IsBankMetadata,
}
use sandbox_ledger.Genesis.Precompiles.{
  contains, included, excluded, Distinct, new_evm_genesis_state-precompiles,
}
use sandbox_ledger.Genesis.Defaults.{
  UniqueBases, init_genesis_state-metadata, default_genesis-metadata,
}
use sandbox_ledger.Genesis.Sample.{evm_doc, decode, lib, laws, written, init_written}

-- Denoms by their length alone.
denom_rules : DenomRules
denom_rules = record {
  IsDenom = λ d. (3 ≤ count d) × (count d ≤ 128);
  MayFollow = λ suffix. Unit;
  display_follows = tt;
  continues = λ d suffix (long, short) follows fits.
      let both = length-append d suffix in (omega (arith, both, long), omega (arith, both, fits));
}

evm_bank_denom_metadata-IsBankMetadata_example :
    IsBankMetadata denom_rules (evm_bank_denom_metadata "astake")
    × (decimals (evm_bank_denom_metadata "astake") ≡ some 18)
    × ((evm_bank_denom_metadata "astake").base ≡ "astake")
unfolding denom_rules
evm_bank_denom_metadata-IsBankMetadata_example =
    evm_bank_denom_metadata-IsBankMetadata denom_rules "astake" (omega arith, omega arith)
      (omega arith)

abbrev distinct : List String → Bool
distinct [] = true
distinct (x ∷ xs) = all (λ y. not (x == y)) xs && distinct xs

all-ne : (x : String) (xs : List String) → all (λ y. not (x == y)) xs ≡ true → All (λ y. x ≢ y) xs
all-ne x [] h = tt
all-ne x (y ∷ xs) h = (ground (arith, eq_iff x y), all-ne x xs (ground arith))

distinct-Distinct : (xs : List String) → distinct xs ≡ true → Distinct xs
distinct-Distinct [] h = tt
distinct-Distinct (x ∷ xs) h = (all-ne x xs (ground arith), distinct-Distinct xs (ground arith))

address-Distinct : Distinct (excluded lib.addresses ++ included lib.addresses)
address-Distinct = distinct-Distinct (excluded lib.addresses ++ included lib.addresses) refl

new_evm_genesis_state-precompiles_example :
    All
      (λ a. contains (new_evm_genesis_state lib).params.active_static_precompiles a ≡ true)
      (included lib.addresses)
    × All
        (λ a. contains (new_evm_genesis_state lib).params.active_static_precompiles a ≡ false)
        (excluded lib.addresses)
    × ((new_evm_genesis_state lib).preinstalls ≡ 7 ∷ [])
    × ((new_evm_genesis_state lib).params.evm_denom ≡ "aevm")
new_evm_genesis_state-precompiles_example = new_evm_genesis_state-precompiles lib address-Distinct

init_genesis_state-metadata_example :
    (decode (read lib written bank)
      ≡ returned (record { denom_metadata = evm_bank_denom_metadata "aevm" ∷ []; rest = tt }))
    × UniqueBases (evm_bank_denom_metadata "aevm" ∷ [])
init_genesis_state-metadata_example =
    init_genesis_state-metadata laws refl refl written init_written tt tt

default_genesis-metadata_example :
    (genesis : GenesisState lib) × (default_genesis lib ≡ returned genesis)
    × (decode (read lib genesis bank)
        ≡ returned (record {
          denom_metadata = evm_bank_denom_metadata "aevm" ∷ evm_bank_denom_metadata "aevm" ∷ [];
          rest = tt;
        }))
    × (¬ UniqueBases (evm_bank_denom_metadata "aevm" ∷ evm_bank_denom_metadata "aevm" ∷ []))
    × (genesis evm ≡ some (evm_doc (new_evm_genesis_state lib)))
    × (genesis gov ≡ written gov)
default_genesis-metadata_example =
    default_genesis-metadata laws refl refl written init_written gov (λ p. cc) (λ p. cc)
