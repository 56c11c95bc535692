-- ===== src/Staking/Tests.antt =====
-- Lookups in a set of two validators, and the theorems at them.
use Prim.Native.String.{◌++◌ as append}
use sandbox_ledger.Base.{
  ℕ, Result, String, ◌≡◌, refl, eq_iff, none, some, List, [], ◌∷◌, foreign, no_validator_found, ok,
  err, if◌then◌else◌, ◌==◌,
}
use sandbox_ledger.Staking.{
  validator_address_codec, AdapterLib, new_staking_adapter, PoaLib, PoaStakingKeeper,
  get_validator_by_cons_addr, Iterate,
}
use sandbox_ledger.Staking.Operator.{
  Bech32Laws, Operator, get_validator_by_cons_addr-validator_address_codec,
}
use sandbox_ledger.Staking.Lookup.{Active, visit, get_validator_by_cons_addr-find}

abbrev lib : PoaLib
lib = record {
  ConsAddress = String;
  Address = String;
  AddrCodec = Unit;
  Poa = Unit;
  Power = ℕ;
  equals = λ a b. a == b;
  acc_address_from_bech32 = λ s. if s == "bad" then err (foreign "bech32") else ok s;
  val_address_string = λ a. append "valoper-" a;
}

abbrev keeper : PoaStakingKeeper lib
keeper = record { denom = "stake"; addr_codec = tt; poa = some tt }

abbrev validators : List (Active lib)
validators =
    ("c1", 5, record { operator_address = "op1" })
    ∷ ("c2", 7, record { operator_address = "op2" })
    ∷ ("c3", 1, record { operator_address = "bad" })
    ∷ []

abbrev iterate : Iterate lib
iterate _ cb s = visit lib validators none cb s

lookup_second :
    get_validator_by_cons_addr lib iterate keeper "c2"
    ≡ ok (record { operator_address = "valoper-op2" })
unfolding get_validator_by_cons_addr
lookup_second = refl

lookup_bad : get_validator_by_cons_addr lib iterate keeper "c3" ≡ err no_validator_found
unfolding get_validator_by_cons_addr
lookup_bad = refl

get_validator_by_cons_addr-find_example :
    get_validator_by_cons_addr lib iterate keeper "c2"
    ≡ ok (record { operator_address = "valoper-op2" })
get_validator_by_cons_addr-find_example =
    get_validator_by_cons_addr-find lib iterate keeper tt validators none "c2" refl (λ cb s. refl)

-- The same with one operator, whose address is written behind a prefix.
abbrev decode_account : String → Result (Unit {0})
decode_account s = if s == "cosmos1op" then ok tt else err (foreign "bech32")

abbrev prefix_lib : PoaLib
prefix_lib = record {
  ConsAddress = String;
  Address = Unit;
  AddrCodec = String;
  Poa = Unit;
  Power = ℕ;
  equals = λ a b. a == b;
  acc_address_from_bech32 = decode_account;
  val_address_string = λ a. append "cosmosvaloper" "1op";
}

abbrev adapter_lib : AdapterLib prefix_lib
adapter_lib = record {
  default_bond_denom = "stake";
  bech32_validator_addr_prefix = "cosmosvaloper";
  new_evm_codec = λ prefix. prefix;
}

abbrev decode : String → String → Result (Unit {0})
decode prefix s = if s == append prefix "1op" then ok tt else err (foreign "bech32")

bech32_laws : Bech32Laws prefix_lib adapter_lib
bech32_laws = record {
  IsProper = λ a. Unit;
  encode = λ prefix a. append prefix "1op";
  string_to_bytes = decode;
  decodes = λ s addr h. tt;
  writes = λ addr proper. refl;
  reads = λ prefix addr proper. rw ((eq_iff (append prefix "1op") _).1 refl) refl;
}

abbrev operators : List (Active prefix_lib)
operators =
    ("c1", 5, record { operator_address = "bad" })
    ∷ ("c2", 7, record { operator_address = "cosmos1op" })
    ∷ []

get_validator_by_cons_addr-validator_address_codec_example :
    (a : Unit) × Operator prefix_lib operators "c2" a
    × (decode "cosmosvaloper" "cosmosvaloper1op" ≡ ok a)
unfolding bech32_laws new_staking_adapter validator_address_codec
get_validator_by_cons_addr-validator_address_codec_example =
    get_validator_by_cons_addr-validator_address_codec prefix_lib
      (λ _ cb s. visit prefix_lib operators none cb s) adapter_lib bech32_laws tt operators none
      "c2" (record { operator_address = "cosmosvaloper1op" }) (λ cb s. refl)
      (get_validator_by_cons_addr-find prefix_lib _ _ tt operators none "c2" refl (λ cb s. refl))
