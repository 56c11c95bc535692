-- ===== src/Genesis/Sample.antt =====
-- A small codec and defaults of the modules, on which the tests run.
use sandbox_ledger.Base.{
  ℕ, ◌≡◌, refl, sym, ◌∙◌, ap, Option, none, some, [], ◌∷◌, Outcome, returned, panicked, foreign,
}
use sandbox_ledger.Names.{ModuleName}
use sandbox_ledger.Genesis.{
  BankGenesis, EvmGenesis, EvmParams, GenesisLib, GenesisState, init_genesis_state, basic_overrides,
}
use sandbox_ledger.Genesis.Defaults.{GenesisLaws}

pub data Doc : Type 0 where
  bank_doc : BankGenesis Unit → Doc
  evm_doc : EvmGenesis Unit ℕ Unit → Doc
  plain : ℕ → Doc

abbrev pub decode : Doc → Outcome (BankGenesis Unit)
decode (bank_doc gs) = returned gs
decode _ = panicked (foreign "json")

abbrev pub params : EvmParams Unit
params = record { evm_denom = "aevm"; active_static_precompiles = []; rest = tt }

abbrev pub part : Option (Outcome Doc) → Option Doc
part none = some (plain 0)
part (some (returned doc)) = some doc
part (some _) = none

abbrev pub lib : GenesisLib
lib = record {
  Raw = Doc;
  BankRest = Unit;
  EvmRest = Unit;
  Preinstall = ℕ;
  Accounts = Unit;
  addresses = record {
    p256 = "0100";
    bech32 = "0400";
    bank = "0804";
    gov = "0805";
    ics02 = "0807";
    staking = "0800";
    distribution = "0801";
    slashing = "0806";
    vesting = "0803";
    ics20 = "0802";
  };
  default_genesis_state = record { params = params; preinstalls = []; accounts = tt };
  default_params = params;
  default_preinstalls = 7 ∷ [];
  must_marshal_bank = bank_doc;
  must_unmarshal_bank = decode;
  must_marshal_evm = evm_doc;
  nil_raw = plain 9;
  bank_default_genesis = returned (bank_doc (record { denom_metadata = []; rest = tt }));
  genutil_default_genesis = returned (plain 1);
  gov_default_genesis = returned (plain 2);
  transfer_default_genesis = returned (plain 3);
  basic_manager_default_genesis = λ overrides. returned (λ m. part (overrides m));
}

abbrev pub at : ModuleName → Outcome (GenesisState lib) → Option Doc
at m (returned genesis) = genesis m
at m _ = none

pub replaced :
    (overrides : ModuleName → Option (Outcome Doc)) (genesis : GenesisState lib) (m : ModuleName)
    (raw : Doc)
    → lib.basic_manager_default_genesis overrides ≡ returned genesis
    → overrides m ≡ some (returned raw)
    → genesis m ≡ some raw
replaced overrides genesis m raw made e = sym (ap (at m) made) ∙ ap part e

abbrev pub laws : GenesisLaws lib
laws = record { bank_roundtrip = λ gs. refl; replaced = replaced; same_denom = refl }

abbrev pub written : GenesisState lib
written m = part (basic_overrides lib m)

pub init_written : init_genesis_state lib ≡ returned written
unfolding init_genesis_state
init_written = refl
