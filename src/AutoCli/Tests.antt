-- ===== src/AutoCli/Tests.antt =====
-- Two modules with a name, one of which is no `appmodule.AppModule`, and one without a name.
use sandbox_ledger.Base.{
  ℕ, String, ◌≡◌, refl, ◌↔◌, Bool, true, false, Option, none, some, List, [], ◌∷◌, eq→≢,
}
use sandbox_ledger.AutoCli.{ManagedModule, AutoCliLib, auto_cli_opts}
use sandbox_ledger.AutoCli.Laws.{In, IsNamed, HaveDistinctNames, auto_cli_opts_iff}

abbrev lib : AutoCliLib ℕ Unit String
lib = record {
  extract_auto_cli_options = λ _. tt;
  new_evm_codec = λ prefix. prefix;
  account_addr_prefix = "cosmos";
  validator_addr_prefix = "cosmosvaloper";
  consensus_addr_prefix = "cosmosvalcons";
}

abbrev managed : Option String → Bool → ℕ → ManagedModule ℕ
managed name is_app_module n = record { name = name; is_app_module = is_app_module; app_module = n }

abbrev order : List (ManagedModule ℕ)
order = managed (some "bank") true 1 ∷ managed none true 2 ∷ managed (some "genutil") false 3 ∷ []

collects_bank : (auto_cli_opts lib order).modules "bank" ≡ some 1
unfolding auto_cli_opts
collects_bank = refl

skips_genutil : (auto_cli_opts lib order).modules "genutil" ≡ none
unfolding auto_cli_opts
skips_genutil = refl

order-HaveDistinctNames : HaveDistinctNames order
order-HaveDistinctNames =
    (((λ p. cc), ((λ p. eq→≢ "genutil" "bank" refl (cc)), tt)), (tt, (tt, tt)))

auto_cli_opts_iff_example :
    ((auto_cli_opts lib order).modules "bank" ≡ some 1)
    ↔ (m : ManagedModule ℕ) × In m order × IsNamed "bank" 1 m
auto_cli_opts_iff_example = auto_cli_opts_iff lib order "bank" 1 order-HaveDistinctNames
