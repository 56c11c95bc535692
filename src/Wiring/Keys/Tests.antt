-- ===== src/Wiring/Keys/Tests.antt =====
-- Stores that are named for their modules, and `GetKey` at the sample.
use sandbox_ledger.Base.{
  String, ◌≡◌, refl, sym, ap, ◌∙◌, ◌↔◌, true, some, [], returned, if◌then◌else◌, ◌==◌,
}
use sandbox_ledger.Names.{
  ModuleName, genutil, auth, bank, consensus, gov, upgrade, poa, ibc, transfer, gmp, attestations,
  evm, feemarket, erc20, tokenfactory, ift, StoreKey, kv, object, transient,
}
use sandbox_ledger.BaseSetup.Laws.{count}
use sandbox_ledger.Mempool.{Slots}
use sandbox_ledger.Wiring.{App}
use sandbox_ledger.Wiring.Build.{new_app}
use sandbox_ledger.Wiring.Answers.{result}
use sandbox_ledger.Wiring.Complete.{new_app_eq}
use sandbox_ledger.Wiring.Accessors.{get_key}
use sandbox_ledger.Wiring.Keys.{IsKv, DistinctNames, new_app-get_key}
use sandbox_ledger.Wiring.Sample.{pool, env, answers}

abbrev name_of : StoreKey → String
name_of (kv genutil) = "genutil"
name_of (kv auth) = "auth"
name_of (kv bank) = "bank"
name_of (kv consensus) = "consensus"
name_of (kv gov) = "gov"
name_of (kv upgrade) = "upgrade"
name_of (kv poa) = "poa"
name_of (kv ibc) = "ibc"
name_of (kv transfer) = "transfer"
name_of (kv gmp) = "gmp"
name_of (kv attestations) = "attestations"
name_of (kv evm) = "evm"
name_of (kv feemarket) = "feemarket"
name_of (kv erc20) = "erc20"
name_of (kv tokenfactory) = "tokenfactory"
name_of (kv ift) = "ift"
name_of (object m) = "object"
name_of (transient m) = "transient"

abbrev module_of : String → ModuleName
module_of s =
    if s == "genutil"
    then genutil
    else if s == "auth"
    then auth
    else if s == "bank"
    then bank
    else if s == "consensus"
    then consensus
    else if s == "gov"
    then gov
    else if s == "upgrade"
    then upgrade
    else if s == "poa"
    then poa
    else if s == "ibc"
    then ibc
    else if s == "transfer"
    then transfer
    else if s == "gmp"
    then gmp
    else if s == "attestations"
    then attestations
    else if s == "evm"
    then evm
    else if s == "feemarket"
    then feemarket
    else if s == "erc20"
    then erc20
    else if s == "tokenfactory"
    then tokenfactory
    else ift

module_of_lem : (m : ModuleName) → module_of (name_of (kv m)) ≡ m
module_of_lem genutil = refl
module_of_lem _ = refl

distinct : DistinctNames name_of
distinct m n h = sym (module_of_lem m) ∙ ap module_of h ∙ module_of_lem n

abbrev made : App × Slots pool
made = result env 7 true [] (answers 7 true)

returns : new_app env 7 true [] ≡ returned made
returns = new_app_eq env 7 true [] (answers 7 true)

new_app-get_key_example :
    (get_key name_of made.0 "bank" ≡ some (kv bank))
    ↔ (IsKv (kv bank) × (name_of (kv bank) ≡ "bank") × (count (kv bank) made.0.mounted ≡ 1))
new_app-get_key_example =
    new_app-get_key env 7 true [] made returns name_of distinct "bank" (kv bank)
