-- ===== src/Wiring/Accounts/Tests.antt =====
-- The sample application, with addresses that are made of the accounts' names.
use sandbox_ledger.Base.{String, ◌≡◌, true, [], returned}
use sandbox_ledger.Names.{gov, poa}
use sandbox_ledger.Accounts.{AccountName, fee_collector, of_module}
use sandbox_ledger.Accounts.Blocked.{names}
use sandbox_ledger.Mempool.{Slots}
use sandbox_ledger.Wiring.{App}
use sandbox_ledger.Wiring.Build.{new_app}
use sandbox_ledger.Wiring.Answers.{result}
use sandbox_ledger.Wiring.Complete.{new_app_eq}
use sandbox_ledger.Wiring.Sample.{pool, env, answers}
use sandbox_ledger.Wiring.Accounts.{BlocksAccounts, CollectsFees, new_app-blocks}

abbrev address : AccountName → String
address fee_collector = "fees"
address (of_module gov) = "gov"
address (of_module poa) = "poa"
address (of_module _) = "module"

abbrev made : App × Slots pool
made = result env 7 true [] (answers 7 true)

returns : new_app env 7 true [] ≡ returned made
returns = new_app_eq env 7 true [] (answers 7 true)

new_app-blocks_example :
    BlocksAccounts address (names made.0.account_perms) made.0
    × CollectsFees address (names made.0.account_perms) made.0 poa
new_app-blocks_example =
    new_app-blocks env 7 true [] made returns address (names made.0.account_perms)
      (λ acc. (λ member. member, λ member. member))
