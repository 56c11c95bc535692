-- ===== src/Accounts/Tests.antt =====
-- Addresses that are made of the accounts' names.
use sandbox_ledger.Base.{String, ◌≡◌, refl, true, false}
use sandbox_ledger.Names.{gov, poa}
use sandbox_ledger.Accounts.{AccountName, fee_collector, of_module, macc_perms, blocked_addresses}
use sandbox_ledger.Accounts.Blocked.{names}

abbrev address : AccountName → String
address fee_collector = "fees"
address (of_module gov) = "gov"
address (of_module poa) = "poa"
address (of_module _) = "module"

poa_blocked : blocked_addresses address (names macc_perms) "poa" ≡ true
unfolding blocked_addresses
poa_blocked = refl

user_free : blocked_addresses address (names macc_perms) "user" ≡ false
unfolding blocked_addresses
user_free = refl
