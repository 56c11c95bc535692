-- ===== src/Wiring/Accounts.antt =====
-- The module accounts of a finished application: what its account keeper and its bank keeper are
-- given, and the account that collects the fees.
mod Tests
use mathlib.Core.Path.{subst}
use sandbox_ledger.Base.{
  ℕ, String, ◌≡◌, refl, ◌↔◌, inl, inr, Bool, true, some, List, [], ◌∷◌, returned,
}
use sandbox_ledger.Names.{ModuleName, poa}
use sandbox_ledger.Accounts.{AccountName, of_module, Permission, macc_perms, blocked_addresses}
use sandbox_ledger.Base.Lists.{In}
use sandbox_ledger.Accounts.Blocked.{names, AddressOf, blocked_addresses_iff}
use sandbox_ledger.BaseSetup.{BaseOption}
use sandbox_ledger.Mempool.{Slots}
use sandbox_ledger.Wiring.{App}
use sandbox_ledger.Wiring.Keepers.{make_keepers}
use sandbox_ledger.Wiring.Handlers.{mount_stores, set_hooks}
use sandbox_ledger.Wiring.Build.{set_configurator, Env, new_app, set_orders}
use sandbox_ledger.Wiring.Final.{new_app-all}

module _ (address : AccountName → String) (order : List AccountName) where
  -- Coins that users send are refused at exactly the addresses of the module accounts.
  abbrev pub BlocksAccounts : App → Type 0
  BlocksAccounts app =
      (a : String)
      → (app.blocked_addrs address order a ≡ true) ↔ AddressOf address (names app.account_perms) a

  -- The account that collects the fees: the account keeper knows it, as one that may neither mint
  -- nor burn, and users cannot send coins to it.
  abbrev pub CollectsFees : App → ModuleName → Type 0
  CollectsFees app m =
      (app.fee_recipient_module ≡ some m)
      × In (of_module m, []) app.account_perms
      × (app.blocked_addrs address order (address (of_module m)) ≡ true)

-- In the application that `NewApp` returns, in whatever order Go ranges over the module accounts of
-- the account keeper, the bank keeper blocks an address exactly if it is that of one of these
-- accounts. The module that collects the fees, POA, has such an account, which may neither mint nor
-- burn and whose address is blocked.
pub new_app-blocks :
    (e : Env) (g : ℕ) (load_latest : Bool) (opts : List BaseOption) (r : App × Slots e.mempool)
    → new_app e g load_latest opts ≡ returned r
    → (address : AccountName → String) (order : List AccountName)
    → ((acc : AccountName) → In acc order ↔ In acc (names r.0.account_perms))
    → BlocksAccounts address order r.0 × CollectsFees address order r.0 poa
unfolding make_keepers mount_stores set_hooks set_configurator set_orders
new_app-blocks =
    new_app-all
      (λ _ _ _ _ app.
        (address : AccountName → String) (order : List AccountName)
        → ((acc : AccountName) → In acc order ↔ In acc (names app.account_perms))
        → BlocksAccounts address order app × CollectsFees address order app poa)
      (λ e opts g orders b printed address order keys.
        let blocks = blocked_addresses_iff address order keys in
        (
          blocks,
          (
            refl,
            inr (inr (inl refl)),
            (blocks (address (of_module poa))).1 (of_module poa, inr (inr (inl refl)), refl),
          ),
        ))
