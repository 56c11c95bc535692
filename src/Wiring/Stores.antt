-- ===== src/Wiring/Stores.antt =====
-- The stores of the keepers are the mounted ones, and the keepers answer to the governance module.
use sandbox_ledger.Base.{
  ℕ, ◌≡◌, ◌⊎◌, Bool, Option, none, some, List, [], ◌∷◌, ◌++◌, returned, arith,
}
use sandbox_ledger.Base.Lists.{All}
use sandbox_ledger.Names.{ModuleName, gov, StoreKey}
use sandbox_ledger.BaseSetup.Laws.{count, RangesOnce}
use sandbox_ledger.Wiring.BaseApp.{HoldsPersistent, new_app-evm_stores}
use sandbox_ledger.BaseSetup.{BaseOption, keys, o_keys, transient_keys}
use sandbox_ledger.Mempool.{Slots}
use sandbox_ledger.Wiring.{App, Keeper, keeper_of}
use sandbox_ledger.Wiring.Keepers.{make_keepers}
use sandbox_ledger.Wiring.Handlers.{mount_stores, set_hooks}
use sandbox_ledger.Wiring.Build.{set_configurator, Env, new_app, set_orders}
use sandbox_ledger.Wiring.Final.{new_app-all}
use sandbox_ledger.Wiring.Dependencies.{with_keeper}

abbrev pub object_stores : Option StoreKey → List StoreKey
object_stores none = []
object_stores (some key) = key ∷ []

abbrev pub stores_of : Option Keeper → List StoreKey
stores_of none = []
stores_of (some k) = k.stores ++ object_stores k.object_store

-- The stores that are the keepers' own, one keeper after the other.
abbrev pub own_stores : App → List ModuleName → List StoreKey
own_stores app [] = []
own_stores app (m ∷ ms) = stores_of (keeper_of m app) ++ own_stores app ms

abbrev pub AnswersToGov : Option Keeper → Type 0
AnswersToGov none = Unit
AnswersToGov (some k) = (k.authority ≡ none) ⊎ (k.authority ≡ some gov)

-- Each mounted store is one keeper's own, and the keepers' own stores are mounted.
new_app-own_stores :
    (e : Env) (g : ℕ) (load_latest : Bool) (opts : List BaseOption) (r : App × Slots e.mempool)
    → new_app e g load_latest opts ≡ returned r
    → All (λ key. count key (own_stores r.0 with_keeper) ≡ 1) r.0.mounted
      × All (λ key. count key r.0.mounted ≡ 1) (own_stores r.0 with_keeper)
      × All (λ m. AnswersToGov (keeper_of m r.0)) with_keeper
unfolding make_keepers mount_stores set_hooks set_configurator set_orders count keys o_keys
    transient_keys
new_app-own_stores =
    new_app-all
      (λ _ _ _ _ app.
        All (λ key. count key (own_stores app with_keeper) ≡ 1) app.mounted
        × All (λ key. count key app.mounted ≡ 1) (own_stores app with_keeper)
        × All (λ m. AnswersToGov (keeper_of m app)) with_keeper)
      (λ e opts g orders b printed. ground arith)

-- In the application that `NewApp` returns, in whatever order Go ranges over the keys, each mounted
-- store is some keeper's own, by its store key or its object store key, and that of one keeper only;
-- each store that is a keeper's own is mounted exactly once; besides its own, the EVM keeper is given
-- every mounted store but the transient ones, and each once; and no keeper has an authority other
-- than the governance module.
pub new_app-stores :
    (e : Env) (g : ℕ) (load_latest : Bool) (opts : List BaseOption) (r : App × Slots e.mempool)
    → RangesOnce e.machine
    → new_app e g load_latest opts ≡ returned r
    → All (λ key. count key (own_stores r.0 with_keeper) ≡ 1) r.0.mounted
      × All (λ key. count key r.0.mounted ≡ 1) (own_stores r.0 with_keeper)
      × HoldsPersistent r.0 r.0.evm_store_keys
      × All (λ m. AnswersToGov (keeper_of m r.0)) with_keeper
new_app-stores e g load_latest opts r once h =
    let (own, mounted, authorities) = new_app-own_stores e g load_latest opts r h in
    (own, mounted, new_app-evm_stores e g load_latest opts r once h, authorities)
