-- ===== src/Modules/Orders.antt =====
-- The orders of the modules' hooks are complete and list no module twice.
use sandbox_ledger.Base.{◌≡◌, refl, Bool, true, false, List, [], ◌∷◌, returned, arith}
use sandbox_ledger.Base.Lists.{All}
use sandbox_ledger.Names.{ModuleName, auth, upgrade, attestations}
use sandbox_ledger.Modules.{
  registered_modules, pre_blocker_order, begin_blocker_order, end_blocker_order,
  genesis_module_order, listed, HookOrders, ManagerLib, set_module_orders,
}

-- The check passes an order that has every registered module that needs an entry.
abbrev pub PassesComplete : ManagerLib → Type 0
PassesComplete l =
    (modules : List ModuleName) (needs : ModuleName → Bool) (order : List ModuleName)
    → ((m : ModuleName) → listed m modules ≡ true → needs m ≡ true → listed m order ≡ true)
    → l.assert_no_forgotten_modules modules needs order ≡ returned tt

-- Only pre-block hooks for auth and upgrade, and no hooks for the attestations light client.
pub record HooksOf (l : ManagerLib) : Type 0 where
  pub auth_begin : l.has_begin_blocker auth ≡ false
  pub upgrade_begin : l.has_begin_blocker upgrade ≡ false
  pub attestations_begin : l.has_begin_blocker attestations ≡ false
  pub attestations_end : l.has_end_blocker attestations ≡ false
  pub attestations_init : l.has_init_genesis attestations ≡ false
  pub attestations_export : l.has_export_genesis attestations ≡ false

abbrev pub Unique : List ModuleName → Type 0
Unique [] = Unit
Unique (m ∷ ms) = (listed m ms ≡ false) × Unique ms

abbrev pub Registered : List ModuleName → Type 0
Registered order = All (λ m. listed m registered_modules ≡ true) order

abbrev pub WellOrdered : List ModuleName → Type 0
WellOrdered order = Unique order × Registered order

module _ (l : ManagerLib) (hooks : HooksOf l) where
  begin_complete :
      (m : ModuleName)
      → listed m registered_modules ≡ true
      → l.has_begin_blocker m ≡ true
      → listed m begin_blocker_order ≡ true
  unfolding listed begin_blocker_order
  begin_complete auth r h = cc hooks.auth_begin
  begin_complete upgrade r h = cc hooks.upgrade_begin
  begin_complete attestations r h = cc hooks.attestations_begin
  begin_complete _ r h = refl

  end_complete :
      (m : ModuleName)
      → listed m registered_modules ≡ true
      → l.has_end_blocker m ≡ true
      → listed m end_blocker_order ≡ true
  unfolding listed end_blocker_order
  end_complete attestations r h = cc hooks.attestations_end
  end_complete _ r h = refl

  genesis_complete :
      (needs : ModuleName → Bool)
      → needs attestations ≡ false
      → (m : ModuleName) → listed m registered_modules ≡ true
      → needs m ≡ true
      → listed m genesis_module_order ≡ true
  unfolding listed genesis_module_order
  genesis_complete needs unneeded attestations r h = cc
  genesis_complete needs unneeded _ r h = refl

  -- If auth and upgrade have no begin hook, the attestations light client has no hook for the begin
  -- or the end of a block and none for a genesis or its export, and the manager's check passes each
  -- order that lists every registered module with the hook in question, then no `SetOrder` call of `NewApp` panics, and
  -- each order that the manager then holds names only registered modules, and none of them twice.
  pub set_module_orders-WellOrdered :
      PassesComplete l
      → (orders : HookOrders) × (set_module_orders l ≡ returned orders)
        × WellOrdered orders.pre_blockers
        × WellOrdered orders.begin_blockers
        × WellOrdered orders.end_blockers
        × WellOrdered orders.init_genesis
        × WellOrdered orders.export_genesis
  unfolding set_module_orders listed registered_modules pre_blocker_order begin_blocker_order
      end_blocker_order genesis_module_order
  set_module_orders-WellOrdered passes = (
    record {
      pre_blockers = pre_blocker_order;
      begin_blockers = begin_blocker_order;
      end_blockers = end_blocker_order;
      init_genesis = genesis_module_order;
      export_genesis = genesis_module_order;
    },
    rw (
      passes registered_modules l.has_begin_blocker begin_blocker_order begin_complete,
      passes registered_modules l.has_end_blocker end_blocker_order end_complete,
      passes registered_modules l.has_init_genesis genesis_module_order
          (genesis_complete l.has_init_genesis hooks.attestations_init),
      passes registered_modules l.has_export_genesis genesis_module_order
          (genesis_complete l.has_export_genesis hooks.attestations_export),
    ),
    ground arith,
    ground arith,
    ground arith,
    ground arith,
    ground arith,
  )
