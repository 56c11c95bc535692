-- ===== src/Modules/Sample.antt =====
-- A module manager that looks at every registered module.
use mathlib.Core.Bool.{or-true}
use sandbox_ledger.Base.{
  ◌≡◌, refl, sym, ap, ◌∙◌, Bool, true, false, List, [], ◌∷◌, foreign, returned, panicked, arith,
  if◌then◌else◌,
}
use sandbox_ledger.Names.{ModuleName, ModuleName-discrete, auth, upgrade, attestations, genutil}
use sandbox_ledger.Modules.{
  ManagerLib, HookOrders, listed, set_module_orders, registered_modules, pre_blocker_order,
  begin_blocker_order, end_blocker_order, genesis_module_order,
}
use sandbox_ledger.Modules.Orders.{HooksOf, PassesComplete}

abbrev pub needs_begin : ModuleName → Bool
needs_begin auth = false
needs_begin upgrade = false
needs_begin attestations = false
needs_begin _ = true

abbrev pub needs_genesis : ModuleName → Bool
needs_genesis attestations = false
needs_genesis _ = true

-- Whether the order has each of the modules that needs an entry.
unfoldable pub complete : List ModuleName → (ModuleName → Bool) → List ModuleName → Bool
complete [] needs order = true
complete (m ∷ ms) needs order =
    if needs m
    then (if listed m order then complete ms needs order else false)
    else complete ms needs order

abbrev pub manager : ManagerLib
manager = record {
  has_begin_blocker = needs_begin;
  has_end_blocker = needs_genesis;
  has_init_genesis = needs_genesis;
  has_export_genesis = needs_genesis;
  assert_no_forgotten_modules = λ modules needs order.
      if complete modules needs order then returned tt else panicked (foreign "forgotten");
}

listed_self : (m : ModuleName) (ms : List ModuleName) → listed m (m ∷ ms) ≡ true
unfolding listed
listed_self genutil ms = refl
listed_self _ ms = refl

pub listed_later :
    (m n : ModuleName) (ms : List ModuleName) → listed m ms ≡ true → listed m (n ∷ ms) ≡ true
unfolding listed
listed_later m n ms h = rw h (or-true _)

complete_lem :
    (modules : List ModuleName) (needs : ModuleName → Bool) (order : List ModuleName)
    → ((m : ModuleName) → listed m modules ≡ true → needs m ≡ true → listed m order ≡ true)
    → complete modules needs order ≡ true
unfolding complete
complete_lem [] needs order h = refl
complete_lem (m ∷ ms) needs order h = ground (
  arith,
  h m (listed_self m ms),
  complete_lem ms needs order (λ n member. h n (listed_later n m ms member)),
)

pub passes : PassesComplete manager
passes modules needs order h = ground (arith, complete_lem modules needs order h)

-- The hooks of the sample's modules.
pub hooks : HooksOf manager
hooks = record {
  auth_begin = refl;
  upgrade_begin = refl;
  attestations_begin = refl;
  attestations_end = refl;
  attestations_init = refl;
  attestations_export = refl;
}

first_listed :
    {n : ModuleName} (ns : List ModuleName) (needs : ModuleName → Bool) (order : List ModuleName)
    → complete (n ∷ ns) needs order ≡ true
    → needs n ≡ true
    → listed n order ≡ true
unfolding complete
first_listed ns needs order h needed = ground arith

later_complete :
    (n : ModuleName) (ns : List ModuleName) (needs : ModuleName → Bool) (order : List ModuleName)
    → complete (n ∷ ns) needs order ≡ true
    → complete ns needs order ≡ true
unfolding complete
later_complete n ns needs order h = ground arith

pub complete_inv :
    (modules : List ModuleName) (needs : ModuleName → Bool) (order : List ModuleName)
    → complete modules needs order ≡ true
    → (m : ModuleName) → listed m modules ≡ true
    → needs m ≡ true
    → listed m order ≡ true
unfolding complete listed
complete_inv [] needs order h m member needed = cc
complete_inv (n ∷ ns) needs order h m member needed = elim (ModuleName-discrete m n) [
  | yes same ↦
      ap (λ k. listed k order) same ∙ first_listed ns needs order h (sym (ap needs same) ∙ needed)
  | no other ↦
      complete_inv ns needs order (later_complete n ns needs order h) m (ground arith) needed
]

-- The orders that `NewApp` sets, for this manager.
abbrev pub orders : HookOrders
orders = record {
  pre_blockers = pre_blocker_order;
  begin_blockers = begin_blocker_order;
  end_blockers = end_blocker_order;
  init_genesis = genesis_module_order;
  export_genesis = genesis_module_order;
}

pub ordered : set_module_orders manager ≡ returned orders
unfolding set_module_orders complete listed registered_modules begin_blocker_order end_blocker_order
    genesis_module_order
ordered = refl
