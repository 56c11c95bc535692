-- ===== src/BaseSetup/Laws.antt =====
-- The stores that the parallel runner knows, and how many workers it has.
use mathlib.Core.Bool.{decide}
use sandbox_ledger.Base.{ℕ, ◌+◌, ◌≤◌, ◌<◌, ◌≡◌, List, [], ◌∷◌, ◌++◌, if◌then◌else◌, arith}
use sandbox_ledger.Names.{StoreKey, ModuleName-discrete, StoreKey-discrete}
use sandbox_ledger.BaseSetup.{Machine, keys, o_keys, non_transient_keys, stm_workers}

-- How often a key is in a list.
unfoldable pub count : StoreKey → List StoreKey → ℕ
unfolding StoreKey-discrete ModuleName-discrete decide
count key [] = 0
count key (k ∷ ks) = if decide (StoreKey-discrete key k) then 1 + count key ks else count key ks

pub count-append :
    (key : StoreKey) (xs ys : List StoreKey) → count key (xs ++ ys) ≡ count key xs + count key ys
unfolding count
count-append key [] ys = omega arith
count-append key (x ∷ xs) ys = ground (arith, count-append key xs ys)

-- A loop over a map meets each of its keys once.
abbrev pub RangesOnce : Machine → Type 0
RangesOnce m = (key : StoreKey) (ks : List StoreKey) → count key (m.range_keys ks) ≡ count key ks

pub count-non_transient_keys :
    (m : Machine)
    → RangesOnce m
    → (key : StoreKey) → count key (non_transient_keys m) ≡ count key (keys ++ o_keys)
unfolding non_transient_keys
count-non_transient_keys m once key = omega (
  arith,
  count-append key (m.range_keys keys) (m.range_keys o_keys),
  count-append key keys o_keys,
  once key keys,
  once key o_keys,
)

pub stm_workers_bounds :
    (m : Machine)
    → 0 < m.gomaxprocs
    → 0 < m.num_cpu
    → (1 ≤ stm_workers m) × (stm_workers m ≤ m.gomaxprocs) × (stm_workers m ≤ m.num_cpu)
unfolding stm_workers
stm_workers_bounds m p q = ground arith
