-- ===== src/Wiring/Keys.antt =====
-- `GetKey` finds the keys of the stores that are mounted.
mod Tests
use mathlib.Core.Path.{subst}
use mathlib.Core.Bool.{decide}
use sandbox_ledger.Base.{
  Bool, true, false, if_true, if_false, some_inj, ℕ, ◌≤◌, String, ◌≡◌, refl, sym, ap, ◌∙◌, ◌↔◌,
  Option, some, none, List, [], ◌∷◌, ◌++◌, returned, arith, inl, inr, Bool-cases, ◌==◌, eq_iff,
  eq→≡,
}
use sandbox_ledger.Base.Lists.{All}
use sandbox_ledger.Names.{
  ModuleName, genutil, attestations, StoreKey, kv, object, transient, StoreKey-discrete,
  ModuleName-discrete,
}
use sandbox_ledger.BaseSetup.Laws.{count}
use sandbox_ledger.BaseSetup.{BaseOption, keys, o_keys, transient_keys}
use sandbox_ledger.Mempool.{Slots}
use sandbox_ledger.Wiring.{App}
use sandbox_ledger.Wiring.Keepers.{make_keepers}
use sandbox_ledger.Wiring.Handlers.{mount_stores, set_hooks}
use sandbox_ledger.Wiring.Build.{set_configurator, Env, new_app, set_orders}
use sandbox_ledger.Wiring.Final.{new_app-all}
use sandbox_ledger.Wiring.Accessors.{get_key, lookup_key}

abbrev pub IsKv : StoreKey → Type 0
IsKv (kv m) = Unit
IsKv _ = ⊥

-- The packages' names of their KV stores are distinct.
abbrev pub DistinctNames : (StoreKey → String) → Type 0
DistinctNames name_of = (m n : ModuleName) → name_of (kv m) ≡ name_of (kv n) → m ≡ n

kv_ext :
    (name_of : StoreKey → String)
    → DistinctNames name_of
    → (k k' : StoreKey) → IsKv k
    → IsKv k'
    → name_of k ≡ name_of k'
    → k ≡ k'
kv_ext name_of distinct (kv m) (kv n) p q h = ap kv (distinct m n h)
kv_ext name_of distinct (object m) k' p q h = absurd p
kv_ext name_of distinct (transient m) k' p q h = absurd p
kv_ext name_of distinct (kv m) (object n) p q h = absurd q
kv_ext name_of distinct (kv m) (transient n) p q h = absurd q

module _ (name_of : StoreKey → String) (s : String) where
  count_first : (k : StoreKey) (ks : List StoreKey) → 1 ≤ count k (k ∷ ks)
  unfolding count
  count_first k ks = ground arith

  count_later : (k x : StoreKey) (ks : List StoreKey) → 1 ≤ count k ks → 1 ≤ count k (x ∷ ks)
  unfolding count
  count_later k x ks h = ground arith

  count_other :
      (k x : StoreKey) (ks : List StoreKey) → ¬ (k ≡ x) → 1 ≤ count k (x ∷ ks) → 1 ≤ count k ks
  unfolding count
  count_other k x ks other h = ground arith

  count_nil : (k : StoreKey) → ¬ (1 ≤ count k [])
  unfolding count
  count_nil k h = omega arith

  not_named : (x k : StoreKey) → k ≡ x → (name_of x == s) ≡ false → name_of k ≡ s → ⊥
  not_named x k same other named = ground (arith, eq_iff (name_of x) s, ap name_of same)

  lookup_key_inv :
      (ks : List StoreKey) (k : StoreKey)
      → lookup_key name_of ks s ≡ some k
      → (name_of k ≡ s) × (1 ≤ count k ks)
  lookup_key_inv [] k h = cc
  lookup_key_inv (x ∷ ks) k h = elim (Bool-cases (name_of x == s)) [
    | inl found ↦
        let same : x ≡ k = some_inj (sym (if_true _ _ found) ∙ h) in
        (
          ap name_of (sym same) ∙ eq→≡ (name_of x) s found,
          subst (λ y. 1 ≤ count y (x ∷ ks)) same (count_first x ks),
        )
    | inr other ↦
        let (named, here) = lookup_key_inv ks k (sym (if_false _ _ other) ∙ h) in
        (named, count_later k x ks here)
  ]

  lookup_key_eq :
      (ks : List StoreKey) (k : StoreKey)
      → DistinctNames name_of
      → All IsKv ks
      → IsKv k
      → name_of k ≡ s
      → 1 ≤ count k ks
      → lookup_key name_of ks s ≡ some k
  lookup_key_eq [] k distinct all is_kv named here = absurd (count_nil k here)
  lookup_key_eq (x ∷ ks) k distinct (x_kv, all) is_kv named here =
      elim (Bool-cases (name_of x == s)) [
        | inl found ↦
            if_true _ _ found
            ∙ ap some
                (kv_ext name_of distinct x k x_kv is_kv (eq→≡ (name_of x) s found ∙ sym named))
        | inr other ↦
            if_false _ _ other
            ∙ lookup_key_eq ks k distinct all is_kv named
                (count_other k x ks (λ same. not_named x k same other named) here)
      ]

keys-IsKv : All IsKv keys
unfolding keys
keys-IsKv = omega arith

-- The mounted KV stores are those of the map of keys.
mounted_once :
    (k : StoreKey) → 1 ≤ count k keys → IsKv k × (count k (keys ++ o_keys ++ transient_keys) ≡ 1)
unfolding count keys o_keys transient_keys
mounted_once (kv genutil) h = absurd (omega arith)
mounted_once (kv attestations) h = absurd (omega arith)
mounted_once (kv _) h = (tt, refl)
mounted_once (object genutil) h = absurd (omega arith)
mounted_once (object _) h = absurd (omega arith)
mounted_once (transient genutil) h = absurd (omega arith)
mounted_once (transient _) h = absurd (omega arith)

in_keys :
    (k : StoreKey) → IsKv k → count k (keys ++ o_keys ++ transient_keys) ≡ 1 → 1 ≤ count k keys
unfolding count keys o_keys transient_keys
in_keys (object m) p h = absurd p
in_keys (transient m) p h = absurd p
in_keys (kv genutil) p h = absurd (omega arith)
in_keys (kv attestations) p h = absurd (omega arith)
in_keys (kv _) p h = omega arith

keys_eq :
    (e : Env) (g : ℕ) (b : Bool) (opts : List BaseOption) (r : App × Slots e.mempool)
    → new_app e g b opts ≡ returned r
    → (r.0.keys ≡ keys) × (r.0.mounted ≡ keys ++ o_keys ++ transient_keys)
unfolding make_keepers mount_stores set_hooks set_configurator set_orders
keys_eq =
    new_app-all
      (λ _ _ _ _ app. (app.keys ≡ keys) × (app.mounted ≡ keys ++ o_keys ++ transient_keys))
      (λ e opts g orders b printed. (refl, refl))

-- If the packages name their KV stores differently, then on the application that `NewApp` returns
-- `GetKey` answers a name with a key exactly if that is the key of a KV store of this name which is
-- mounted, once; so each mounted KV store is found by its name, and `GetKey` answers any other name
-- with nil.
pub new_app-get_key :
    (e : Env) (g : ℕ) (load_latest : Bool) (opts : List BaseOption) (r : App × Slots e.mempool)
    → new_app e g load_latest opts ≡ returned r
    → (name_of : StoreKey → String) → DistinctNames name_of
    → (s : String) (k : StoreKey)
    → (get_key name_of r.0 s ≡ some k) ↔ (IsKv k × (name_of k ≡ s) × (count k r.0.mounted ≡ 1))
unfolding get_key
new_app-get_key e g b opts r made name_of distinct s k =
    let (stores, mounted) = keys_eq e g b opts r made in
    (
      λ h.
          let (named, here) =
            lookup_key_inv name_of s keys k (ap (λ ks. lookup_key name_of ks s) (sym stores) ∙ h) in
          let (is_kv, once) = mounted_once k here in (is_kv, named, ap (count k) mounted ∙ once),
      λ (is_kv, named, once).
          ap (λ ks. lookup_key name_of ks s) stores
          ∙ lookup_key_eq name_of s keys k distinct keys-IsKv is_kv named
              (in_keys k is_kv (ap (count k) (sym mounted) ∙ once)),
    )
