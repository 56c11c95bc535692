-- ===== src/Accounts/Blocked.antt =====
-- The blocked addresses are those of the module accounts.
use sandbox_ledger.Base.{
  String, ◌≡◌, refl, ◌↔◌, ◌⊎◌, inl, inr, true, false, List, [], ◌∷◌, map, arith, ◌==◌, eq_iff,
  Bool-cases, eq→≡, if◌then◌else◌,
}
use sandbox_ledger.Base.Lists.{In}
use sandbox_ledger.Accounts.{
  AccountName, Permission, AddressSet, macc_perms, block_all, blocked_addresses,
}

-- The keys of a map from accounts to what they may do.
abbrev pub names : List (AccountName × List Permission) → List AccountName
names perms = map (λ entry. entry.0) perms

module _ (address : AccountName → String) where
  -- The address of one of the accounts.
  abbrev pub AddressOf : List AccountName → String → Type 0
  AddressOf order a = (acc : AccountName) × In acc order × (address acc ≡ a)

  block_all_sound :
      (order : List AccountName) (blocked : AddressSet) (a : String)
      → block_all address order blocked a ≡ true
      → (blocked a ≡ true) ⊎ AddressOf order a
  unfolding block_all
  block_all_sound [] blocked a h = inl h
  block_all_sound (acc ∷ order) blocked a h =
      elim (block_all_sound order (λ b. if address acc == b then true else blocked b) a h) [
        | inl here ↦ elim (Bool-cases (address acc == a)) [
          | inl same ↦ inr (acc, inl refl, eq→≡ _ _ same)
          | inr other ↦ inl (rw other at here)
        ]
        | inr (acc', member, same) ↦ inr (acc', inr member, same)
      ]

  block_all-keeps :
      (order : List AccountName) (blocked : AddressSet) (a : String)
      → blocked a ≡ true
      → block_all address order blocked a ≡ true
  unfolding block_all
  block_all-keeps [] blocked a h = h
  block_all-keeps (acc ∷ order) blocked a h = block_all-keeps order _ a (ground (arith, h))

  block_all_complete :
      (order : List AccountName) (blocked : AddressSet) (acc : AccountName)
      → In acc order
      → block_all address order blocked (address acc) ≡ true
  unfolding block_all
  block_all_complete [] blocked acc member = elim member [ ]
  block_all_complete (x ∷ order) blocked acc (inl same) =
      block_all-keeps order _ (address acc)
        (rw same (ground (arith, eq_iff (address x) (address x))))
  block_all_complete (x ∷ order) blocked acc (inr later) = block_all_complete order _ acc later

  -- In whatever order Go ranges over the accounts, an address is blocked exactly if it is that of
  -- an account in `maccPerms`.
  pub blocked_addresses_iff :
      (order : List AccountName)
      → ((acc : AccountName) → In acc order ↔ In acc (names macc_perms))
      → (a : String) → (blocked_addresses address order a ≡ true) ↔ AddressOf (names macc_perms) a
  unfolding blocked_addresses
  blocked_addresses_iff order keys a = (to, from)
    where
      to : blocked_addresses address order a ≡ true → AddressOf (names macc_perms) a
      to h = elim (block_all_sound order (λ _. false) a h) [
        | inl no_start ↦ cc
        | inr (acc, member, same) ↦ (acc, (keys acc).0 member, same)
      ]

      from : AddressOf (names macc_perms) a → blocked_addresses address order a ≡ true
      from (acc, member, same) =
          rw (← same) (block_all_complete order (λ _. false) acc ((keys acc).1 member))
