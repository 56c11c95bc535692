-- ===== src/Genesis/Precompiles.antt =====
-- Which static precompiles the EVM's genesis activates.
use sandbox_ledger.Base.{
  String, ◌≡◌, refl, ◌≢◌, Bool, true, false, List, [], ◌∷◌, ◌++◌, sym, ◌==◌, arith, eq_iff, ≢→eq,
}
use sandbox_ledger.Base.Lists.{any, All}
use sandbox_ledger.Genesis.{PrecompileAddresses, GenesisLib, new_evm_genesis_state}

-- `slices.Contains`
abbrev pub contains : List String → String → Bool
contains xs a = any (λ x. x == a) xs

abbrev pub Distinct : List String → Type 0
Distinct [] = Unit
Distinct (x ∷ xs) = All (λ y. x ≢ y) xs × Distinct xs

-- The addresses of the precompiles whose modules the chain has, and of those whose it has not.
abbrev pub included : PrecompileAddresses → List String
included a = a.p256 ∷ a.bech32 ∷ a.bank ∷ a.gov ∷ a.ics02 ∷ []

abbrev pub excluded : PrecompileAddresses → List String
excluded a = a.staking ∷ a.distribution ∷ a.slashing ∷ a.vesting ∷ a.ics20 ∷ []

not-contains : (xs : List String) (a : String) → All (λ x. x ≢ a) xs → contains xs a ≡ false
not-contains [] a h = refl
not-contains (x ∷ xs) a (other, h) = rw (≢→eq x a other) (not-contains xs a h)

contains-cons :
    (x : String) (xs : List String) (a : String) → contains xs a ≡ true → contains (x ∷ xs) a ≡ true
contains-cons x xs a h = ground (arith)

All-contains : (xs : List String) → All (λ a. contains xs a ≡ true) xs
All-contains [] = tt
All-contains (x ∷ xs) = (ground (arith, eq_iff x x), weaken xs (All-contains xs))
  where
    weaken :
        (ys : List String)
        → All (λ a. contains xs a ≡ true) ys
        → All (λ a. contains (x ∷ xs) a ≡ true) ys
    weaken [] h = tt
    weaken (y ∷ ys) (here, later) = (contains-cons x xs y here, weaken ys later)

apart : (x : String) (xs ys : List String) → All (λ y. x ≢ y) (xs ++ ys) → All (λ y. y ≢ x) ys
apart x [] [] h = tt
apart x [] (y ∷ ys) (other, h) = ((λ p. other (sym p)), apart x [] ys h)
apart x (z ∷ xs) ys (_, h) = apart x xs ys h

All-not-contains : (xs ys : List String) → Distinct (xs ++ ys) → All (λ x. contains ys x ≡ false) xs
All-not-contains [] ys h = tt
All-not-contains (x ∷ xs) ys (others, h) =
    (not-contains ys x (apart x xs ys others), All-not-contains xs ys h)

-- With pairwise distinct addresses, the EVM's genesis activates the precompiles P256, Bech32, Bank,
-- Gov and ICS-02, and none of those of staking, distribution, slashing, vesting and ICS-20; its
-- preinstalled contracts are all the default ones, and its denom is that of the default state.
pub new_evm_genesis_state-precompiles :
    (l : GenesisLib)
    → Distinct (excluded l.addresses ++ included l.addresses)
    → All
        (λ a. contains (new_evm_genesis_state l).params.active_static_precompiles a ≡ true)
        (included l.addresses)
      × All
          (λ a. contains (new_evm_genesis_state l).params.active_static_precompiles a ≡ false)
          (excluded l.addresses)
      × ((new_evm_genesis_state l).preinstalls ≡ l.default_preinstalls)
      × ((new_evm_genesis_state l).params.evm_denom ≡ l.default_genesis_state.params.evm_denom)
unfolding new_evm_genesis_state
new_evm_genesis_state-precompiles l distinct = (
  All-contains (included l.addresses),
  All-not-contains (excluded l.addresses) (included l.addresses) distinct,
  refl,
  refl,
)
