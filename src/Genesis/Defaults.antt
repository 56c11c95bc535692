-- ===== src/Genesis/Defaults.antt =====
-- The bank's metadata in the genesis that `sandboxd init` writes, and in `DefaultGenesis`.
use mathlib.Core.Logic.{if_pos, if_neg}
use mathlib.Core.List.{append_assoc}
use sandbox_ledger.Base.{
  ◌≡◌, refl, ◌≢◌, ◌∙◌, ap, sym, Option, some, List, [], ◌∷◌, ◌++◌, Outcome, returned,
}
use sandbox_ledger.Base.Lists.{All, All-append}
use sandbox_ledger.Names.{ModuleName, bank, evm, ModuleName-discrete}
use sandbox_ledger.Genesis.{
  Metadata, BankGenesis, GenesisLib, GenesisState, read, add_metadata, evm_bank_denom_metadata,
  basic_overrides, bank_basic_default_genesis, init_genesis_state, default_genesis,
  new_evm_genesis_state, write,
}

-- No base denom comes twice, which the bank module asks of a genesis that it validates.
abbrev pub UniqueBases : List Metadata → Type 0
UniqueBases [] = Unit
UniqueBases (m ∷ ms) = All (λ n. m.base ≢ n.base) ms × UniqueBases ms

UniqueBases-tail : (xs ys : List Metadata) → UniqueBases (xs ++ ys) → UniqueBases ys
UniqueBases-tail [] ys h = h
UniqueBases-tail (x ∷ xs) ys h = UniqueBases-tail xs ys h.1

UniqueBases-snoc :
    (ms : List Metadata) (m : Metadata)
    → UniqueBases ms
    → All (λ n. n.base ≢ m.base) ms
    → UniqueBases (ms ++ m ∷ [])
UniqueBases-snoc [] m h others = (tt, tt)
UniqueBases-snoc (n ∷ ms) m (first, h) (other, others) = (
  All-append (λ k. n.base ≢ k.base) ms (m ∷ []) first (other, tt),
  UniqueBases-snoc ms m h others,
)

not-UniqueBases_twice :
    (ms : List Metadata) (m : Metadata) → ¬ UniqueBases ((ms ++ m ∷ []) ++ m ∷ [])
not-UniqueBases_twice ms m h = (UniqueBases-tail ms (m ∷ m ∷ []) (rw append_assoc at h)).0.0 refl

module _ (l : GenesisLib) (name : ModuleName) (raw : l.Raw) (genesis : GenesisState l) where
  write_self : write l name raw genesis name ≡ some raw
  unfolding write
  write_self = if_pos (ModuleName-discrete name name) refl (some raw) (genesis name)

  write_ne : (m : ModuleName) → m ≢ name → write l name raw genesis m ≡ genesis m
  unfolding write
  write_ne m other = if_neg (ModuleName-discrete m name) other (some raw) (genesis m)

  read_of : genesis name ≡ some raw → read l genesis name ≡ raw
  unfolding read
  read_of e = rw (e, read)

overrides-bank : (l : GenesisLib) → basic_overrides l bank ≡ some (bank_basic_default_genesis l)
unfolding basic_overrides
overrides-bank l = refl

bank-ne-evm : bank ≢ evm
bank-ne-evm p = cc

-- The documented behaviour of the codec and of the basic manager.
pub record GenesisLaws (l : GenesisLib) : Type 0 where
  pub bank_roundtrip :
      (gs : BankGenesis l.BankRest) → l.must_unmarshal_bank (l.must_marshal_bank gs) ≡ returned gs
  -- what replaces a module's basic module gives that module's part of the genesis
  pub replaced :
      (overrides : ModuleName → Option (Outcome l.Raw)) (genesis : GenesisState l) (m : ModuleName)
      (raw : l.Raw)
      → l.basic_manager_default_genesis overrides ≡ returned genesis
      → overrides m ≡ some (returned raw)
      → genesis m ≡ some raw
  -- the two defaults of the EVM module name the same denom
  pub same_denom : l.default_genesis_state.params.evm_denom ≡ l.default_params.evm_denom

module _ {l : GenesisLib} (laws : GenesisLaws l) {raw : l.Raw} {upstream : BankGenesis l.BankRest}
    (basic : l.bank_default_genesis ≡ returned raw)
    (decoded : l.must_unmarshal_bank raw ≡ returned upstream) where
  abbrev pub evm_metadata : Metadata
  evm_metadata = evm_bank_denom_metadata l.default_params.evm_denom

  bank_basic_default_genesis_lem :
      bank_basic_default_genesis l
      ≡ returned (l.must_marshal_bank (add_metadata l evm_metadata upstream))
  unfolding bank_basic_default_genesis
  bank_basic_default_genesis_lem = rw (basic, decoded)

  pub init-bank :
      (genesis : GenesisState l)
      → init_genesis_state l ≡ returned genesis
      → genesis bank ≡ some (l.must_marshal_bank (add_metadata l evm_metadata upstream))
  unfolding init_genesis_state
  init-bank genesis written =
      laws.replaced (basic_overrides l) genesis bank _ written
        (overrides-bank l ∙ ap some bank_basic_default_genesis_lem)

  -- In the genesis that `sandboxd init` writes, the bank's part is upstream's with the metadata of
  -- the EVM's default denom behind it; if the bases of upstream's metadata are distinct and other
  -- than that denom, no base comes twice.
  pub init_genesis_state-metadata :
      (genesis : GenesisState l)
      → init_genesis_state l ≡ returned genesis
      → UniqueBases upstream.denom_metadata
      → All (λ m. m.base ≢ l.default_params.evm_denom) upstream.denom_metadata
      → (l.must_unmarshal_bank (read l genesis bank)
          ≡ returned
              (record upstream { denom_metadata = upstream.denom_metadata ++ evm_metadata ∷ [] }))
        × UniqueBases (upstream.denom_metadata ++ evm_metadata ∷ [])
  unfolding evm_bank_denom_metadata
  init_genesis_state-metadata genesis written unique others = (
    rw (read_of l bank _ genesis (init-bank genesis written)) (laws.bank_roundtrip _),
    UniqueBases-snoc upstream.denom_metadata evm_metadata unique others,
  )

  evm_denom : (new_evm_genesis_state l).params.evm_denom ≡ l.default_params.evm_denom
  unfolding new_evm_genesis_state
  evm_denom = laws.same_denom

  twice : BankGenesis l.BankRest
  twice = add_metadata l evm_metadata (add_metadata l evm_metadata upstream)

  -- The genesis that the application's own `DefaultGenesis` makes from the basic manager's has the
  -- metadata of the EVM's denom twice, so a base comes twice, whatever upstream's metadata are; the
  -- EVM's part is the state with this chain's precompiles, and the part of any module `m` but
  -- these two is the basic manager's.
  pub default_genesis-metadata :
      (basics : GenesisState l)
      → init_genesis_state l ≡ returned basics
      → (m : ModuleName) → m ≢ bank
      → m ≢ evm
      → (genesis : GenesisState l) × (default_genesis l ≡ returned genesis)
        × (l.must_unmarshal_bank (read l genesis bank)
            ≡ returned (record upstream {
              denom_metadata = (upstream.denom_metadata ++ evm_metadata ∷ []) ++ evm_metadata ∷ [];
            }))
        × (¬ UniqueBases ((upstream.denom_metadata ++ evm_metadata ∷ []) ++ evm_metadata ∷ []))
        × (genesis evm ≡ some (l.must_marshal_evm (new_evm_genesis_state l)))
        × (genesis m ≡ basics m)
  unfolding default_genesis twice
  default_genesis-metadata basics written m other other' = (
    write l bank (l.must_marshal_bank twice)
        (write l evm (l.must_marshal_evm (new_evm_genesis_state l)) basics),
    rw (
      written,
      read_of l bank _ _ (write_ne l evm _ basics bank bank-ne-evm ∙ init-bank basics written),
      laws.bank_roundtrip _,
      evm_denom,
    ),
    rw (read_of l bank _ _ (write_self l bank _ _)) (laws.bank_roundtrip _),
    not-UniqueBases_twice upstream.denom_metadata evm_metadata,
    write_ne l bank _ _ evm (λ p. bank-ne-evm (sym p)) ∙ write_self l evm _ basics,
    write_ne l bank _ _ m other ∙ write_ne l evm _ basics m other',
  )
