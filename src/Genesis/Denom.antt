-- ===== src/Genesis/Denom.antt =====
-- The metadata of the EVM's denom, against what its readers ask of it.
use Prim.Native.String.{count, ◌++◌ as append}
use text.Mathlib.TextLemmas.{length-append}
use mathlib.Core.Option
use sandbox_ledger.Base.{
  ℕ, ◌+◌, ◌<◌, ◌≤◌, String, ◌≡◌, refl, ◌∙◌, ◌≢◌, ap, Option, some, List, [], ◌∷◌, arith, eq_iff,
  ◌==◌, ≢→eq,
}
use sandbox_ledger.Base.Lists.{find, All}
use sandbox_ledger.Genesis.{DenomUnit, Metadata, append_display, evm_bank_denom_metadata}

-- The exponents rise, and no denom comes twice.
abbrev pub Rising : List DenomUnit → Type 0
Rising [] = Unit
Rising (u ∷ us) = All (λ v. (u.exponent < v.exponent) × (u.denom ≢ v.denom)) us × Rising us

-- What the bank module asks of the units: the first is the base, with exponent 0, they rise, and
-- the display denom is one of them.
abbrev pub FirstIsBase : Metadata → List DenomUnit → Type 0
FirstIsBase m [] = ⊥
FirstIsBase m (u ∷ us) = (u.denom ≡ m.base) × (u.exponent ≡ 0)

-- `sdk.ValidateDenom`: it accepts no more than 128 characters, and a denom that it accepts may be
-- continued, up to there, by characters that may stand behind the first.
pub record DenomRules : Type 1 where
  pub IsDenom : String → Type 0
  pub MayFollow : String → Type 0
  -- letters and dashes may follow
  pub display_follows : MayFollow "-display"
  pub continues :
      (d suffix : String)
      → IsDenom d
      → MayFollow suffix
      → count d + count suffix ≤ 128
      → IsDenom (append d suffix)

-- What `Validate` of the bank module's metadata asks of its fields, but for blanks and aliases.
pub record IsBankMetadata (rules : DenomRules) (m : Metadata) : Type 0 where
  pub named : (m.name ≢ "") × (m.symbol ≢ "")
  pub denoms : rules.IsDenom m.base × rules.IsDenom m.display
  pub units : All (λ u. rules.IsDenom u.denom) m.denom_units
  pub first : FirstIsBase m m.denom_units
  pub rising : Rising m.denom_units
  pub displayed : (u : DenomUnit) × (find (λ v. v.denom == m.display) m.denom_units ≡ some u)

-- The decimals of a coin, as the EVM derives them: the exponent of the unit that is displayed.
abbrev pub decimals : Metadata → Option ℕ
decimals m = Option.map (λ u. u.exponent) (find (λ u. u.denom == m.display) m.denom_units)

display-ne-base : (d : String) → d ≢ append_display d
unfolding append_display
display-ne-base d p =
    let longer : count d ≡ count d + 8 = ap count p ∙ length-append d "-display" in omega arith

abbrev display_unit : String → DenomUnit
display_unit d = record { denom = append_display d; exponent = 18 }

find-display_unit :
    (d : String)
    → find
        (λ u. u.denom == (evm_bank_denom_metadata d).display)
        (evm_bank_denom_metadata d).denom_units
      ≡ some (display_unit d)
unfolding evm_bank_denom_metadata
find-display_unit d =
    rw (≢→eq d (append_display d) (display-ne-base d), (eq_iff (append_display d) _).1 refl)

append_display-IsDenom :
    (rules : DenomRules) (d : String)
    → rules.IsDenom d
    → count d ≤ 120
    → rules.IsDenom (append_display d)
unfolding append_display
append_display-IsDenom rules d valid short =
    rules.continues d "-display" valid rules.display_follows (omega (arith, short))

-- For every denom that the SDK accepts and that has at most 120 characters, where the SDK accepts
-- denoms of up to 128, its metadata is as the bank module asks: the name and the symbol are not
-- empty, the base, the display denom and the denoms of the units are accepted by the SDK, the first
-- unit is the base with exponent 0, the exponents rise and no denom comes twice, and the display
-- denom is that of a unit. The EVM reads from it a coin of 18 decimals whose base is the denom.
pub evm_bank_denom_metadata-IsBankMetadata :
    (rules : DenomRules) (d : String)
    → rules.IsDenom d
    → count d ≤ 120
    → IsBankMetadata rules (evm_bank_denom_metadata d)
      × (decimals (evm_bank_denom_metadata d) ≡ some 18)
      × ((evm_bank_denom_metadata d).base ≡ d)
unfolding evm_bank_denom_metadata
evm_bank_denom_metadata-IsBankMetadata rules d valid short =
    let displayed = append_display-IsDenom rules d valid short in
    (
      record {
        named = (ground (arith, eq_iff "Sandbox" ""), ground (arith, eq_iff "SBX" ""));
        denoms = (valid, displayed);
        units = (valid, (displayed, tt));
        first = (refl, refl);
        rising = (((omega arith, display-ne-base d), tt), (tt, tt));
        displayed = (display_unit d, find-display_unit d);
      },
      ap (Option.map (λ (u : DenomUnit). u.exponent)) (find-display_unit d),
      refl,
    )
