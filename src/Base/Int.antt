-- ===== src/Base/Int.antt =====
-- Signed integers, for counts that may be negative and for heights (`int64`).
use Prim.Native.Nat.{ℕ, zero, suc, ◌+◌, ◌-◌, ◌^◌, compare, Ordering}
use mathlib.Core.Bool.{Bool, true, false}

-- `negsuc n` is -(n + 1).
pub data ℤ : Type 0 where
  pos : ℕ → ℤ
  negsuc : ℕ → ℤ

abbrev pub is_negative : ℤ → Bool
is_negative (pos n) = false
is_negative (negsuc n) = true

abbrev pub is_minus_one : ℤ → Bool
is_minus_one (negsuc zero) = true
is_minus_one _ = false

abbrev pub eqb : ℕ → ℕ → Bool
eqb a b = elim (compare a b) [ Ordering.eq ↦ true | _ ↦ false ]

abbrev pub eq_int : ℤ → ℤ → Bool
eq_int (pos a) (pos b) = eqb a b
eq_int (negsuc a) (negsuc b) = eqb a b
eq_int _ _ = false

-- The bound of `int64`.
abbrev pub int64_bound : ℕ
int64_bound = 2 ^ 63

-- `h + 1` on `int64`, which wraps around.
unfoldable pub suc_int64 : ℤ → ℤ
suc_int64 (pos n) = elim (compare (n + 1) int64_bound) [
  | Ordering.lt ↦ pos (n + 1)
  | _ ↦ negsuc (int64_bound - 1)
]
suc_int64 (negsuc zero) = pos 0
suc_int64 (negsuc (suc n)) = negsuc n
