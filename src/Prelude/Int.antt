-- ===== src/Prelude/Int.antt =====
-- Signed integers, and the euclidean division by a positive numeral.
use Prim.Native.Nat.{ℕ, ◌+◌, ◌-◌, ◌*◌, ◌/◌, ◌%◌}
use myna_card.Prelude.Tests.{leb, if◌then◌else◌}

-- `negsuc n` is -(n + 1).
pub data ℤ : Type 0 where
  pos : ℕ → ℤ
  negsuc : ℕ → ℤ

-- The sum of an integer and a natural number.
abbrev pub add_ℕ : ℤ → ℕ → ℤ
add_ℕ (pos a) b = pos (a + b)
add_ℕ (negsuc a) b = if leb (a + 1) b then pos (b - (a + 1)) else negsuc (a - b)

abbrev pub scale : ℕ → ℤ → ℤ
scale k (pos a) = pos (k * a)
scale k (negsuc a) = negsuc (k * (a + 1) - 1)

-- `i64::div_euclid` and `i64::rem_euclid`.
abbrev pub div_euclid : ℤ → ℕ → ℤ
div_euclid (pos a) d = pos (a / d)
div_euclid (negsuc a) d = negsuc (a / d)

abbrev pub rem_euclid : ℤ → ℕ → ℕ
rem_euclid (pos a) d = a % d
rem_euclid (negsuc a) d = d - 1 - a % d
