-- ===== src/Prelude/Bits.antt =====
-- Masks on bytes and words as arithmetic.
use Prim.Native.Nat.{
  ℕ, zero, suc, ◌+◌, ◌*◌, ◌/◌, ◌%◌, ◌≤◌, ◌<◌, max, bit_and, bit_or, digits, bit_or-bitwise,
}
use mathlib.Core.Path.{◌≡◌, refl, ap}
use mathlib.Core.Bool.{Bool, true, false}
use mathlib.Core.Logic.{ite}
use native.Mathlib.Decide.{ℕ_discrete}
use native.Mathlib.Omega.{arith}

-- Two functions that agree at every number below a bound, by evaluation.
module _ (f g : ℕ → ℕ) where
  agree_below : ℕ → Bool
  unfolding ℕ_discrete
  agree_below zero = true
  agree_below (suc n) = ite (ℕ_discrete (f n) (g n)) (agree_below n) false

  agree_below→eq : (n : ℕ) → agree_below n ≡ true → (i : ℕ) → i < n → f i ≡ g i
  unfolding agree_below
  agree_below→eq zero e i h = absurd (omega arith)
  agree_below→eq (suc n) e i h = ground (arith, agree_below→eq n (ground arith) i)

pub bit_and_0x7f : (b : ℕ) → b < 256 → bit_and b 0x7f ≡ b % 128
unfolding agree_below
bit_and_0x7f = agree_below→eq _ _ 256 refl

pub bit_and_0x80 : (b : ℕ) → b < 256 → bit_and b 0x80 ≡ b / 128 * 128
unfolding agree_below
bit_and_0x80 = agree_below→eq _ _ 256 refl

pub bit_and_0x1f : (b : ℕ) → b < 256 → bit_and b 0x1f ≡ b % 32
unfolding agree_below
bit_and_0x1f = agree_below→eq _ _ 256 refl

pub bit_and_0x0f : (b : ℕ) → b < 256 → bit_and b 0x0f ≡ b % 16
unfolding agree_below
bit_and_0x0f = agree_below→eq _ _ 256 refl

pub bit_or_0x80 : (b : ℕ) → b < 128 → bit_or 0x80 b ≡ b + 128
unfolding agree_below
bit_or_0x80 = agree_below→eq _ _ 128 refl

-- The upper twelve bits of a sixteen bit word.
pub bit_and_0xfff0 : (w : ℕ) → w < 65536 → bit_and w 0xfff0 ≡ w / 16 * 16
unfolding agree_below
bit_and_0xfff0 = agree_below→eq _ _ 65536 refl

-- The law for the lowest digit, from the definition that the native operation stands for.
abbrev or_digits : ℕ → ℕ → ℕ → ℕ
or_digits n a b = digits (λ b. b) max n a b

or_digits_fuel : (n m a b : ℕ) → a ≤ n → a ≤ m → or_digits n a b ≡ or_digits m a b
or_digits_fuel zero zero a b p q = refl
or_digits_fuel zero (suc m) zero b p q = refl
or_digits_fuel zero (suc m) (suc a) b p q = absurd (omega arith)
or_digits_fuel (suc n) zero zero b p q = refl
or_digits_fuel (suc n) zero (suc a) b p q = absurd (omega arith)
or_digits_fuel (suc n) (suc m) zero b p q = refl
or_digits_fuel (suc n) (suc m) (suc a) b p q =
    omega (arith, or_digits_fuel n m (suc a / 2) (b / 2) (omega arith) (omega arith))

zero-bit_or : (b : ℕ) → bit_or 0 b ≡ b
zero-bit_or b = bit_or-bitwise 0 b

bit_or_step : (a b : ℕ) → bit_or a b ≡ bit_or (a / 2) (b / 2) * 2 + max (a % 2) (b % 2)
bit_or_step zero b = omega (arith, zero-bit_or b, zero-bit_or (b / 2))
bit_or_step (suc a) b = omega (
  arith,
  bit_or-bitwise (suc a) b,
  bit_or-bitwise (suc a / 2) (b / 2),
  or_digits_fuel a (suc a / 2) (suc a / 2) (b / 2) (omega arith) (omega arith),
)

bit_or-zero_fuel : (n a : ℕ) → a ≤ n → bit_or a 0 ≡ a
bit_or-zero_fuel n zero h = refl
bit_or-zero_fuel zero (suc a) h = absurd (omega arith)
bit_or-zero_fuel (suc n) (suc a) h =
    omega (arith, bit_or_step (suc a) 0, bit_or-zero_fuel n (suc a / 2) (omega arith))

-- A double has no lowest bit, so the bit of the other operand is the result's.
bit_or_double : (c a b : ℕ) → c ≡ 2 * a → (bit_or a (b / 2) ≡ a + b / 2) → bit_or c b ≡ c + b
bit_or_double c a b e h =
    let half : c / 2 ≡ a = omega arith in
    omega (arith, bit_or_step c b, ap (λ (t : ℕ). bit_or t (b / 2)) half)

-- `(t << 8) | b` for a byte `b`.
pub bit_or_shifted : (t b : ℕ) → b < 256 → bit_or (t * 256) b ≡ t * 256 + b
bit_or_shifted t b h =
    let zero_bits : b / 2 / 2 / 2 / 2 / 2 / 2 / 2 / 2 ≡ 0 = omega arith in
    bit_or_double _ (t * 128) _ (omega arith) (
      bit_or_double _ (t * 64) _ (omega arith) (
        bit_or_double _ (t * 32) _ (omega arith) (
          bit_or_double _ (t * 16) _ (omega arith) (
            bit_or_double _ (t * 8) _ (omega arith) (
              bit_or_double _ (t * 4) _ (omega arith) (
                bit_or_double _ (t * 2) _ (omega arith) (
                  bit_or_double _ t _ (omega arith) (
                    omega (
                      arith,
                      bit_or-zero_fuel t t (omega arith),
                      ap (λ (z : ℕ). bit_or t z) zero_bits,
                    )))))))))
