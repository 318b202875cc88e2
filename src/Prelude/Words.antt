-- ===== src/Prelude/Words.antt =====
-- Sixteen bit words and their two bytes, the higher one first.
use Prim.Native.Nat.{ℕ, ◌+◌, ◌*◌, ◌/◌, ◌%◌, ◌^◌, ◌<◌, bit_or}
use mathlib.Core.Path.{◌≡◌}
use mathlib.Core.List.{[], ◌∷◌}
use native.Mathlib.Omega.{arith}
use myna_card.Prelude.Lists.{Bytes}
use myna_card.Prelude.Bits.{bit_or_shifted}

-- `u16::to_be_bytes`, of a number that an `as u16` may have cut.
abbrev pub to_be_bytes : ℕ → Bytes
to_be_bytes n = (n / 2 ^ 8 % 2 ^ 8) ∷ (n % 2 ^ 8) ∷ []

-- `u16::from_be_bytes([bytes[0], bytes[1]])`; the callers pass two bytes.
abbrev pub from_be_bytes : Bytes → ℕ
from_be_bytes (hi ∷ lo ∷ _) = hi * 256 + lo
from_be_bytes _ = 0

pub from_be_bytes-to_be_bytes : (n : ℕ) → n < 65536 → from_be_bytes (to_be_bytes n) ≡ n
from_be_bytes-to_be_bytes n h = omega arith

-- `(acc << 8) | b`, in a word of `width` values.
abbrev pub push_byte : ℕ → ℕ → ℕ → ℕ
push_byte width acc b = bit_or (acc * 2 ^ 8 % width) b

pub push_byte_u32 : (acc b : ℕ) → acc < 2 ^ 24 → b < 256 → push_byte (2 ^ 32) acc b ≡ acc * 256 + b
push_byte_u32 acc b ha hb =
    let fits : acc * 2 ^ 8 % 2 ^ 32 ≡ acc * 256 = omega arith in rw fits (bit_or_shifted acc b hb)

pub push_byte_usize :
    (acc b : ℕ) → acc < 2 ^ 56 → b < 256 → push_byte (2 ^ 64) acc b ≡ acc * 256 + b
push_byte_usize acc b ha hb =
    let fits : acc * 2 ^ 8 % 2 ^ 64 ≡ acc * 256 = omega arith in rw fits (bit_or_shifted acc b hb)

-- The number that bytes stand for, the highest first, behind the digits of `acc`.
abbrev pub big_endian_from : ℕ → Bytes → ℕ
big_endian_from acc [] = acc
big_endian_from acc (b ∷ bs) = big_endian_from (acc * 256 + b) bs

abbrev pub big_endian : Bytes → ℕ
big_endian = big_endian_from 0
