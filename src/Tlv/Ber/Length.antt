-- ===== src/Tlv/Ber/Length.antt =====
-- `read_length` against the layout of a length.
use myna_card.Prelude.{
  ℕ, zero, suc, ◌+◌, ◌-◌, ◌*◌, ◌/◌, ◌^◌, ◌≤◌, ◌<◌, ◌≡◌, refl, ap, [], ◌∷◌, ◌++◌, length,
  length-append, get_elem?-middle, get_range?-middle, get_elem?-end, get_range?-eq-none, sym, take,
  drop, length-take, take-append-drop, append_assoc, Bytes, IsByte, All, All-of_append, ◌⊎◌, inl,
  inr, arith, foldl,
}
use myna_card.Prelude.Bits.{bit_and_0x7f}
use myna_card.Prelude.Words.{push_byte, push_byte_usize, big_endian_from}
use myna_card.Error.{Error, ok, err, malformed}
use native.Mathlib.Decide.{dec_lt}
use myna_card.Tlv.Ber.{read_length}
use myna_card.Tlv.Ber.Layout.{IsLength, length_value}

-- How many values fit in front of `k` more digits of a word.
capacity : ℕ → ℕ
capacity zero = 2 ^ 64
capacity (suc k) = capacity k / 256

capacity-le : (k : ℕ) → capacity k ≤ 2 ^ 64
unfolding capacity
capacity-le zero = omega arith
capacity-le (suc k) = omega (arith, capacity-le k)

capacity_pos : (d k : ℕ) → k + d ≡ 8 → 0 < capacity k
unfolding capacity
capacity_pos zero k h = let e : k ≡ 8 = omega arith in rw e (omega arith)
capacity_pos (suc d) k h = omega (arith, capacity_pos d (suc k) (omega arith))

-- Eight digits at most fit the word, so none is shifted out.
digits-value :
    (ds : Bytes) (acc : ℕ)
    → All IsByte ds
    → acc < capacity (length ds)
    → foldl (push_byte (2 ^ 64)) acc ds ≡ big_endian_from acc ds
unfolding capacity
digits-value [] acc bs h = refl
digits-value (d ∷ ds) acc (hd, hs) h =
    rw (push_byte_usize acc d (omega (arith, capacity-le (length ds))) hd)
      (digits-value ds (acc * 256 + d) hs (omega arith))

big_endian_from-lt :
    (ds : Bytes) (acc : ℕ)
    → All IsByte ds
    → acc < capacity (length ds)
    → big_endian_from acc ds < 2 ^ 64
unfolding capacity
big_endian_from-lt [] acc bs h = h
big_endian_from-lt (d ∷ ds) acc bs h =
    big_endian_from-lt ds (acc * 256 + d) bs.1 (omega (arith, bs.0))

-- A length of at most eight digits fits the word.
pub length_value-lt : (l : Bytes) → IsLength l → All IsByte l → length_value l < 2 ^ 64
length_value-lt [] h bs = absurd h
length_value-lt (n ∷ []) h bs = omega arith
length_value-lt (n ∷ d ∷ ds) h bs =
    big_endian_from-lt (d ∷ ds) 0 bs.1
      (capacity_pos (8 - length (d ∷ ds)) (length (d ∷ ds)) (omega arith))

pub length-IsLength : (l : Bytes) → IsLength l → (1 ≤ length l) × (length l ≤ 9)
length-IsLength [] h = absurd h
length-IsLength (n ∷ []) h = omega arith
length-IsLength (n ∷ d ∷ ds) h = omega arith

pub read_length-append :
    (front l rest : Bytes)
    → IsLength l
    → All IsByte l
    → read_length (front ++ (l ++ rest)) (length front)
      ≡ ok (length_value l, length front + length l)
unfolding read_length
read_length-append front [] rest h bs = absurd h
read_length-append front (n ∷ []) rest h bs = ground (arith, get_elem?-middle front rest n)
read_length-append front (n ∷ d ∷ ds) rest h bs = ground (
  arith,
  get_elem?-middle front ((d ∷ ds) ++ rest) n,
  bit_and_0x7f n,
  get_range?-middle (front ++ (n ∷ [])) (d ∷ ds) rest (length front + 1)
      (length front + 1 + length (d ∷ ds)),
  append_assoc front (n ∷ []) ((d ∷ ds) ++ rest),
  length-append front (n ∷ []),
  digits-value (d ∷ ds) 0 bs.1,
  capacity_pos (8 - length (d ∷ ds)) (length (d ∷ ds)),
)

-- The bytes behind `front` begin with a length, or `read_length` fails.
abbrev LengthCases : Bytes → Bytes → Type 0
LengthCases front bytes =
    ((l : Bytes) × (rest : Bytes) × IsLength l × (bytes ≡ l ++ rest))
    ⊎ ((e : Error) × (read_length (front ++ bytes) (length front) ≡ err e))

IsLength-long :
    (n : ℕ) (ds : Bytes) → n ≡ 128 + length ds → 1 ≤ length ds → length ds ≤ 8 → IsLength (n ∷ ds)
IsLength-long n [] h low high = absurd (omega arith)
IsLength-long n (d ∷ ds) h low high = (h, high)

-- The first byte announces `count` more.
long_cases :
    (front : Bytes) (n count : ℕ) (rest : Bytes)
    → n ≡ 128 + count
    → n < 256
    → LengthCases front (n ∷ rest)
unfolding read_length
long_cases front n zero rest h hn = inr (
  malformed "indefinite TLV length is not supported" [],
  ground (arith, get_elem?-middle front rest n, bit_and_0x7f n),
)
long_cases front n (suc k) rest h hn = elim (dec_lt 8 (suc k)) [
  | yes wide ↦ inr (
    malformed "TLV length does not fit in usize" [],
    ground (arith, get_elem?-middle front rest n, bit_and_0x7f n),
  )
  | no p ↦ elim (dec_lt (length rest) (suc k)) [
    | yes short ↦ inr (
      malformed "truncated TLV length" [],
      ground (
        arith,
        get_elem?-middle front rest n,
        bit_and_0x7f n,
        length-append front (n ∷ rest),
        get_range?-eq-none (front ++ (n ∷ rest)) (length front + 1) (length front + 1 + suc k),
      ),
    )
    | no fits ↦
        let ds : Bytes = take (suc k) rest in
        let size : length ds ≡ suc k = omega (arith, length-take (suc k) rest) in
        inl (
          n ∷ ds,
          drop (suc k) rest,
          IsLength-long n ds (omega arith) (omega arith) (omega arith),
          ap (λ r. n ∷ r) (sym (take-append-drop (suc k) rest)),
        )
  ]
]

length_cases : (front bytes : Bytes) → All IsByte bytes → LengthCases front bytes
length_cases front [] bs =
    inr (malformed "truncated TLV length" [], unfold read_length in rw (get_elem?-end front))
length_cases front (n ∷ rest) bs = elim (dec_lt n 128) [
  | yes p ↦ inl (n ∷ [], rest, p, refl)
  | no p ↦ long_cases front n (n - 128) rest (omega arith) bs.0
]

-- `read_length` reads exactly a length, and gives its value.
pub read_length-split :
    (front bytes : Bytes) {v n : ℕ}
    → All IsByte bytes
    → read_length (front ++ bytes) (length front) ≡ ok (v, n)
    → (l : Bytes) × (rest : Bytes) × IsLength l
      × (bytes ≡ l ++ rest)
      × (v ≡ length_value l)
      × (n ≡ length front + length l)
read_length-split front bytes {v} {n} bs e = elim (length_cases front bytes bs) [
  | inl (l, rest, h, split) ↦
      let seen : read_length (front ++ (l ++ rest)) (length front) ≡ ok (v, n) = rw split at e in
      let known : read_length (front ++ (l ++ rest)) (length front)
          ≡ ok (length_value l, length front + length l) =
        read_length-append front l rest h (All-of_append IsByte l rest (rw split at bs)).0 in
      (l, rest, h, split, cc, cc)
  | inr (x, f) ↦ absurd (cc)
]
