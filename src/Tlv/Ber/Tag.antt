-- ===== src/Tlv/Ber/Tag.antt =====
-- `read_tag` against the layout of a tag.
use myna_card.Prelude.{
  ℕ, ◌<◌, ◌^◌, ◌+◌, ◌*◌, ◌%◌, ◌≤◌, ◌≡◌, refl, [], ◌∷◌, ◌++◌, length, Bytes, IsByte, All,
  All-of_append, ◌⊎◌, inl, inr, arith,
}
use myna_card.Prelude.Bits.{bit_and_0x1f, bit_and_0x80}
use myna_card.Prelude.Words.{push_byte_u32, big_endian}
use myna_card.Error.{Error, ok, err, malformed}
use native.Mathlib.Decide.{ℕ_discrete, dec_lt}
use myna_card.Tlv.Ber.{read_tag}
use myna_card.Tlv.Ber.Layout.{IsTag}

pub read_tag-append :
    (t rest : Bytes) → IsTag t → All IsByte t → read_tag (t ++ rest) ≡ ok (big_endian t, length t)
unfolding read_tag
read_tag-append [] rest h b = absurd h
read_tag-append (a ∷ []) rest h bs = ground (arith, bit_and_0x1f a)
read_tag-append (a ∷ b ∷ []) rest h bs =
    ground (arith, bit_and_0x1f a, bit_and_0x80 b, push_byte_u32 a b)
read_tag-append (a ∷ b ∷ c ∷ []) rest h bs = ground (
  arith,
  bit_and_0x1f a,
  bit_and_0x80 b,
  bit_and_0x80 c,
  push_byte_u32 a b,
  push_byte_u32 (a * 256 + b) c,
)
read_tag-append (a ∷ b ∷ c ∷ d ∷ []) rest h bs = ground (
  arith,
  bit_and_0x1f a,
  bit_and_0x80 b,
  bit_and_0x80 c,
  bit_and_0x80 d,
  push_byte_u32 a b,
  push_byte_u32 (a * 256 + b) c,
  push_byte_u32 ((a * 256 + b) * 256 + c) d,
)
read_tag-append (a ∷ b ∷ c ∷ d ∷ e ∷ t) rest h bs = absurd h

-- The bytes begin with a tag, or `read_tag` fails.
abbrev TagCases : Bytes → Type 0
TagCases bytes =
    ((t : Bytes) × (rest : Bytes) × IsTag t × (bytes ≡ t ++ rest))
    ⊎ ((e : Error) × (read_tag bytes ≡ err e))

cut_short : Error
cut_short = malformed "truncated TLV tag" []

too_long : Error
too_long = malformed "TLV tag longer than 4 bytes" []

-- A fourth byte with the top bit set asks for a fifth.
tag_cases5 :
    (a b c d : ℕ) (rest : Bytes)
    → a % 32 ≡ 31
    → 128 ≤ b
    → 128 ≤ c
    → 128 ≤ d
    → All IsByte (a ∷ b ∷ c ∷ d ∷ rest)
    → TagCases (a ∷ b ∷ c ∷ d ∷ rest)
unfolding read_tag cut_short too_long
tag_cases5 a b c d [] ha hb hc hd bs =
    inr (cut_short, ground (arith, bit_and_0x1f a, bit_and_0x80 b, bit_and_0x80 c, bit_and_0x80 d))
tag_cases5 a b c d (x ∷ rest) ha hb hc hd bs =
    inr (too_long, ground (arith, bit_and_0x1f a, bit_and_0x80 b, bit_and_0x80 c, bit_and_0x80 d))

tag_cases4 :
    (a b c : ℕ) (rest : Bytes)
    → a % 32 ≡ 31
    → 128 ≤ b
    → 128 ≤ c
    → All IsByte (a ∷ b ∷ c ∷ rest)
    → TagCases (a ∷ b ∷ c ∷ rest)
unfolding read_tag cut_short
tag_cases4 a b c [] ha hb hc bs =
    inr (cut_short, ground (arith, bit_and_0x1f a, bit_and_0x80 b, bit_and_0x80 c))
tag_cases4 a b c (d ∷ rest) ha hb hc bs = elim (dec_lt d 128) [
  | yes p ↦ inl (a ∷ b ∷ c ∷ d ∷ [], rest, (ha, hb, hc, p), refl)
  | no p ↦ tag_cases5 a b c d rest ha hb hc (omega arith) bs
]

tag_cases3 :
    (a b : ℕ) (rest : Bytes)
    → a % 32 ≡ 31
    → 128 ≤ b
    → All IsByte (a ∷ b ∷ rest)
    → TagCases (a ∷ b ∷ rest)
unfolding read_tag cut_short
tag_cases3 a b [] ha hb bs = inr (cut_short, ground (arith, bit_and_0x1f a, bit_and_0x80 b))
tag_cases3 a b (c ∷ rest) ha hb bs = elim (dec_lt c 128) [
  | yes p ↦ inl (a ∷ b ∷ c ∷ [], rest, (ha, hb, p), refl)
  | no p ↦ tag_cases4 a b c rest ha hb (omega arith) bs
]

tag_cases2 : (a : ℕ) (rest : Bytes) → a % 32 ≡ 31 → All IsByte (a ∷ rest) → TagCases (a ∷ rest)
unfolding read_tag cut_short
tag_cases2 a [] ha bs = inr (cut_short, ground (arith, bit_and_0x1f a))
tag_cases2 a (b ∷ rest) ha bs = elim (dec_lt b 128) [
  | yes p ↦ inl (a ∷ b ∷ [], rest, (ha, p), refl)
  | no p ↦ tag_cases3 a b rest ha (omega arith) bs
]

tag_cases : (bytes : Bytes) → All IsByte bytes → TagCases bytes
unfolding read_tag
tag_cases [] bs = inr (malformed "empty TLV" [], refl)
tag_cases (a ∷ rest) bs = elim (ℕ_discrete (a % 32) 31) [
  | yes p ↦ tag_cases2 a rest p bs
  | no p ↦ inl (a ∷ [], rest, p, refl)
]

-- `read_tag` reads exactly a tag, and gives its bytes as a big-endian number.
pub read_tag-split :
    (bytes : Bytes) {v n : ℕ}
    → All IsByte bytes
    → read_tag bytes ≡ ok (v, n)
    → (t : Bytes) × (rest : Bytes) × IsTag t
      × (bytes ≡ t ++ rest)
      × (v ≡ big_endian t)
      × (n ≡ length t)
read_tag-split bytes {v} {n} bs e = elim (tag_cases bytes bs) [
  | inl (t, rest, h, split) ↦
      let seen : read_tag (t ++ rest) ≡ ok (v, n) = rw split at e in
      let known : read_tag (t ++ rest) ≡ ok (big_endian t, length t) =
        read_tag-append t rest h (All-of_append IsByte t rest (rw split at bs)).0 in
      (t, rest, h, split, cc, cc)
  | inr (x, f) ↦ absurd (cc)
]

pub length-IsTag : (t : Bytes) → IsTag t → (1 ≤ length t) × (length t ≤ 4)
length-IsTag [] h = absurd h
length-IsTag (a ∷ []) h = omega arith
length-IsTag (a ∷ b ∷ []) h = omega arith
length-IsTag (a ∷ b ∷ c ∷ []) h = omega arith
length-IsTag (a ∷ b ∷ c ∷ d ∷ []) h = omega arith
length-IsTag (a ∷ b ∷ c ∷ d ∷ e ∷ t) h = absurd h

pub big_endian-IsTag : (t : Bytes) → IsTag t → All IsByte t → big_endian t < 2 ^ 32
big_endian-IsTag [] h bs = absurd h
big_endian-IsTag (a ∷ []) h bs = omega arith
big_endian-IsTag (a ∷ b ∷ []) h bs = omega arith
big_endian-IsTag (a ∷ b ∷ c ∷ []) h bs = omega arith
big_endian-IsTag (a ∷ b ∷ c ∷ d ∷ []) h bs = omega arith
big_endian-IsTag (a ∷ b ∷ c ∷ d ∷ e ∷ t) h bs = absurd h
