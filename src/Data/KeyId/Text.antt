-- ===== src/Data/KeyId/Text.antt =====
-- src/data.rs, `KeyId`: the texts of an identifier for people, in ASCII, and what they tell apart.
use myna_card.Prelude.{
  ℕ, ◌+◌, ◌-◌, ◌*◌, ◌/◌, ◌%◌, ◌<◌, ◌≡◌, refl, ap, ◌∙◌, sym, [], ◌∷◌, ◌++◌, length, take, drop,
  take-append, drop-append, take-append-drop, length-take, length-drop, length-append, drop-drop,
  Bytes, IsByte, All, All-drop, arith, ltb, if◌then◌else◌, ◌↔◌,
}
use myna_card.Error.{ok}
use myna_card.Data.KeyId.{KeyId}
use myna_card.Data.KeyId.Reading.{parse, number, group}

-- A digit of `{:02X}`.
abbrev hex_digit : ℕ → ℕ
hex_digit d = if ltb d 10 then b'0' + d else b'A' + (d - 10)

-- `fmt::Display`. The groups are digits, which are UTF-8, so neither falls back on question marks.
unfoldable pub display : KeyId → Bytes
unfolding number group
display id = number id ++ (b'/' ∷ group id)

-- The loop of `fmt::Debug` over the padding.
padding_text : Bytes → Bytes
padding_text [] = []
padding_text (byte ∷ rest) =
    b' ' ∷ hex_digit (byte / 16) ∷ hex_digit (byte % 16) ∷ padding_text rest

-- "KeyId(", the printable form, the padding, and ")".
unfoldable pub debug : KeyId → Bytes
unfolding padding_text
debug id =
    b'K'
    ∷ b'e'
    ∷ b'y'
    ∷ b'I'
    ∷ b'd'
    ∷ b'('
    ∷ (display id ++ (padding_text (drop 12 id.bytes) ++ (b')' ∷ [])))

hex_digit-injective : (d e : ℕ) → d < 16 → e < 16 → hex_digit d ≡ hex_digit e → d ≡ e
hex_digit-injective d e h k q = ground arith

hex-injective :
    (a b : ℕ)
    → IsByte a
    → IsByte b
    → hex_digit (a / 16) ≡ hex_digit (b / 16)
    → hex_digit (a % 16) ≡ hex_digit (b % 16)
    → a ≡ b
hex-injective a b h k hi lo = omega (
  arith,
  hex_digit-injective (a / 16) (b / 16) (omega arith) (omega arith) hi,
  hex_digit-injective (a % 16) (b % 16) (omega arith) (omega arith) lo,
)

length-padding_text : (xs : Bytes) → length (padding_text xs) ≡ 3 * length xs
unfolding padding_text
length-padding_text [] = omega arith
length-padding_text (x ∷ xs) = omega (arith, length-padding_text xs)

padding_text-injective :
    (xs ys : Bytes)
    → All IsByte xs
    → All IsByte ys
    → length xs ≡ length ys
    → padding_text xs ≡ padding_text ys
    → xs ≡ ys
unfolding padding_text
padding_text-injective [] [] h k l q = refl
padding_text-injective [] (y ∷ ys) h k l q = absurd (omega arith)
padding_text-injective (x ∷ xs) [] h k l q = absurd (omega arith)
padding_text-injective (x ∷ xs) (y ∷ ys) h k l q =
    let same : x ≡ y = hex-injective x y h.0 k.0 (cc q) (cc q) in
    let rest : xs ≡ ys = padding_text-injective xs ys h.1 k.1 (omega arith) (cc q) in cc

parse-bytes :
    (bytes : Bytes) (id : KeyId) → parse bytes ≡ ok id → (id.bytes ≡ bytes) × (length bytes ≡ 16)
unfolding parse
parse-bytes bytes id e = ground arith

-- The two parts that a text of identifiers begins with are of fixed lengths.
cut :
    (xs xs' ys ys' : Bytes)
    → length xs ≡ length xs'
    → xs ++ ys ≡ xs' ++ ys'
    → (xs ≡ xs') × (ys ≡ ys')
cut xs xs' ys ys' l q = (
  sym (take-append xs ys (length xs) refl) ∙ ap (take (length xs)) q ∙ take-append xs' ys' _ l,
  sym (drop-append xs ys (length xs) refl) ∙ ap (drop (length xs)) q ∙ drop-append xs' ys' _ l,
)

length-display : (id : KeyId) → length id.bytes ≡ 16 → length (display id) ≡ 11
unfolding display number group
length-display id l = omega (
  arith,
  length-append (take 7 id.bytes) (b'/' ∷ take 3 (drop 9 id.bytes)),
  length-take 7 id.bytes,
  length-take 3 (drop 9 id.bytes),
  length-drop 9 id.bytes,
)

-- The group and the padding are what stands from the tenth byte on.
from_tenth : (bytes : Bytes) → take 3 (drop 9 bytes) ++ drop 12 bytes ≡ drop 9 bytes
from_tenth bytes =
    ap (λ x. take 3 (drop 9 bytes) ++ x) (sym (drop-drop 9 3 bytes))
    ∙ take-append-drop 3 (drop 9 bytes)

debug-told :
    (id id' : KeyId)
    → length id.bytes ≡ 16
    → length id'.bytes ≡ 16
    → All IsByte id.bytes
    → All IsByte id'.bytes
    → debug id ≡ debug id'
    → (take 7 id.bytes ≡ take 7 id'.bytes) × (drop 9 id.bytes ≡ drop 9 id'.bytes)
unfolding debug display number group
debug-told id id' l l' bs bs' q =
    let pad : Bytes = drop 12 id.bytes in
    let pad' : Bytes = drop 12 id'.bytes in
    let text : display id ++ (padding_text pad ++ (b')' ∷ []))
        ≡ display id' ++ (padding_text pad' ++ (b')' ∷ [])) =
      ap (drop 6) q in
    let size : length pad ≡ length pad' =
      omega (arith, length-drop 12 id.bytes, length-drop 12 id'.bytes) in
    let (shown, rest) =
      cut (display id) (display id') _ _ (omega (arith, length-display id l, length-display id' l'))
        text in
    let (num, behind) =
      cut (number id) (number id') _ _
        (omega (arith, length-take 7 id.bytes, length-take 7 id'.bytes)) shown in
    let (spelled, _) =
      cut (padding_text pad) (padding_text pad') _ _
        (omega (arith, size, length-padding_text pad, length-padding_text pad')) rest in
    let same : pad ≡ pad' =
      padding_text-injective pad pad' (All-drop IsByte 12 id.bytes bs)
        (All-drop IsByte 12 id'.bytes bs') size spelled in
    let groups : take 3 (drop 9 id.bytes) ≡ take 3 (drop 9 id'.bytes) = ap (drop 1) behind in
    (num, cc (same, groups, from_tenth id.bytes, from_tenth id'.bytes))

-- The text by the two parts that it shows.
abbrev text_of : Bytes → Bytes → Bytes
text_of front back =
    b'K'
    ∷ b'e'
    ∷ b'y'
    ∷ b'I'
    ∷ b'd'
    ∷ b'('
    ∷ ((front ++ (b'/' ∷ take 3 back)) ++ (padding_text (drop 3 back) ++ (b')' ∷ [])))

debug-shown : (id : KeyId) → debug id ≡ text_of (take 7 id.bytes) (drop 9 id.bytes)
unfolding debug display number group
debug-shown id = rw (drop-drop 9 3 id.bytes) refl

-- The debugging text of two identifiers that parse is the same exactly when their first seven bytes
-- and those from the tenth on are: it does not show the eighth and the ninth byte, whatever they
-- are.
pub debug_iff :
    (bytes bytes' : Bytes) (id id' : KeyId)
    → All IsByte bytes
    → All IsByte bytes'
    → parse bytes ≡ ok id
    → parse bytes' ≡ ok id'
    → (debug id ≡ debug id') ↔ ((take 7 bytes ≡ take 7 bytes') × (drop 9 bytes ≡ drop 9 bytes'))
unfolding debug display number group
debug_iff bytes bytes' id id' bs bs' p p' =
    let (e, l) = parse-bytes bytes id p in
    let (e', l') = parse-bytes bytes' id' p' in
    (
      (λ q.
          let (front, back) =
            debug-told id id' (ap length e ∙ l) (ap length e' ∙ l') (rw (sym e) at bs)
              (rw (sym e') at bs') q in
          (cc (e, e', front), cc (e, e', back))),
      (λ (num, rest).
          let front : take 7 id.bytes ≡ take 7 id'.bytes = cc (e, e', num) in
          let back : drop 9 id.bytes ≡ drop 9 id'.bytes = cc (e, e', rest) in
          debug-shown id ∙ rw (front, back) (sym (debug-shown id'))),
    )
