-- ===== src/Sm/Cryptogram/RoundTrip.antt =====
-- What `cryptogram_object` writes, `parse_cryptogram` reads.
use myna_card.Prelude.{
  ℕ, ◌+◌, ◌≤◌, ◌<◌, ◌≡◌, refl, ap, ◌∙◌, [], ◌∷◌, ◌++◌, length, length-append, append_assoc, Bytes,
  IsByte, All, All-append, arith, ltb, leb, Bool-cases, inl, inr,
}
use myna_card.Error.{ok}
use myna_card.Tlv.Ber
use myna_card.Tlv.Ber.Layout.{IsLength, length_value}
use myna_card.Tlv.Ber.Objects.{IsObject, InMemory, ber_parse_iff}
use myna_card.Sm.Cryptogram.{length_field, cryptogram_object, parse_cryptogram}

-- The field is a definite length, and gives the number that it is written for.
pub record IsField (n : ℕ) (field : Bytes) : Type 0 where
  pub is_length : IsLength field
  pub value : length_value field ≡ n
  bytes : All IsByte field
  size : length field ≤ 3

pub length_field-IsField : (n : ℕ) → n ≤ 65535 → IsField n (length_field n)
unfolding length_field
length_field-IsField n h = elim (Bool-cases (ltb n 0x80)) [
  | inl short ↦ rw short (ground arith)
  | inr more ↦ elim (Bool-cases (leb n 0xFF)) [
    | inl one ↦ rw (more, one) (ground arith)
    | inr two ↦ rw (more, two) (ground arith)
  ]
]

-- A cryptogram of at most 65534 bytes is read back from its data object, whatever follows it.
pub parse_cryptogram-cryptogram_object :
    (cryptogram rest : Bytes)
    → length cryptogram ≤ 65534
    → All IsByte cryptogram
    → All IsByte rest
    → InMemory (cryptogram_object cryptogram ++ rest)
    → parse_cryptogram (cryptogram_object cryptogram ++ rest) ≡ ok cryptogram
unfolding parse_cryptogram cryptogram_object
parse_cryptogram-cryptogram_object c rest h bc br mem =
    let inner : ℕ = length c + 1 in
    let f : IsField inner (length_field inner) = length_field-IsField inner (omega arith) in
    let t : Ber.Tlv = record { tag = 0x86; value = 0x01 ∷ c } in
    let bytes : All IsByte (cryptogram_object c ++ rest) = (
      omega arith,
      All-append IsByte (length_field inner ++ (0x01 ∷ c)) rest
          (All-append IsByte (length_field inner) (0x01 ∷ c) f.bytes (omega arith, bc)) br,
    ) in
    let object : IsObject (cryptogram_object c ++ rest) t = record {
      tag_field = 0x86 ∷ [];
      length_field = length_field inner;
      rest = rest;
      is_tag = omega arith;
      is_length = f.is_length;
      tag_value = refl;
      size = f.value ∙ omega arith;
      whole = ap (λ r. 0x86 ∷ r) (append_assoc (length_field inner) (0x01 ∷ c) rest);
    } in
    rw ((ber_parse_iff (cryptogram_object c ++ rest) t bytes mem).1 object)

length-length_field : (n : ℕ) → length (length_field n) ≤ 3
unfolding length_field
length-length_field n = ground arith

-- The object is at most five bytes longer than the cryptogram, and not empty.
pub length-cryptogram_object :
    (c : Bytes) → (0 < length (cryptogram_object c)) × (length (cryptogram_object c) ≤ length c + 5)
unfolding cryptogram_object
length-cryptogram_object c = omega (
  arith,
  length-append (length_field (length c + 1)) (0x01 ∷ c),
  length-length_field (length c + 1),
)
