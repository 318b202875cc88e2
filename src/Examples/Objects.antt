-- ===== src/Examples/Objects.antt =====
-- Files of TLV objects, in the encodings of src/tlv/ber.rs and src/tlv/simple.rs.
use myna_card.Prelude.{
  ◌+◌, ◌*◌, ◌≤◌, ◌≡◌, refl, ◌↔◌, List, [], ◌∷◌, ◌++◌, length, Bytes, IsByte, All, inr, arith,
}
use myna_card.Error.{ok}
use myna_card.Tlv.Ber
use myna_card.Tlv.Simple
use myna_card.Tlv.Ber.Objects.{IsObject, ber_parse_iff}
use myna_card.Tlv.Ber.Iteration.{ber_items-encode_all}
use myna_card.Tlv.Ber.Ending.{ber_items_end}
use myna_card.Tlv.Simple.Format.{Form, Fits, encode, simple_parse_iff}

-- An object of the two byte tag 5F51 with a long length of one byte, and filler behind it.
abbrev ber_bytes : Bytes
ber_bytes = 0x5F ∷ 0x51 ∷ 0x81 ∷ 0x02 ∷ 0xAA ∷ 0xBB ∷ 0xFF ∷ []

ber_bytes-IsByte : All IsByte ber_bytes
ber_bytes-IsByte = (
  omega arith,
  (omega arith, (omega arith, (omega arith, (omega arith, (omega arith, (omega arith, tt)))))),
)

ber_parse_iff_example :
    (Ber.parse ber_bytes ≡ ok (record { tag = 0x5F51; value = 0xAA ∷ 0xBB ∷ [] }))
    ↔ IsObject ber_bytes (record { tag = 0x5F51; value = 0xAA ∷ 0xBB ∷ [] })
ber_parse_iff_example =
    ber_parse_iff ber_bytes (record { tag = 0x5F51; value = 0xAA ∷ 0xBB ∷ [] }) ber_bytes-IsByte
      (omega arith)

abbrev ber_objects : List Ber.Iteration.Object
ber_objects =
    record {
      first = 0x5F;
      tag_rest = 0x51 ∷ [];
      length_field = 0x81 ∷ 0x02 ∷ [];
      value = 0xAA ∷ 0xBB ∷ [];
    }
    ∷ []

ber_items-encode_all_example :
    Ber.items (Ber.Iteration.encode_all ber_objects ++ (0xFF ∷ []))
    ≡ Ber.Iteration.yields ber_objects
ber_items-encode_all_example =
    ber_items-encode_all ber_objects (0xFF ∷ [])
      (
        record {
          is_tag = (refl, omega arith);
          is_length = (refl, omega arith);
          size = refl;
          not_zero = omega arith;
          not_erased = omega arith;
        },
        tt,
      )
      (inr refl) ber_bytes-IsByte (omega arith)

ber_items_end_example :
    Ber.Ending.Ends (Ber.items ber_bytes)
    × (2 * length (Ber.items ber_bytes) ≤ length ber_bytes + 1)
ber_items_end_example = ber_items_end ber_bytes ber_bytes-IsByte

abbrev first_object : Simple.Tlv
first_object = record { tag = 0x01; value = 0xAA ∷ [] }

simple_parse_iff_example : (Simple.parse (0x01 ∷ 0x01 ∷ 0xAA ∷ []) ≡ ok first_object) ↔ (
    (f : Form) × (rest : Bytes) × Fits f first_object
    × ((0x01 ∷ 0x01 ∷ 0xAA ∷ []) ≡ encode f first_object ++ rest))
simple_parse_iff_example =
    simple_parse_iff (0x01 ∷ 0x01 ∷ 0xAA ∷ []) first_object
      (omega arith, (omega arith, (omega arith, tt)))
