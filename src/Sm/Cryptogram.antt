-- ===== src/Sm/Cryptogram.antt =====
-- src/sm.rs, `cryptogram_object` and `parse_cryptogram`: the data object of an encrypted field.
pub mod RoundTrip
use myna_card.Prelude.{
  ℕ, ◌+◌, ◌%◌, ◌^◌, [], ◌∷◌, ◌++◌, length, Bytes, ltb, leb, ◌==◌, if◌then◌else◌,
}
use myna_card.Prelude.Words.{to_be_bytes}
use myna_card.Error.{Result, ok, err, ◌>>=◌, malformed}
use myna_card.Tlv.Ber

-- `TAG_CRYPTOGRAM`
abbrev pub tag_cryptogram : ℕ
tag_cryptogram = 0x86

-- `PADDING_INDICATOR`
abbrev pub padding_indicator : ℕ
padding_indicator = 0x01

-- The length field, in the shortest form that fits.
unfoldable pub length_field : ℕ → Bytes
length_field inner =
    if ltb inner 0x80
    then (inner % 2 ^ 8) ∷ []
    else if leb inner 0xFF
    then 0x81 ∷ (inner % 2 ^ 8) ∷ []
    else 0x82 ∷ to_be_bytes inner

unfoldable pub cryptogram_object : Bytes → Bytes
unfolding length_field
cryptogram_object cryptogram =
    tag_cryptogram ∷ (length_field (length cryptogram + 1) ++ (padding_indicator ∷ cryptogram))

-- `match tlv.value.split_first()`
unfoldable pub without_indicator : Bytes → Result Bytes
without_indicator [] = err (malformed "the cryptogram object is empty" [])
without_indicator (b ∷ cryptogram) =
    if b == padding_indicator
    then ok cryptogram
    else err (malformed "padding-content indicator is {other:02X}, expected 01" (b ∷ []))

unfoldable pub parse_cryptogram : Bytes → Result Bytes
unfolding without_indicator
parse_cryptogram response = do
  tlv ← Ber.parse response
  if tlv.tag == tag_cryptogram
      then without_indicator tlv.value
      else err (malformed "expected a cryptogram under tag 86, got {:02X}" (tlv.tag ∷ []))
