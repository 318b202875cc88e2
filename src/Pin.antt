-- ===== src/Pin.antt =====
-- src/pin.rs: a secret to present with VERIFY. That the buffer is zeroed on drop is not modelled.
pub mod Accepted
use myna_card.Prelude.{
  ℕ, Bool, true, false, ◌&&◌, [], ◌∷◌, length, all, Bytes, ltb, leb, if◌then◌else◌,
}
use myna_card.Error.{Result, ok, err, ◌>>=◌, invalid_pin}

pub record Pin : Type 0 where
  pub bytes : Bytes

-- `Pin::MAX_LEN`
abbrev pub max_len : ℕ
max_len = 16

-- `(0x20..0x7F).contains(b)`
abbrev pub is_printable : ℕ → Bool
is_printable b = leb 0x20 b && ltb b 0x7F

-- `u8::is_ascii_digit`
abbrev pub is_ascii_digit : ℕ → Bool
is_ascii_digit b = leb b'0' b && leb b b'9'

abbrev is_empty : Bytes → Bool
is_empty [] = true
is_empty (_ ∷ _) = false

-- `Pin::new`
unfoldable pub new : Bytes → Result Pin
new value =
    if is_empty value
    then err (invalid_pin "must not be empty")
    else if ltb max_len (length value)
    then err (invalid_pin "must not exceed 16 bytes")
    else if all is_printable value
    then ok (record { bytes = value })
    else err (invalid_pin "must consist of printable ASCII")

unfoldable pub numeric : Bytes → Result Pin
unfolding new
numeric value = do
  pin ← new value
  if all is_ascii_digit pin.bytes
      then ok pin
      else err (invalid_pin "must consist of decimal digits")
