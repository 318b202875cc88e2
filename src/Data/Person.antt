-- ===== src/Data/Person.antt =====
-- src/data.rs: what the card says of a person, and the credentials made from it.
use myna_card.Prelude.{
  ℕ, ◌+◌, ◌/◌, ◌%◌, ◌&&◌, [], ◌∷◌, ◌++◌, length, all, Bytes, ltb, leb, ◌==◌, if◌then◌else◌,
}
use myna_card.Error.{Result, ok, err, ◌>>=◌, ◌>>◌, guard, ok_or, malformed, invalid_pin}
use myna_card.Pin.{Pin, is_ascii_digit, numeric}
use myna_card.Data.Date.{Date, to_era}

pub data Sex : Type 0 where
  male female unknown not_applicable : Sex
  other : ℕ → Sex

unfoldable pub from_byte : ℕ → Sex
from_byte b =
    if b == b'0'
    then unknown
    else if b == b'1'
    then male
    else if b == b'2'
    then female
    else if b == b'9'
    then not_applicable
    else other b

pub record MyNumber : Type 0 where
  pub digits : Bytes

-- `MyNumber::parse`
unfoldable pub parse : Bytes → Result MyNumber
parse bytes =
    if length bytes == 12 && all is_ascii_digit bytes
    then ok (record { digits = bytes })
    else err (malformed "個人番号 must be 12 digits, got {}" bytes)

unfoldable pub as_verification_code_a : MyNumber → Result Pin
as_verification_code_a n = numeric n.digits

-- `{:02}` of a number below 100, and `{:04}` of one below 10000. A `u8` may need three digits, a
-- `u16` five: then as many are written.
abbrev pub digit : ℕ → ℕ
digit n = n % 10 + 48

unfoldable pub two_digits : ℕ → Bytes
two_digits n =
    if ltb n 100
    then digit (n / 10) ∷ digit n ∷ []
    else digit (n / 100) ∷ digit (n / 10) ∷ digit n ∷ []

unfoldable pub four_digits : ℕ → Bytes
four_digits n =
    let low = digit (n / 1000) ∷ digit (n / 100) ∷ digit (n / 10) ∷ digit n ∷ [] in
    if ltb n 10000 then low else digit (n / 10000) ∷ low

unfoldable pub verification_code_b : Date → ℕ → Bytes → Result Pin
unfolding two_digits four_digits
verification_code_b birth_date expiry_year security_code = do
  (era, era_year) ← ok_or (to_era birth_date) (
      malformed "{birth_date} predates the Meiji era"
        (birth_date.year ∷ birth_date.month ∷ birth_date.day ∷ []))
  guard (leb era_year 99)
      (malformed "era year {era_year} does not fit in two digits" (era_year ∷ []))
  guard (length security_code == 4 && all is_ascii_digit security_code)
      (invalid_pin "security code must be 4 digits")
  numeric (
      two_digits era_year
      ++ (two_digits birth_date.month
          ++ (two_digits birth_date.day ++ (four_digits expiry_year ++ security_code))))
