-- ===== src/Data/RsaKey.antt =====
-- src/data.rs, `RsaPublicKey`: a public key as the card stores it.
use myna_card.Prelude.{
  ℕ, ◌-◌, ◌*◌, Option, none, some, List, [], ◌∷◌, length, Bytes, ltb, ◌==◌, if◌then◌else◌,
}
use myna_card.Error.{Result, ok, err, stuck, ◌>>=◌, ok_or, malformed}
use myna_card.Tlv.Ber.{Tlv, items}

pub record RsaPublicKey : Type 0 where
  pub exponent : Bytes
  pub modulus : Bytes

abbrev pub tag_exponent : ℕ
tag_exponent = 0x90

abbrev pub tag_modulus : ℕ
tag_modulus = 0x91

-- The loop over the objects, which keeps the last value of each of two tags. An object that cannot
-- be read ends it with an error. `CardVerifiableCertificate::parse` has the same loop.
unfoldable pub last_values :
    ℕ → ℕ → List (Result Tlv) → Option Bytes → Option Bytes → Result (Option Bytes × Option Bytes)
last_values a b [] x y = ok (x, y)
last_values a b (ok t ∷ rest) x y =
    last_values a b rest (if t.tag == a then some t.value else x)
      (if t.tag == a then y else if t.tag == b then some t.value else y)
last_values a b (err e ∷ rest) x y = err e
last_values a b (stuck ∷ rest) x y = stuck

-- The fields of the key, once the loop has ended.
abbrev pub from_values : Option Bytes × Option Bytes → Result RsaPublicKey
from_values p = do
  exponent ← ok_or p.0 (malformed "no public exponent (tag 90)" [])
  modulus ← ok_or p.1 (malformed "no modulus (tag 91)" [])
  ok (record { exponent = exponent; modulus = modulus })

unfoldable pub parse : Bytes → Result RsaPublicKey
unfolding last_values
parse bytes = do
  values ← last_values tag_exponent tag_modulus (items bytes) none none
  from_values values

-- `u8::leading_zeros`
unfoldable pub leading_zeros : ℕ → ℕ
leading_zeros b =
    if ltb b 1
    then 8
    else if ltb b 2
    then 7
    else if ltb b 4
    then 6
    else if ltb b 8
    then 5
    else if ltb b 16
    then 4
    else if ltb b 32
    then 3
    else if ltb b 64
    then 2
    else if ltb b 128
    then 1
    else 0

-- The size of the modulus in bits: from its first byte that is not zero on.
unfoldable pub bit_size : Bytes → ℕ
unfolding leading_zeros
bit_size [] = 0
bit_size (b ∷ bs) = if b == 0 then bit_size bs else length (b ∷ bs) * 8 - leading_zeros b

unfoldable pub bits : RsaPublicKey → ℕ
unfolding bit_size
bits key = bit_size key.modulus
