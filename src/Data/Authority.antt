-- ===== src/Data/Authority.antt =====
-- src/ca.rs: the keys of the certificate authorities, looked up by their identifiers.
pub mod Moduli
use myna_card.Prelude.{
  Option, none, some, List, [], ◌∷◌, take, Bytes, if◌then◌else◌, Bool, true, false,
}
use myna_card.Prelude.Compare.{same_bytes}
use myna_card.Data.KeyId.{KeyId}
use myna_card.Data.RsaKey.{RsaPublicKey}
use myna_card.Data.Authority.Moduli.{
  modulus_5000020, modulus_5000023, modulus_5000033, modulus_6000020, modulus_6000023,
  modulus_6000033,
}

pub record CaKey : Type 0 where
  pub key_id : Bytes
  pub modulus : Bytes
  pub exponent : Bytes

unfoldable pub to_public_key : CaKey → RsaPublicKey
to_public_key k = record { exponent = k.exponent; modulus = k.modulus }

-- `CaKey::name`: the bytes of the name.
unfoldable pub name : CaKey → Bytes
name k = take 7 k.key_id

abbrev pub e65537 : Bytes
e65537 = 0x01 ∷ 0x00 ∷ 0x01 ∷ []

abbrev pub ca_key : Bytes → Bytes → CaKey
ca_key id modulus = record { key_id = id; modulus = modulus; exponent = e65537 }

abbrev pub known : List CaKey
known =
    ca_key
      (0x35 ∷ 0x30 ∷ 0x30 ∷ 0x30 ∷ 0x30 ∷ 0x32 ∷ 0x30 ∷ 0x08 ∷ 0x05 ∷ 0x30 ∷ 0x30 ∷ 0x31 ∷ 0x00
        ∷ 0x00 ∷ 0x00 ∷ 0xA8 ∷ [])
      modulus_5000020
    ∷ ca_key
        (0x35 ∷ 0x30 ∷ 0x30 ∷ 0x30 ∷ 0x30 ∷ 0x32 ∷ 0x33 ∷ 0x08 ∷ 0x05 ∷ 0x30 ∷ 0x30 ∷ 0x31 ∷ 0x00
          ∷ 0x00 ∷ 0x00 ∷ 0x00 ∷ [])
        modulus_5000023
    ∷ ca_key
        (0x35 ∷ 0x30 ∷ 0x30 ∷ 0x30 ∷ 0x30 ∷ 0x33 ∷ 0x33 ∷ 0x08 ∷ 0x05 ∷ 0x30 ∷ 0x30 ∷ 0x31 ∷ 0x00
          ∷ 0x00 ∷ 0x00 ∷ 0x00 ∷ [])
        modulus_5000033
    ∷ ca_key
        (0x36 ∷ 0x30 ∷ 0x30 ∷ 0x30 ∷ 0x30 ∷ 0x32 ∷ 0x30 ∷ 0x08 ∷ 0x05 ∷ 0x30 ∷ 0x30 ∷ 0x31 ∷ 0x00
          ∷ 0x00 ∷ 0x00 ∷ 0xA8 ∷ [])
        modulus_6000020
    ∷ ca_key
        (0x36 ∷ 0x30 ∷ 0x30 ∷ 0x30 ∷ 0x30 ∷ 0x32 ∷ 0x33 ∷ 0x08 ∷ 0x05 ∷ 0x30 ∷ 0x30 ∷ 0x31 ∷ 0x00
          ∷ 0x00 ∷ 0x00 ∷ 0x00 ∷ [])
        modulus_6000023
    ∷ ca_key
        (0x36 ∷ 0x30 ∷ 0x30 ∷ 0x30 ∷ 0x30 ∷ 0x33 ∷ 0x33 ∷ 0x08 ∷ 0x05 ∷ 0x30 ∷ 0x30 ∷ 0x31 ∷ 0x00
          ∷ 0x00 ∷ 0x00 ∷ 0x00 ∷ [])
        modulus_6000033
    ∷ []

-- `Iterator::find` over a table of keys, and the lookup in the crate's table.
unfoldable pub find_key : List CaKey → Bytes → Option CaKey
find_key [] id = none
find_key (k ∷ ks) id = if same_bytes k.key_id id then some k else find_key ks id

unfoldable pub find : KeyId → Option CaKey
unfolding find_key
find id = find_key known id.bytes
