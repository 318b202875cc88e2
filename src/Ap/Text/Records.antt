-- ===== src/Ap/Text/Records.antt =====
-- src/ap/text.rs: the records of the text input support application, and checking them.
use myna_card.Prelude.{
  ℕ, suc, ◌-◌, ◌&&◌, Bool, Option, none, some, List, [], ◌∷◌, ◌++◌, length, get_elem?, get_range?,
  take, drop, all, Bytes, String, leb, ◌==◌, if◌then◌else◌,
}
use myna_card.Prelude.Compare.{same_bytes}
use myna_card.Prelude.Utf8.{is_utf8}
use myna_card.Error.{Result, ok, err, ◌>>=◌, ◌>>◌, guard, ok_or, malformed}
use myna_card.Tlv.Ber
use myna_card.Tlv.Ber.{Tlv, parse_header, total_len}
use myna_card.Data.KeyId.{KeyId}
use myna_card.Data.KeyId.Reading
use myna_card.Data.RsaKey.{RsaPublicKey}
use myna_card.Data.RsaKey
use myna_card.Data.Date.{Date}
use myna_card.Data.Date
use myna_card.Data.Person.{Sex, from_byte, MyNumber}
use myna_card.Data.Person
use myna_card.Data.ApIdentification.{ApIdentification}
use myna_card.Data.ApIdentification
use myna_card.Data.Fields.{Field, field_loop, parse_fields, get, bytes_before, checked_fields}
use myna_card.Data.Image.{starts_with}
use myna_card.Data.Signature.{Rsa, verify_pkcs1_sha256}

abbrev pub tag_my_number : ℕ
tag_my_number = 0xFF10

abbrev pub tag_attributes : ℕ
tag_attributes = 0xFF20

abbrev pub tag_offsets : ℕ
tag_offsets = 0xDF21

-- An object of one tag, as its value.
abbrev pub value_of : ℕ → String → Tlv → Result Bytes
value_of tag message tlv = guard (tlv.tag == tag) (malformed message (tlv.tag ∷ [])) >> ok tlv.value

unfoldable pub parse_my_number : Bytes → Result MyNumber
parse_my_number raw = do
  tlv ← Ber.parse raw
  value ← value_of tag_my_number "expected tag FF10, got {:04X}" tlv
  Person.parse value

-- The texts are the bytes of their UTF-8.
pub record Attributes : Type 0 where
  pub name : Bytes
  pub address : Bytes
  pub birth_date : Date
  pub sex : Sex

unfoldable pub decode_text : Bytes → String → Result Bytes
decode_text bytes what = if is_utf8 bytes then ok bytes else err (malformed what [])

-- `Attributes::parse`. The first position is counted back from the end of the bytes.
unfoldable pub parse_attributes : Bytes → Result Attributes
parse_attributes raw = do
  outer ← Ber.parse raw
  value ← value_of tag_attributes "expected tag FF20, got {:04X}" outer
  found ← field_loop (suc (length value)) (some tag_offsets) value (length raw - length value)
  name ← get found.fields 0xDF22
  address ← get found.fields 0xDF23
  birth_date ← get found.fields 0xDF24
  sex ← get found.fields 0xDF25
  checked_fields found
  name_text ← decode_text name "氏名 is not valid UTF-8"
  address_text ← decode_text address "住所 is not valid UTF-8"
  date ← Date.parse birth_date
  sex_byte ← ok_or (get_elem? sex 0) (malformed "性別 is empty" [])
  ok (record {
    name = name_text;
    address = address_text;
    birth_date = date;
    sex = from_byte sex_byte;
  })

-- `Attributes::digest_source`: what stands behind the offset table.
unfoldable pub digest_source : Bytes → Result Bytes
digest_source raw = do
  outer ← Ber.parse raw
  value ← value_of tag_attributes "expected tag FF20, got {:04X}" outer
  table ← parse_header value
  guard (table.tag == tag_offsets) (malformed "the offset table is not the first object" [])
  ok_or (get_range? value (total_len table) (length value))
      (malformed "nothing follows the offset table" [])

-- U+3000
abbrev pub ideographic_space : Bytes
ideographic_space = 0xE3 ∷ 0x80 ∷ 0x80 ∷ []

-- `str::split_once` at an ideographic space, of a text whose first part so far is `before`.
unfoldable pub split_from : Bytes → Bytes → Option (Bytes × Bytes)
split_from before [] = none
split_from before (b ∷ bs) =
    let later = split_from (before ++ (b ∷ [])) bs in
    if starts_with (b ∷ bs) ideographic_space then some (before, drop 3 (b ∷ bs)) else later

unfoldable pub split_name : Attributes → Option (Bytes × Bytes)
unfolding split_from
split_name a = split_from [] a.name

pub record ApBasicData : Type 0 where
  pub identification : ApIdentification
  pub public_key_id : KeyId
  pub trailing : Bytes

-- `ApBasicData::digest`
unfoldable pub digest : ApBasicData → Option Bytes
digest basic =
    if leb 32 (length basic.trailing) && all (λ b. b == 0xFF) (drop 32 basic.trailing)
    then some (take 32 basic.trailing)
    else none

-- `ApBasicData::parse`
unfoldable pub parse_basic_data : Bytes → Result ApBasicData
parse_basic_data raw = do
  f ← parse_fields raw 0xFF40 none
  df41 ← get f 0xDF41
  identification ← ApIdentification.parse df41
  df42 ← get f 0xDF42
  public_key_id ← Reading.parse df42
  trailing ← get f 0xDF43
  ok (record {
    identification = identification;
    public_key_id = public_key_id;
    trailing = trailing;
  })

pub record IntegrityRecord : Type 0 where
  pub my_number_digest : Bytes
  pub attributes_digest : Bytes
  pub signature : Bytes
  pub signed_data : Bytes

-- The closure `digest` of `IntegrityRecord::parse`.
unfoldable pub digest_field : List Field → ℕ → Result Bytes
digest_field f tag = do
  value ← get f tag
  guard (length value == 32) (malformed "{tag:04X} is not a 32 byte digest" (tag ∷ []))
  ok value

-- `IntegrityRecord::parse`
unfoldable pub parse_integrity_record : Bytes → Result IntegrityRecord
unfolding digest_field
parse_integrity_record raw = do
  f ← parse_fields raw 0xFF30 none
  my_number_digest ← digest_field f 0xDF31
  attributes_digest ← digest_field f 0xDF32
  signature ← get f 0xDF33
  signed_data ← bytes_before f 0xDF33
  ok (record {
    my_number_digest = my_number_digest;
    attributes_digest = attributes_digest;
    signature = signature;
    signed_data = signed_data;
  })

pub record SessionKeyPublicKey : Type 0 where
  pub public_key : RsaPublicKey

-- `SessionKeyPublicKey::parse`
unfoldable pub parse_session_key : Bytes → Result SessionKeyPublicKey
parse_session_key raw = do
  outer ← Ber.parse raw
  value ← value_of 0xA1 "expected tag A1, got {:04X}" outer
  key ← RsaKey.parse value
  ok (record { public_key = key })

pub record SignedPublicKey : Type 0 where
  pub public_key : RsaPublicKey
  pub signature : Bytes
  pub signed_data : Bytes

-- `SignedPublicKey::parse`
unfoldable pub parse_signed_key : Bytes → Result SignedPublicKey
parse_signed_key raw = do
  f ← parse_fields raw 0xFF50 none
  df51 ← get f 0xDF51
  public_key ← RsaKey.parse df51
  signature ← get f 0xDF52
  signed_data ← bytes_before f 0xDF52
  ok (record { public_key = public_key; signature = signature; signed_data = signed_data })

module _ (rsa : Rsa) where
  unfoldable pub matches_attributes_file : IntegrityRecord → Bytes → Result Bool
  unfolding digest_source
  matches_attributes_file r attributes = do
    source ← digest_source attributes
    ok (same_bytes (rsa.sha256 source) r.attributes_digest)

  unfoldable pub matches_my_number_file : IntegrityRecord → Bytes → Bool
  matches_my_number_file r physical = same_bytes (rsa.sha256 physical) r.my_number_digest

  unfoldable pub verify_integrity_record : IntegrityRecord → RsaPublicKey → Result (Unit {0})
  verify_integrity_record r issuer = verify_pkcs1_sha256 rsa issuer r.signed_data r.signature

  unfoldable pub verify_signed_key : SignedPublicKey → RsaPublicKey → Result (Unit {0})
  verify_signed_key r issuer = verify_pkcs1_sha256 rsa issuer r.signed_data r.signature
