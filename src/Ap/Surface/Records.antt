-- ===== src/Ap/Surface/Records.antt =====
-- src/ap/surface.rs: the records of the card surface verification application, and checking them.
use myna_card.Prelude.{ℕ, none, some, [], ◌∷◌, ◌++◌, length, get_elem?, take, drop, Bytes, leb}
use myna_card.Prelude.Utf8.{utf8_lossy}
use myna_card.Error.{Result, ok, ◌>>=◌, ◌>>◌, guard, ok_or, malformed}
use myna_card.Data.KeyId.{KeyId}
use myna_card.Data.KeyId.Reading
use myna_card.Data.KeyId.Reading.{key_id_len}
use myna_card.Data.RsaKey.{RsaPublicKey}
use myna_card.Data.RsaKey
use myna_card.Data.Date.{Date}
use myna_card.Data.Date
use myna_card.Data.Person.{Sex, from_byte}
use myna_card.Data.ApIdentification.{ApIdentification}
use myna_card.Data.ApIdentification
use myna_card.Data.Image.{Image, image}
use myna_card.Data.Fields.{parse_fields, get, bytes_before, bytes_of}
use myna_card.Data.Signature.{Rsa, sha256_digest_info, verify_pkcs1, verify_pkcs1_sha256}

pub record EncryptedReferenceNumber : Type 0 where
  pub key_id : KeyId
  pub bytes : Bytes

pub record ApBasicData : Type 0 where
  pub identification : ApIdentification
  pub public_key_id : KeyId
  pub version : ℕ
  pub municipality_code : Bytes
  pub encrypted_reference_number : EncryptedReferenceNumber

-- `ApBasicData::parse`
unfoldable pub parse_basic_data : Bytes → Result ApBasicData
parse_basic_data raw = do
  f ← parse_fields raw 0xFF30 none
  version ← get f 0xDF33
  df35 ← get f 0xDF35
  guard (leb key_id_len (length df35))
      (malformed "DF35 is {} bytes, too short to contain its 16 byte reference" (length df35 ∷ []))
  df31 ← get f 0xDF31
  identification ← ApIdentification.parse df31
  df32 ← get f 0xDF32
  public_key_id ← Reading.parse df32
  version_byte ← ok_or (get_elem? version 0) (malformed "version field is empty" [])
  df34 ← get f 0xDF34
  key_id ← Reading.parse (take key_id_len df35)
  ok (record {
    identification = identification;
    public_key_id = public_key_id;
    version = version_byte;
    municipality_code = utf8_lossy df34;
    encrypted_reference_number = record { key_id = key_id; bytes = drop key_id_len df35 };
  })

pub record AgeRecord : Type 0 where
  pub birth_date : Date
  pub public_key : RsaPublicKey
  pub signature : Bytes
  pub signed_data : Bytes

-- `AgeRecord::parse`
unfoldable pub parse_age_record : Bytes → Result AgeRecord
parse_age_record raw = do
  f ← parse_fields raw 0xFF10 none
  df11 ← get f 0xDF11
  birth_date ← Date.parse df11
  df12 ← get f 0xDF12
  public_key ← RsaKey.parse df12
  signature ← get f 0xDF13
  signed_data ← bytes_before f 0xDF13
  ok (record {
    birth_date = birth_date;
    public_key = public_key;
    signature = signature;
    signed_data = signed_data;
  })

pub record CardFace : Type 0 where
  pub birth_date : Date
  pub sex : Sex
  pub public_key : RsaPublicKey
  pub name_image : Image
  pub address_image : Image
  pub photo : Image
  pub signature : Bytes
  pub expiry : Date
  pub security_code_image : Image
  pub signed_segments : Bytes × Bytes × Bytes

-- `CardFace::parse`
unfoldable pub parse_card_face : Bytes → Result CardFace
parse_card_face raw = do
  f ← parse_fields raw 0xFF20 (some 0xDF21)
  df22 ← get f 0xDF22
  birth_date ← Date.parse df22
  df23 ← get f 0xDF23
  sex ← ok_or (get_elem? df23 0) (malformed "性別 is empty" [])
  df24 ← get f 0xDF24
  public_key ← RsaKey.parse df24
  df25 ← get f 0xDF25
  df26 ← get f 0xDF26
  df27 ← get f 0xDF27
  signature ← get f 0xDF28
  df29 ← get f 0xDF29
  expiry ← Date.parse df29
  df2a ← get f 0xDF2A
  first ← bytes_of f (0xDF22 ∷ 0xDF23 ∷ 0xDF24 ∷ [])
  second ← bytes_of f (0xDF25 ∷ 0xDF26 ∷ [])
  third ← bytes_of f (0xDF27 ∷ [])
  ok (record {
    birth_date = birth_date;
    sex = from_byte sex;
    public_key = public_key;
    name_image = image df25;
    address_image = image df26;
    photo = image df27;
    signature = signature;
    expiry = expiry;
    security_code_image = image df2a;
    signed_segments = (first, second, third);
  })

pub record MyNumberImage : Type 0 where
  pub picture : Image
  pub public_key : RsaPublicKey
  pub signature : Bytes
  pub signed_data : Bytes

-- `MyNumberImage::parse`
unfoldable pub parse_my_number_image : Bytes → Result MyNumberImage
parse_my_number_image raw = do
  f ← parse_fields raw 0xFF40 none
  df41 ← get f 0xDF41
  df42 ← get f 0xDF42
  public_key ← RsaKey.parse df42
  signature ← get f 0xDF43
  signed_data ← bytes_before f 0xDF43
  ok (record {
    picture = image df41;
    public_key = public_key;
    signature = signature;
    signed_data = signed_data;
  })

module _ (rsa : Rsa) where
  unfoldable pub verify_age_record : AgeRecord → RsaPublicKey → Result (Unit {0})
  verify_age_record r issuer = verify_pkcs1_sha256 rsa issuer r.signed_data r.signature

  unfoldable pub verify_my_number_image : MyNumberImage → RsaPublicKey → Result (Unit {0})
  verify_my_number_image r issuer = verify_pkcs1_sha256 rsa issuer r.signed_data r.signature

  -- `CardFace::verify`: each of the three groups is hashed, and the digests stand one after the
  -- other.
  unfoldable pub verify_card_face : CardFace → RsaPublicKey → Result (Unit {0})
  verify_card_face r issuer =
      let (first, second, third) = r.signed_segments in
      verify_pkcs1 rsa issuer
        (sha256_digest_info (rsa.sha256 first ++ (rsa.sha256 second ++ rsa.sha256 third)))
        r.signature
