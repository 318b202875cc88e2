-- ===== src/Ap/Surface.antt =====
-- src/ap/surface.rs: the card surface verification application.
pub mod Records
pub mod Authentic
pub mod Served
use myna_card.Prelude.{ℕ, [], ◌∷◌, Bytes}
use myna_card.Action.{Action, lift, ◌>>=◌, ◌>>◌}
use myna_card.Transport.{Transmit}
use myna_card.Pin.{Pin}
use myna_card.Apdu.Command.{with_data_le}
use myna_card.Card.{Card}
use myna_card.Card.Exchange.{call_ok}
use myna_card.Card.Files.{select_df, select_ef, read_binary_all}
use myna_card.Card.Keys
use myna_card.Card.Keys.{Retries, pin_retries}
use myna_card.Ap.Jpki.{ins_compute_signature}
use myna_card.Data.Certificate
use myna_card.Data.Certificate.{CardVerifiableCertificate}
use myna_card.Data.Signature.{Rsa, sha256_digest_info}
use myna_card.Ap.Surface.Records.{
  ApBasicData, AgeRecord, CardFace, MyNumberImage, parse_basic_data, parse_age_record,
  parse_card_face, parse_my_number_image,
}

-- `DF`
abbrev pub df : Bytes
df = 0xD3 ∷ 0x92 ∷ 0x10 ∷ 0x00 ∷ 0x31 ∷ 0x00 ∷ 0x01 ∷ 0x01 ∷ 0x04 ∷ 0x02 ∷ []

abbrev pub ef_age_record : ℕ
ef_age_record = 0x0001

abbrev pub ef_card_face : ℕ
ef_card_face = 0x0002

abbrev pub ef_ap_basic_data : ℕ
ef_ap_basic_data = 0x0003

abbrev pub ef_certificate : ℕ
ef_certificate = 0x0004

abbrev pub ef_my_number_image : ℕ
ef_my_number_image = 0x0005

abbrev pub ef_birth_date : ℕ
ef_birth_date = 0x0011

abbrev pub ef_code_b : ℕ
ef_code_b = 0x0012

abbrev pub ef_code_a : ℕ
ef_code_a = 0x0013

module _ {T : Type 0} ⦃link : Transmit T⦄ (fuel : ℕ) where
  unfoldable pub select : Action (Card T) (Unit {0})
  select = select_df fuel df

  unfoldable pub read_ef : ℕ → Action (Card T) Bytes
  read_ef id = select_ef fuel id >> read_binary_all fuel

  unfoldable pub read_ap_basic_data : Action (Card T) ApBasicData
  unfolding read_ef
  read_ap_basic_data = do raw ← read_ef ef_ap_basic_data; lift (parse_basic_data raw)

  unfoldable pub read_age_record : Action (Card T) AgeRecord
  unfolding read_ef
  read_age_record = do raw ← read_ef ef_age_record; lift (parse_age_record raw)

  unfoldable pub read_card_face : Action (Card T) CardFace
  unfolding read_ef
  read_card_face = do raw ← read_ef ef_card_face; lift (parse_card_face raw)

  unfoldable pub read_my_number_image : Action (Card T) MyNumberImage
  unfolding read_ef
  read_my_number_image = do raw ← read_ef ef_my_number_image; lift (parse_my_number_image raw)

  unfoldable pub read_certificate : Action (Card T) CardVerifiableCertificate
  unfolding read_ef
  read_certificate = do raw ← read_ef ef_certificate; lift (Certificate.parse raw)

  unfoldable pub sign : Rsa → Bytes → Action (Card T) Bytes
  sign rsa bytes = call_ok fuel (
      with_data_le 0x80 ins_compute_signature 0x00 0x00 (sha256_digest_info (rsa.sha256 bytes)) 256)

  unfoldable pub verify_birth_date : Pin → Action (Card T) (Unit {0})
  verify_birth_date code = select_ef fuel ef_birth_date >> Keys.verify fuel code

  unfoldable pub verify_code_a : Pin → Action (Card T) (Unit {0})
  verify_code_a code = select_ef fuel ef_code_a >> Keys.verify fuel code

  unfoldable pub verify_code_b : Pin → Action (Card T) (Unit {0})
  verify_code_b code = select_ef fuel ef_code_b >> Keys.verify fuel code

  unfoldable pub retries : ℕ → Action (Card T) Retries
  retries key = select_ef fuel key >> pin_retries fuel
