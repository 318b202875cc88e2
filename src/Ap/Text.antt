-- ===== src/Ap/Text.antt =====
-- src/ap/text.rs: the text input support application.
pub mod Records
pub mod Unsigned
pub mod Binding
pub mod Filler
use myna_card.Prelude.{ℕ, [], ◌∷◌, Bytes}
use myna_card.Error.{Result}
use myna_card.Action.{Action, lift, ◌>>=◌, ◌>>◌}
use myna_card.Transport.{Transmit}
use myna_card.Pin.{Pin}
use myna_card.Apdu.Command.{with_data_le}
use myna_card.Card.{Card}
use myna_card.Card.Exchange.{call_ok}
use myna_card.Card.Files.{select_df, select_ef, read_binary_all, read_binary_physical}
use myna_card.Card.Keys
use myna_card.Card.Keys.{Retries, pin_retries, change_reference_data}
use myna_card.Ap.Jpki.{ins_compute_signature}
use myna_card.Data.Certificate
use myna_card.Data.Certificate.{CardVerifiableCertificate}
use myna_card.Data.Person.{MyNumber}
use myna_card.Data.Signature.{Rsa, sha256_digest_info}
use myna_card.Sm.Cipher.{Cipher}
use myna_card.Sm.Session.{SecureSession, establish}
use myna_card.Ap.Text.Records.{
  Attributes, ApBasicData, IntegrityRecord, SessionKeyPublicKey, SignedPublicKey, parse_my_number,
  parse_attributes, parse_basic_data, parse_integrity_record, parse_session_key, parse_signed_key,
}

-- `DF`
abbrev pub df : Bytes
df = 0xD3 ∷ 0x92 ∷ 0x10 ∷ 0x00 ∷ 0x31 ∷ 0x00 ∷ 0x01 ∷ 0x01 ∷ 0x04 ∷ 0x08 ∷ []

abbrev pub ef_my_number : ℕ
ef_my_number = 0x0001

abbrev pub ef_attributes : ℕ
ef_attributes = 0x0002

abbrev pub ef_integrity : ℕ
ef_integrity = 0x0003

abbrev pub ef_certificate : ℕ
ef_certificate = 0x0004

abbrev pub ef_ap_basic_data : ℕ
ef_ap_basic_data = 0x0005

abbrev pub ef_session_key_public_key : ℕ
ef_session_key_public_key = 0x0006

abbrev pub ef_signed_public_key : ℕ
ef_signed_public_key = 0x0007

abbrev pub ef_pin : ℕ
ef_pin = 0x0011

abbrev pub ef_code_a : ℕ
ef_code_a = 0x0014

abbrev pub ef_code_b : ℕ
ef_code_b = 0x0015

module _ {T : Type 0} ⦃link : Transmit T⦄ (fuel : ℕ) where
  unfoldable pub select : Action (Card T) (Unit {0})
  select = select_df fuel df

  unfoldable pub read_ef : ℕ → Action (Card T) Bytes
  read_ef id = select_ef fuel id >> read_binary_all fuel

  -- A file that is read in full and then parsed.
  abbrev pub read_parsed : {A : Type 0} → ℕ → (Bytes → Result A) → Action (Card T) A
  read_parsed id parse = read_ef id >>= λ raw. lift (parse raw)

  unfoldable pub read_my_number : Action (Card T) MyNumber
  read_my_number = read_parsed ef_my_number parse_my_number

  unfoldable pub read_attributes : Action (Card T) Attributes
  read_attributes = read_parsed ef_attributes parse_attributes

  unfoldable pub read_certificate : Action (Card T) CardVerifiableCertificate
  read_certificate = read_parsed ef_certificate Certificate.parse

  unfoldable pub read_ap_basic_data : Action (Card T) ApBasicData
  read_ap_basic_data = read_parsed ef_ap_basic_data parse_basic_data

  unfoldable pub read_integrity_record : Action (Card T) IntegrityRecord
  read_integrity_record = read_parsed ef_integrity parse_integrity_record

  unfoldable pub read_signed_public_key : Action (Card T) SignedPublicKey
  read_signed_public_key = read_parsed ef_signed_public_key parse_signed_key

  unfoldable pub read_session_key_public_key : Action (Card T) SessionKeyPublicKey
  read_session_key_public_key = read_parsed ef_session_key_public_key parse_session_key

  unfoldable pub read_my_number_file : Action (Card T) Bytes
  read_my_number_file = select_ef fuel ef_my_number >> read_binary_physical fuel

  unfoldable pub sign : Rsa → Bytes → Action (Card T) Bytes
  sign rsa bytes = call_ok fuel (
      with_data_le 0x80 ins_compute_signature 0x00 0x00 (sha256_digest_info (rsa.sha256 bytes)) 256)

  unfoldable pub open_secure_session : Cipher → Bytes → Action (Card T) (SecureSession T)
  open_secure_session cipher seed = do
    found ← read_session_key_public_key
    establish cipher fuel found.public_key seed

  unfoldable pub verify_key : ℕ → Pin → Action (Card T) (Unit {0})
  verify_key key value = select_ef fuel key >> Keys.verify fuel value

  unfoldable pub verify_pin : Pin → Action (Card T) (Unit {0})
  unfolding verify_key
  verify_pin pin = verify_key ef_pin pin

  unfoldable pub change_pin : Pin → Pin → Action (Card T) (Unit {0})
  change_pin current_pin new_pin =
      select_ef fuel ef_pin >> (Keys.verify fuel current_pin >> change_reference_data fuel new_pin)

  unfoldable pub verify_code_a : Pin → Action (Card T) (Unit {0})
  unfolding verify_key
  verify_code_a code = verify_key ef_code_a code

  unfoldable pub verify_code_b : Pin → Action (Card T) (Unit {0})
  unfolding verify_key
  verify_code_b code = verify_key ef_code_b code

  unfoldable pub retries : ℕ → Action (Card T) Retries
  retries key = select_ef fuel key >> pin_retries fuel
