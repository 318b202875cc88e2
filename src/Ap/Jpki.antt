-- ===== src/Ap/Jpki.antt =====
-- src/ap/jpki.rs: the JPKI application. Certificates are read as their DER here.
pub mod Certificates
pub mod Signing
use myna_card.Prelude.{ℕ, true, false, [], ◌∷◌, length, Bytes, if◌then◌else◌, bit_or}
use myna_card.Error.{Result, ok, err, guard, bad_signing_input}
use myna_card.Action.{Action, lift, ◌>>=◌, ◌>>◌}
use myna_card.Transport.{Transmit}
use myna_card.Apdu.Command.{with_data_le}
use myna_card.Ap.Scheme.{
  SignatureScheme, verbatim, sha256_bare, pre_hashed_digest_info, sha256_digest_info,
  pre_hashed_pss, sha256_pss, p1, allows,
}
use myna_card.Card.{Card}
use myna_card.Card.Exchange.{call_ok}
use myna_card.Card.Files.{from_ef_id, select_df, select_ef, read_binary_all, read_binary_physical}
use myna_card.Card.Keys
use myna_card.Card.Keys.{Retries, pin_retries, change_reference_data}
use myna_card.Pin.{Pin}
use myna_card.Data.RsaKey.{RsaPublicKey}
use myna_card.Data.Signature
use myna_card.Data.Signature.{
  Rsa, verify_pkcs1, verify_pkcs1_sha256, verify_pss_prehashed, verify_pss_sha256,
}
use myna_card.Ap.Token.{
  TokenType, TokenInfo, CertificateAvailability, token_type_of, parse_token_info,
  parse_availability,
}

-- `ins::COMPUTE_SIGNATURE`
abbrev pub ins_compute_signature : ℕ
ins_compute_signature = 0x2A

-- `DF`
abbrev pub df : Bytes
df = 0xD3 ∷ 0x92 ∷ 0xF0 ∷ 0x00 ∷ 0x26 ∷ 0x01 ∷ 0x00 ∷ 0x00 ∷ 0x00 ∷ 0x01 ∷ []

abbrev pub ef_sign_certificate : ℕ
ef_sign_certificate = 0x0001

abbrev pub ef_sign_ca_certificate : ℕ
ef_sign_ca_certificate = 0x0002

abbrev pub ef_token_info : ℕ
ef_token_info = 0x0006

abbrev pub ef_certificate_availability : ℕ
ef_certificate_availability = 0x0008

abbrev pub ef_auth_certificate : ℕ
ef_auth_certificate = 0x000A

abbrev pub ef_auth_ca_certificate : ℕ
ef_auth_ca_certificate = 0x000B

abbrev pub ef_auth_key : ℕ
ef_auth_key = 0x0017

abbrev pub ef_auth_pin : ℕ
ef_auth_pin = 0x0018

abbrev pub ef_sign_key : ℕ
ef_sign_key = 0x001A

abbrev pub ef_sign_pin : ℕ
ef_sign_pin = 0x001B

-- `SignatureScheme::verify`
unfoldable pub verify_signature :
    Rsa → SignatureScheme → RsaPublicKey → Bytes → Bytes → Result (Unit {0})
verify_signature rsa verbatim key bytes signature = verify_pkcs1 rsa key bytes signature
verify_signature rsa sha256_bare key bytes signature =
    verify_pkcs1 rsa key (rsa.sha256 bytes) signature
verify_signature rsa pre_hashed_digest_info key bytes signature =
    verify_pkcs1 rsa key (Signature.sha256_digest_info bytes) signature
verify_signature rsa sha256_digest_info key bytes signature =
    verify_pkcs1_sha256 rsa key bytes signature
verify_signature rsa pre_hashed_pss key bytes signature =
    verify_pss_prehashed rsa key bytes signature
verify_signature rsa sha256_pss key bytes signature = verify_pss_sha256 rsa key bytes signature

-- `SignatureScheme::check_input`
unfoldable pub check_input : SignatureScheme → Bytes → Result (Unit {0})
check_input scheme bytes =
    guard (allows scheme (length bytes)) (bad_signing_input scheme (length bytes))

module _ {T : Type 0} ⦃link : Transmit T⦄ (fuel : ℕ) where
  unfoldable pub sign : ℕ → SignatureScheme → Bytes → Action (Card T) Bytes
  unfolding check_input
  sign key scheme bytes = do
    lift (check_input scheme bytes)
    sfi ← lift (from_ef_id key)
    call_ok fuel
        (with_data_le 0x80 ins_compute_signature (p1 scheme) (bit_or 0x80 sfi.value) bytes 256)

  unfoldable pub sign_with_auth_key : SignatureScheme → Bytes → Action (Card T) Bytes
  unfolding sign
  sign_with_auth_key scheme bytes = sign ef_auth_key scheme bytes

  unfoldable pub sign_with_sign_key : SignatureScheme → Bytes → Action (Card T) Bytes
  unfolding sign
  sign_with_sign_key scheme bytes = sign ef_sign_key scheme bytes

  unfoldable pub select : Action (Card T) (Unit {0})
  select = select_df fuel df

  unfoldable pub read_ef : ℕ → Action (Card T) Bytes
  read_ef id = select_ef fuel id >> read_binary_all fuel

  unfoldable pub read_token_type : Action (Card T) TokenType
  read_token_type = do
    select_ef fuel ef_token_info
    raw ← read_binary_physical fuel
    lift (ok (token_type_of raw))

  unfoldable pub read_token_info : Action (Card T) TokenInfo
  read_token_info = do
    select_ef fuel ef_token_info
    raw ← read_binary_physical fuel
    lift (parse_token_info raw)

  unfoldable pub read_certificate_availability : Action (Card T) CertificateAvailability
  read_certificate_availability = do
    select_ef fuel ef_certificate_availability
    raw ← read_binary_physical fuel
    lift (parse_availability raw)

  unfoldable pub read_auth_certificate_der : Action (Card T) Bytes
  unfolding read_ef
  read_auth_certificate_der = read_ef ef_auth_certificate

  unfoldable pub read_auth_ca_certificate_der : Action (Card T) Bytes
  unfolding read_ef
  read_auth_ca_certificate_der = read_ef ef_auth_ca_certificate

  unfoldable pub read_sign_certificate_der : Action (Card T) Bytes
  unfolding read_ef
  read_sign_certificate_der = read_ef ef_sign_certificate

  unfoldable pub read_sign_ca_certificate_der : Action (Card T) Bytes
  unfolding read_ef
  read_sign_ca_certificate_der = read_ef ef_sign_ca_certificate

  unfoldable pub verify_auth_pin : Pin → Action (Card T) (Unit {0})
  verify_auth_pin pin = select_ef fuel ef_auth_pin >> Keys.verify fuel pin

  unfoldable pub verify_sign_pin : Pin → Action (Card T) (Unit {0})
  verify_sign_pin pin = select_ef fuel ef_sign_pin >> Keys.verify fuel pin

  unfoldable pub change_pin : ℕ → Pin → Pin → Action (Card T) (Unit {0})
  change_pin key current_pin new_pin =
      select_ef fuel key >> (Keys.verify fuel current_pin >> change_reference_data fuel new_pin)

  unfoldable pub change_auth_pin : Pin → Pin → Action (Card T) (Unit {0})
  unfolding change_pin
  change_auth_pin current_pin new_pin = change_pin ef_auth_pin current_pin new_pin

  unfoldable pub change_sign_pin : Pin → Pin → Action (Card T) (Unit {0})
  unfolding change_pin
  change_sign_pin current_pin new_pin = change_pin ef_sign_pin current_pin new_pin

  unfoldable pub auth_pin_retries : Action (Card T) Retries
  auth_pin_retries = select_ef fuel ef_auth_pin >> pin_retries fuel

  unfoldable pub sign_pin_retries : Action (Card T) Retries
  sign_pin_retries = select_ef fuel ef_sign_pin >> pin_retries fuel
