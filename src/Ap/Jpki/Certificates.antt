-- ===== src/Ap/Jpki/Certificates.antt =====
-- src/ap/jpki.rs: the methods that parse the certificates they read, and those that check a
-- signature by one.
use myna_card.Prelude.{ℕ, Bytes}
use myna_card.Error.{ok}
use myna_card.Action.{Action, lift, ◌>>=◌}
use myna_card.Transport.{Transmit}
use myna_card.Card.{Card}
use myna_card.X509.{Decoder, X509Certificate, parse, public_key}
use myna_card.Data.Signature.{Rsa}
use myna_card.Ap.Scheme.{SignatureScheme}
use myna_card.Ap.Jpki.{
  read_auth_certificate_der, read_auth_ca_certificate_der, read_sign_certificate_der,
  read_sign_ca_certificate_der, sign_with_auth_key, sign_with_sign_key, verify_signature,
}

module _ {T : Type 0} ⦃link : Transmit T⦄ (fuel : ℕ) (d : Decoder) where
  abbrev parsed : Action (Card T) Bytes → Action (Card T) (X509Certificate d)
  parsed read = read >>= λ der. lift (parse d der)

  unfoldable pub read_auth_certificate : Action (Card T) (X509Certificate d)
  read_auth_certificate = parsed (read_auth_certificate_der fuel)

  unfoldable pub read_auth_ca_certificate : Action (Card T) (X509Certificate d)
  read_auth_ca_certificate = parsed (read_auth_ca_certificate_der fuel)

  unfoldable pub read_sign_certificate : Action (Card T) (X509Certificate d)
  read_sign_certificate = parsed (read_sign_certificate_der fuel)

  unfoldable pub read_sign_ca_certificate : Action (Card T) (X509Certificate d)
  read_sign_ca_certificate = parsed (read_sign_ca_certificate_der fuel)

  unfoldable pub sign_with_auth_key_checked : Rsa → SignatureScheme → Bytes → Action (Card T) Bytes
  unfolding read_auth_certificate
  sign_with_auth_key_checked rsa scheme bytes = do
    cert ← read_auth_certificate
    key ← lift (public_key d cert)
    signature ← sign_with_auth_key fuel scheme bytes
    _ ← lift (verify_signature rsa scheme key bytes signature)
    lift (ok signature)

  unfoldable pub sign_with_sign_key_checked : Rsa → SignatureScheme → Bytes → Action (Card T) Bytes
  unfolding read_sign_certificate
  sign_with_sign_key_checked rsa scheme bytes = do
    cert ← read_sign_certificate
    key ← lift (public_key d cert)
    signature ← sign_with_sign_key fuel scheme bytes
    _ ← lift (verify_signature rsa scheme key bytes signature)
    lift (ok signature)
