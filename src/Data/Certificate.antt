-- ===== src/Data/Certificate.antt =====
-- src/data.rs, `CardVerifiableCertificate`: parsing a certificate, and checking it and a chain.
pub mod Linked
use myna_card.Prelude.{
  ℕ, ◌*◌, Option, none, some, List, [], ◌∷◌, length, take, drop, Bytes, ◌==◌, if◌then◌else◌,
}
use myna_card.Prelude.Compare.{same_bytes}
use myna_card.Error.{
  Result, ok, err, stuck, ◌>>=◌, ◌>>◌, guard, ok_or, malformed, unknown_certificate_authority,
}
use myna_card.Tlv.Ber
use myna_card.Tlv.Ber.{Tlv, items}
use myna_card.Data.KeyId.{KeyId}
use myna_card.Data.KeyId.Reading.{key_id_len}
use myna_card.Data.KeyId.Reading
use myna_card.Data.RsaKey.{RsaPublicKey, last_values}
use myna_card.Data.RsaKey
use myna_card.Data.Image.{starts_with}
use myna_card.Data.Signature.{Rsa, verify_pkcs1_sha256}
use myna_card.Data.Authority.{to_public_key, find}

pub record CardVerifiableCertificate : Type 0 where
  pub issuer_key_id : KeyId
  pub subject_key_id : KeyId
  pub public_key : RsaPublicKey
  pub signature : Bytes
  pub signed_data : Bytes

abbrev pub tag_certificate : ℕ
tag_certificate = 0x7F21

abbrev pub tag_body : ℕ
tag_body = 0x5F4E

abbrev pub tag_signature : ℕ
tag_signature = 0x5F37

abbrev pub body_len : ℕ
body_len = 297

-- The objects of the certificate, with or without the template around them.
abbrev pub contents_of : Tlv → Result Bytes
contents_of outer =
    guard (outer.tag == tag_certificate)
      (malformed "expected tag 7F21, got {:04X}" (outer.tag ∷ []))
    >> ok outer.value

unfoldable pub template_contents : Bytes → Result Bytes
unfolding starts_with
template_contents bytes =
    if starts_with bytes (0x7F ∷ 0x21 ∷ []) then Ber.parse bytes >>= contents_of else ok bytes

-- The fields, once the loop over the objects has ended.
unfoldable pub from_objects : Option Bytes × Option Bytes → Result CardVerifiableCertificate
from_objects found = do
  body ← ok_or found.0 (malformed "certificate has no body (tag 5F4E)" [])
  guard (length body == body_len)
      (malformed "certificate body must be {} bytes, got {}" (body_len ∷ length body ∷ []))
  issuer ← Reading.parse (take key_id_len body)
  subject ← Reading.parse (take key_id_len (drop key_id_len body))
  key ← RsaKey.parse (drop (2 * key_id_len) body)
  signature ← ok_or found.1 (malformed "certificate has no signature (tag 5F37)" [])
  ok (record {
    issuer_key_id = issuer;
    subject_key_id = subject;
    public_key = key;
    signature = signature;
    signed_data = body;
  })

unfoldable pub parse : Bytes → Result CardVerifiableCertificate
unfolding template_contents from_objects last_values
parse bytes = do
  contents ← template_contents bytes
  found ← last_values tag_body tag_signature (items contents) none none
  from_objects found

module _ (rsa : Rsa) where
  unfoldable pub verify_with : CardVerifiableCertificate → RsaPublicKey → Result (Unit {0})
  unfolding verify_pkcs1_sha256
  verify_with cert ca_key = verify_pkcs1_sha256 rsa ca_key cert.signed_data cert.signature

  unfoldable pub verify : CardVerifiableCertificate → Result (Unit {0})
  unfolding verify_with
  verify cert = do
    ca ← ok_or (find cert.issuer_key_id) (unknown_certificate_authority cert.issuer_key_id)
    verify_with cert (to_public_key ca)

  -- The loop of `verify_chain` over the certificates behind the first.
  unfoldable pub verify_rest :
      CardVerifiableCertificate → List CardVerifiableCertificate → Result (Unit {0})
  unfolding verify_with
  verify_rest issuer [] = ok tt
  verify_rest issuer (cert ∷ rest) =
      guard (same_bytes cert.issuer_key_id.bytes issuer.subject_key_id.bytes) (
        malformed "chain is broken: a certificate names an issuer the one above does not certify"
          [])
      >> (verify_with cert issuer.public_key >> verify_rest cert rest)

  unfoldable pub verify_chain : List CardVerifiableCertificate → Result (Unit {0})
  unfolding verify verify_rest
  verify_chain [] = err (malformed "an empty chain verifies nothing" [])
  verify_chain (first ∷ rest) = verify first >> verify_rest first rest
