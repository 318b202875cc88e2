-- ===== src/Data/Signature.antt =====
-- src/data.rs: checking signatures by a public key. RSA and SHA-256 are third-party code.
use myna_card.Prelude.{
  ◌+◌, ◌%◌, ◌^◌, Bool, Option, [], ◌∷◌, ◌++◌, length, Bytes, ltb, if◌then◌else◌,
}
use myna_card.Error.{Result, ◌>>=◌, guard, ok_or, signature_invalid}
use myna_card.Data.RsaKey.{RsaPublicKey}

-- What the crate calls of its dependencies: making a key of a modulus and an exponent, the two
-- tests of a signature over a payload, and the digest.
pub record Rsa : Type 1 where
  pub Key : Type 0
  pub new_key : Bytes → Bytes → Option Key
  pub verify_pkcs1v15 : Key → Bytes → Bytes → Bool
  pub verify_pss : Key → Bytes → Bytes → Bool
  pub sha256 : Bytes → Bytes

-- The `AlgorithmIdentifier` of SHA-256 in the DigestInfo.
abbrev pub algorithm : Bytes
algorithm =
    0x30 ∷ 0x0D ∷ 0x06 ∷ 0x09 ∷ 0x60 ∷ 0x86 ∷ 0x48 ∷ 0x01 ∷ 0x65 ∷ 0x03 ∷ 0x04 ∷ 0x02 ∷ 0x01 ∷ 0x05
    ∷ 0x00 ∷ []

-- The length is written as a byte: above 255 it is cut off.
unfoldable pub sha256_digest_info : Bytes → Bytes
sha256_digest_info digest =
    let inner = length algorithm + 2 + length digest in
    0x30 ∷ (if ltb inner 0x80 then inner % 2 ^ 8 ∷ [] else 0x81 ∷ inner % 2 ^ 8 ∷ [])
    ++ (algorithm ++ (0x04 ∷ length digest % 2 ^ 8 ∷ digest))

module _ (rsa : Rsa) where
  unfoldable pub to_rsa : RsaPublicKey → Result rsa.Key
  to_rsa key =
      ok_or (rsa.new_key key.modulus key.exponent)
        (signature_invalid "the public key is not usable")

  unfoldable pub verify_pkcs1 : RsaPublicKey → Bytes → Bytes → Result (Unit {0})
  unfolding to_rsa
  verify_pkcs1 key digest_info signature = do
    k ← to_rsa key
    guard (rsa.verify_pkcs1v15 k digest_info signature)
        (signature_invalid "PKCS #1 v1.5 signature does not verify")

  unfoldable pub verify_pkcs1_sha256 : RsaPublicKey → Bytes → Bytes → Result (Unit {0})
  unfolding sha256_digest_info verify_pkcs1
  verify_pkcs1_sha256 key message signature =
      verify_pkcs1 key (sha256_digest_info (rsa.sha256 message)) signature

  unfoldable pub verify_pss_prehashed : RsaPublicKey → Bytes → Bytes → Result (Unit {0})
  unfolding to_rsa
  verify_pss_prehashed key digest signature = do
    k ← to_rsa key
    guard (rsa.verify_pss k digest signature) (signature_invalid "PSS signature does not verify")

  unfoldable pub verify_pss_sha256 : RsaPublicKey → Bytes → Bytes → Result (Unit {0})
  unfolding verify_pss_prehashed
  verify_pss_sha256 key message signature = verify_pss_prehashed key (rsa.sha256 message) signature
