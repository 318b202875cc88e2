-- ===== src/X509.antt =====
-- src/certificate.rs: X.509 certificates, the roots, and the checks along a chain. Decoding is that
-- of the crates `x509-cert` and `rsa`.
pub mod Chain
use myna_card.Prelude.{
  ℕ, ◌&&◌, ◌||◌, Bool, true, false, Option, none, some, List, [], ◌∷◌, Bytes, ltb, leb, ◌==◌,
  if◌then◌else◌,
}
use myna_card.Prelude.Int.{pos}
use myna_card.Prelude.Compare.{same_bytes}
use myna_card.Error.{
  Result, ok, err, stuck, ◌>>=◌, ◌>>◌, guard, ok_or, malformed, signature_invalid,
}
use myna_card.Data.Date.{Date, from_unix_seconds, at_least}
use myna_card.Data.RsaKey.{RsaPublicKey}
use myna_card.Data.Signature.{Rsa, verify_pkcs1_sha256}

-- What the decoders give: a certificate of its DER, and the parts of one that the crate reads. Names
-- and the algorithm are the bytes of their text, times are in seconds since 1970.
pub record Decoder : Type 1 where
  pub Inner : Type 0
  pub from_der : Bytes → Option Inner
  pub key_bits : Inner → Option Bytes
  pub from_pkcs1_der : Bytes → Option RsaPublicKey
  pub subject_name : Inner → Bytes
  pub issuer_name : Inner → Bytes
  pub serial : Inner → Bytes
  pub not_before : Inner → ℕ
  pub not_after : Inner → ℕ
  pub algorithm_oid : Inner → Bytes
  pub tbs_der : Inner → Option Bytes
  pub signature_bits : Inner → Option Bytes

pub data Hierarchy : Type 0 where
  production test : Hierarchy

pub data Accept : Type 0 where
  production_only production_and_test : Accept

pub data Purpose : Type 0 where
  user_authentication digital_signature : Purpose

unfoldable pub allows_root : Accept → Hierarchy → Bool
allows_root production_and_test hierarchy = true
allows_root production_only production = true
allows_root production_only test = false

pub record Root : Type 0 where
  pub purpose : Purpose
  pub hierarchy : Hierarchy
  pub generation : Option ℕ
  pub der : Bytes

-- "1.2.840.113549.1.1.11"
abbrev pub sha256_with_rsa : Bytes
sha256_with_rsa =
    0x31 ∷ 0x2E ∷ 0x32 ∷ 0x2E ∷ 0x38 ∷ 0x34 ∷ 0x30 ∷ 0x2E ∷ 0x31 ∷ 0x31 ∷ 0x33 ∷ 0x35 ∷ 0x34 ∷ 0x39
    ∷ 0x2E ∷ 0x31 ∷ 0x2E ∷ 0x31 ∷ 0x2E ∷ 0x31 ∷ 0x31 ∷ []

module _ (d : Decoder) where
  pub record X509Certificate : Type 0 where
    pub der : Bytes
    pub inner : d.Inner

  unfoldable pub parse : Bytes → Result X509Certificate
  parse der = do
    inner ← ok_or (d.from_der der) (malformed "not a DER X.509 certificate: {e}" [])
    ok (record { der = der; inner = inner })

  unfoldable pub public_key : X509Certificate → Result RsaPublicKey
  public_key cert = do
    bits ←
        ok_or (d.key_bits cert.inner)
          (malformed "subject public key is not a whole number of bytes" [])
    ok_or (d.from_pkcs1_der bits) (malformed "subject public key is not an RSA key" [])

  unfoldable pub subject : X509Certificate → Bytes
  subject cert = d.subject_name cert.inner

  unfoldable pub issuer : X509Certificate → Bytes
  issuer cert = d.issuer_name cert.inner

  unfoldable pub serial_number : X509Certificate → Bytes
  serial_number cert = d.serial cert.inner

  unfoldable pub validity : X509Certificate → Date × Date
  validity cert = (
    from_unix_seconds (pos (d.not_before cert.inner)),
    from_unix_seconds (pos (d.not_after cert.inner)),
  )

  unfoldable pub is_valid_on : X509Certificate → Date → Bool
  unfolding validity
  is_valid_on cert on = at_least on (validity cert).0 && at_least (validity cert).1 on

  unfoldable pub signature_algorithm : X509Certificate → Bytes
  signature_algorithm cert = d.algorithm_oid cert.inner

  module _ (rsa : Rsa) where
    unfoldable pub verify_signature : X509Certificate → X509Certificate → Result (Unit {0})
    unfolding signature_algorithm public_key
    verify_signature cert above = do
      guard (same_bytes (signature_algorithm cert) sha256_with_rsa)
          (signature_invalid "only sha256WithRSAEncryption is checked")
      tbs ← ok_or (d.tbs_der cert.inner) (malformed "re-encoding the TBSCertificate failed" [])
      signature ←
          ok_or (d.signature_bits cert.inner)
            (malformed "signature is not a whole number of bytes" [])
      key ← public_key above
      verify_pkcs1_sha256 rsa key tbs signature

    -- The loop of `verify_chain`: `below` is the certificate that the next one must have issued.
    unfoldable pub verify_above : X509Certificate → List X509Certificate → Date → Result (Unit {0})
    unfolding subject issuer is_valid_on verify_signature
    verify_above below [] on = ok tt
    verify_above below (above ∷ rest) on =
        guard (same_bytes (issuer below) (subject above))
          (malformed "chain is broken: {:?} names issuer {:?}, next is {:?}" [])
        >> (guard (is_valid_on above on) (malformed "{} is valid {from} to {to}, not on {on}" [])
            >> (verify_signature below above >> verify_above above rest on))

    -- `Certificate::verify_chain`, from the leaf on.
    unfoldable pub verify_chain : List X509Certificate → Date → Result (Unit {0})
    unfolding is_valid_on verify_above
    verify_chain [] on = err (malformed "an empty chain verifies nothing" [])
    verify_chain (leaf ∷ rest) on =
        guard (is_valid_on leaf on) (malformed "{} is valid {from} to {to}, not on {on}" [])
        >> verify_above leaf rest on

    -- `verify_signature(..).is_ok()`
    abbrev pub is_ok : Result (Unit {0}) → Bool
    is_ok (ok u) = true
    is_ok (err e) = false
    is_ok stuck = false

    -- The loop of `issuer_of` over the roots, of which those that are not accepted are passed over.
    unfoldable pub issuer_in : List Root → X509Certificate → Accept → Result X509Certificate
    unfolding parse subject issuer verify_signature allows_root
    issuer_in [] cert accept =
        err (signature_invalid "no root this crate carries signed this certificate")
    issuer_in (root ∷ roots) cert accept =
        let rest = issuer_in roots cert accept in
        if allows_root accept root.hierarchy
        then (parse root.der >>= λ candidate.
            if same_bytes (subject candidate) (issuer cert)
              && is_ok (verify_signature cert candidate)
            then ok candidate
            else rest)
        else rest

    -- `Certificate::verify_to_root`, where `known` are the roots that the crate carries.
    unfoldable pub verify_to_root : List Root → X509Certificate → Date → Accept → Result (Unit {0})
    unfolding verify_chain issuer_in
    verify_to_root known cert on accept = do
      root ← issuer_in known cert accept
      verify_chain (cert ∷ root ∷ []) on
