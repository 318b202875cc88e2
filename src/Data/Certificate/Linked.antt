-- ===== src/Data/Certificate/Linked.antt =====
-- What a chain of certificates that verifies is.
use myna_card.Prelude.{
  ◌≢◌, ◌⊎◌, inl, inr, sym, ◌∙◌, Bool-cases, Bytes, ◌≡◌, refl, subst, ap, true, some, List, [], ◌∷◌,
  ◌↔◌,
}
use myna_card.Prelude.Compare.{same_bytes, same_bytes_sound, same_bytes_refl}
use myna_card.Error.{ok, bind-eq-ok, signature_invalid, unknown_certificate_authority}
use myna_card.Error.Checks.{guard_iff, both-eq-ok, ok_or_iff}
use myna_card.Data.Signature.{Rsa, sha256_digest_info, to_rsa, verify_pkcs1, verify_pkcs1_sha256}
use myna_card.Data.RsaKey.{RsaPublicKey}
use myna_card.Data.Authority.{CaKey, known, find, find_key, to_public_key}
use mathlib.Core.Option.{some-injective}
use myna_card.Data.Certificate.{
  CardVerifiableCertificate, verify_with, verify, verify_rest, verify_chain,
}

-- The entry of the table is the first that stands under the identifier, all sixteen bytes of it.
pub StandsUnder : Bytes → CaKey → List CaKey → Type 0
StandsUnder id ca [] = ⊥
StandsUnder id ca (k ∷ ks) = ((k.key_id ≡ id) × (k ≡ ca)) ⊎ ((k.key_id ≢ id) × StandsUnder id ca ks)

find_key-StandsUnder :
    (ks : List CaKey) (id : Bytes) (ca : CaKey) → (find_key ks id ≡ some ca) ↔ StandsUnder id ca ks
unfolding find_key StandsUnder
find_key-StandsUnder [] id ca = (λ h. cc, λ h. absurd h)
find_key-StandsUnder (k ∷ ks) id ca = elim (Bool-cases (same_bytes k.key_id id)) [
  | inl same ↦
      let e : k.key_id ≡ id = same_bytes_sound k.key_id id same in
      (
        λ h. inl (e, some-injective k ca (rw same at h)),
        λ x. elim x [ inl (_, c) ↦ rw same (ap some c) | inr (n, _) ↦ absurd (n e) ],
      )
  | inr other ↦
      let n : k.key_id ≢ id = λ e.
        let same : same_bytes k.key_id id ≡ true =
          ap (same_bytes k.key_id) (sym e) ∙ same_bytes_refl k.key_id in
        cc in
      (
        λ h. inr (n, (find_key-StandsUnder ks id ca).0 (rw other at h)),
        λ x. elim x [
          | inl (e, _) ↦ absurd (n e)
          | inr (_, later) ↦ rw other ((find_key-StandsUnder ks id ca).1 later)
        ],
      )
]

module _ (rsa : Rsa) where
  -- The certificate's signature verifies, by the public key, over the DigestInfo of its body.
  pub SignedBy : CardVerifiableCertificate → RsaPublicKey → Type 0
  SignedBy cert key =
      (k : rsa.Key) × (rsa.new_key key.modulus key.exponent ≡ some k)
      × (rsa.verify_pkcs1v15 k (sha256_digest_info (rsa.sha256 cert.signed_data)) cert.signature
          ≡ true)

  -- Each certificate names the key that the one before it certifies, and is signed by it.
  pub Linked : CardVerifiableCertificate → List CardVerifiableCertificate → Type 0
  Linked issuer [] = Unit {0}
  Linked issuer (cert ∷ rest) =
      (cert.issuer_key_id ≡ issuer.subject_key_id)
      × SignedBy cert issuer.public_key
      × Linked cert rest

  -- A key of the crate's table, its modulus and exponent, has signed the certificate, and stands
  -- there under the identifier of the issuer that the certificate names.
  pub SignedByTable : CardVerifiableCertificate → Type 0
  SignedByTable cert =
      (ca : CaKey) × StandsUnder cert.issuer_key_id.bytes ca known
      × SignedBy cert (record { exponent = ca.exponent; modulus = ca.modulus })

  -- The chain has a first certificate, which a key of the crate's table has signed, and its links.
  pub Rooted : List CardVerifiableCertificate → Type 0
  Rooted [] = ⊥
  Rooted (first ∷ rest) = SignedByTable first × Linked first rest

  pub verify_with-SignedBy :
      (cert : CardVerifiableCertificate) (key : RsaPublicKey)
      → (verify_with rsa cert key ≡ ok tt) ↔ SignedBy cert key
  unfolding verify_with verify_pkcs1_sha256 verify_pkcs1 to_rsa SignedBy
  verify_with-SignedBy cert key =
      ok_or_iff (rsa.new_key key.modulus key.exponent) _
        (signature_invalid "the public key is not usable")
        (λ k. guard_iff _ (signature_invalid "PKCS #1 v1.5 signature does not verify"))

  pub verify_rest-Linked :
      (issuer : CardVerifiableCertificate) (rest : List CardVerifiableCertificate)
      → (verify_rest rsa issuer rest ≡ ok tt) ↔ Linked issuer rest
  unfolding verify_rest Linked
  verify_rest-Linked issuer [] = (λ _. tt, λ _. refl)
  verify_rest-Linked issuer (cert ∷ rest) = (
    λ h.
        let (_, g, h') = bind-eq-ok _ _ h in
        let (_, v, r) = bind-eq-ok _ _ h' in
        (
          ap (λ b. record { bytes = b }) (same_bytes_sound _ _ ((guard_iff _ _).0 g)),
          (verify_with-SignedBy cert issuer.public_key).0 v,
          (verify_rest-Linked cert rest).0 r,
        ),
    λ (e, s, l).
        both-eq-ok _ _
          ((guard_iff _ _).1 (
            subst (λ id. same_bytes cert.issuer_key_id.bytes id.bytes ≡ true) e
              (same_bytes_refl cert.issuer_key_id.bytes)))
          (both-eq-ok _ _ ((verify_with-SignedBy cert issuer.public_key).1 s)
            ((verify_rest-Linked cert rest).1 l)),
  )

  verify-root : (cert : CardVerifiableCertificate) → (verify rsa cert ≡ ok tt) ↔ SignedByTable cert
  unfolding verify find to_public_key SignedByTable
  verify-root cert =
      let id : Bytes = cert.issuer_key_id.bytes in
      let both =
        ok_or_iff (find_key known id) _ (unknown_certificate_authority cert.issuer_key_id)
          (λ ca. verify_with-SignedBy cert (to_public_key ca)) in
      (
        λ h.
            let (ca, found, signed) = both.0 h in
            (ca, (find_key-StandsUnder known id ca).0 found, signed),
        λ (ca, stands, signed). both.1 (ca, (find_key-StandsUnder known id ca).1 stands, signed),
      )

  -- `verify_chain` succeeds on a list of certificates exactly when it is not empty, a key of the
  -- crate's table stands under the first one's issuer identifier, all sixteen bytes of it, and its
  -- signature verifies by that key, and each later certificate names the key that the one before it certifies and has a
  -- signature that verifies by it. The signatures are PKCS #1 v1.5 over the SHA-256 of the bodies.
  pub verify_chain_iff :
      (chain : List CardVerifiableCertificate) → (verify_chain rsa chain ≡ ok tt) ↔ Rooted chain
  unfolding verify_chain Rooted
  verify_chain_iff [] = (λ h. cc, λ h. absurd h)
  verify_chain_iff (first ∷ rest) = (
    λ h.
        let (_, v, r) = bind-eq-ok _ _ h in
        ((verify-root first).0 v, (verify_rest-Linked first rest).0 r),
    λ (v, l). both-eq-ok _ _ ((verify-root first).1 v) ((verify_rest-Linked first rest).1 l),
  )
