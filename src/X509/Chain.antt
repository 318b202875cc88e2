-- ===== src/X509/Chain.antt =====
-- What a certificate that verifies to a root has above it.
use myna_card.Prelude.{
  ◌≤◌, ◌<◌, arith, Option, none, some, Bytes, ◌≡◌, refl, ap, subst, ◌∙◌, ◌⊎◌, inl, inr, Bool, true,
  false, ◌&&◌, List, [], ◌∷◌, if◌then◌else◌,
}
use myna_card.Prelude.Compare.{same_bytes, same_bytes_sound}
use myna_card.Error.{Error, Result, ok, err, stuck, ◌>>=◌, guard, ok_or, bind-eq-ok, malformed}
use myna_card.Error.Checks.{guard_iff}
use myna_card.Prelude.Int.{pos}
use myna_card.Data.Date.{Date, at_least, from_unix_seconds}
use myna_card.Data.RsaKey.{RsaPublicKey}
use myna_card.Data.Signature.{Rsa, sha256_digest_info, to_rsa, verify_pkcs1, verify_pkcs1_sha256}
use myna_card.X509.{
  Decoder, Hierarchy, production, test, Accept, production_only, production_and_test, Root,
  validity, signature_algorithm, public_key, allows_root, X509Certificate, parse, subject, issuer,
  is_valid_on, verify_signature, verify_above, verify_chain, is_ok, issuer_in, verify_to_root,
}

-- One of the roots has the property.
pub Carries : (Root → Type 0) → List Root → Type 0
Carries P [] = ⊥
Carries P (root ∷ roots) = P root ⊎ Carries P roots

taken_or_rest :
    {A : Type 0} (check : Bool) (a c : A) (rest : Result A)
    → (if check then ok a else rest) ≡ ok c
    → ((check ≡ true) × (a ≡ c)) ⊎ (rest ≡ ok c)
taken_or_rest true a c rest h = inl (refl, cc)
taken_or_rest false a c rest h = inr h

chosen_or_rest :
    {A : Type 0} (allowed : Bool) (found : Result A) (check : A → Bool) (rest : Result A) (c : A)
    → (if allowed then (found >>= λ a. if check a then ok a else rest) else rest) ≡ ok c
    → ((allowed ≡ true) × (found ≡ ok c) × (check c ≡ true)) ⊎ (rest ≡ ok c)
chosen_or_rest false found check rest c h = inr h
chosen_or_rest true found check rest c h =
    let (a, e, h') = bind-eq-ok found (λ a. if check a then ok a else rest) h in
    elim (taken_or_rest (check a) a c rest h') [
      | inl (t, same) ↦ inl (refl, e ∙ ap (λ x. ok x) same, subst (λ x. check x ≡ true) same t)
      | inr k ↦ inr k
    ]

both_true : (a b : Bool) → (a && b) ≡ true → (a ≡ true) × (b ≡ true)
both_true true b h = (refl, h)
both_true false b h = cc

-- One date is not after the other.
abbrev pub NotAfter : Date → Date → Type 0
NotAfter a b =
    (a.year < b.year)
    ⊎ ((a.year ≡ b.year) × ((a.month < b.month) ⊎ ((a.month ≡ b.month) × (a.day ≤ b.day))))

at_least-NotAfter : (a b : Date) → at_least b a ≡ true → NotAfter a b
at_least-NotAfter a b h = ground arith

allows_root-allowed :
    (accept : Accept) (h : Hierarchy)
    → allows_root accept h ≡ true
    → (h ≡ production) ⊎ (accept ≡ production_and_test)
unfolding allows_root
allows_root-allowed production_and_test h e = inr refl
allows_root-allowed production_only production e = inl refl
allows_root-allowed production_only test e = cc

ok_or-eq-ok : {A : Type 0} (o : Option A) (e : Error) {a : A} → ok_or o e ≡ ok a → o ≡ some a
ok_or-eq-ok none e h = cc
ok_or-eq-ok (some b) e h = cc

-- The dotted text of the algorithm sha256WithRSAEncryption (RFC 8017).
abbrev pub rsa_with_sha256_text : Bytes
rsa_with_sha256_text =
    b'1' ∷ b'.' ∷ b'2' ∷ b'.' ∷ b'8' ∷ b'4' ∷ b'0' ∷ b'.' ∷ b'1' ∷ b'1' ∷ b'3' ∷ b'5' ∷ b'4' ∷ b'9'
    ∷ b'.' ∷ b'1' ∷ b'.' ∷ b'1' ∷ b'.' ∷ b'1' ∷ b'1' ∷ []

module _ (d : Decoder) (rsa : Rsa) where
  is_ok-eq-ok : (r : Result (Unit {0})) → is_ok d rsa r ≡ true → r ≡ ok tt
  is_ok-eq-ok (ok u) h = refl
  is_ok-eq-ok (err e) h = cc
  is_ok-eq-ok stuck h = cc

  -- What the certificate's signature is: by the algorithm 1.2.840.113549.1.1.11, over the DigestInfo
  -- of the SHA-256 of its body, by the RSA key of the one above.
  pub record Signs (above cert : X509Certificate d) : Type 0 where
    pub body : Bytes
    pub signature : Bytes
    pub bits : Bytes
    pub public : RsaPublicKey
    pub key : rsa.Key
    pub algorithm : d.algorithm_oid cert.inner ≡ rsa_with_sha256_text
    pub body_of : d.tbs_der cert.inner ≡ some body
    pub signature_of : d.signature_bits cert.inner ≡ some signature
    pub bits_of : d.key_bits above.inner ≡ some bits
    pub public_of : d.from_pkcs1_der bits ≡ some public
    pub usable : rsa.new_key public.modulus public.exponent ≡ some key
    pub verifies : rsa.verify_pkcs1v15 key (sha256_digest_info (rsa.sha256 body)) signature ≡ true

  verify_signature-Signs :
      (cert above : X509Certificate d)
      → verify_signature d rsa cert above ≡ ok tt
      → Signs above cert
  unfolding verify_signature signature_algorithm public_key verify_pkcs1_sha256 verify_pkcs1 to_rsa
  verify_signature-Signs cert above h =
      let (_, a, h1) = bind-eq-ok (guard _ _) _ h in
      let (body, b, h2) = bind-eq-ok (ok_or (d.tbs_der cert.inner) _) _ h1 in
      let (signature, s, h3) = bind-eq-ok (ok_or (d.signature_bits cert.inner) _) _ h2 in
      let (public, k, h4) = bind-eq-ok (public_key d above) _ h3 in
      let (bits, kb, k') = bind-eq-ok (ok_or (d.key_bits above.inner) _) _ k in
      let (key, n, h5) = bind-eq-ok (ok_or (rsa.new_key public.modulus public.exponent) _) _ h4 in
      record {
        body = body;
        signature = signature;
        bits = bits;
        public = public;
        key = key;
        algorithm = same_bytes_sound _ _ ((guard_iff _ _).0 a);
        body_of = ok_or-eq-ok (d.tbs_der cert.inner) _ b;
        signature_of = ok_or-eq-ok (d.signature_bits cert.inner) _ s;
        bits_of = ok_or-eq-ok (d.key_bits above.inner) _ kb;
        public_of = ok_or-eq-ok (d.from_pkcs1_der bits) _ k';
        usable = ok_or-eq-ok (rsa.new_key public.modulus public.exponent) _ n;
        verifies = (guard_iff _ _).0 h5;
      }

  -- The date is one of the days from that on which the validity begins to that on which it ends.
  pub record ValidOn (cert : X509Certificate d) (on : Date) : Type 0 where
    pub begun : NotAfter (from_unix_seconds (pos (d.not_before cert.inner))) on
    pub not_over : NotAfter on (from_unix_seconds (pos (d.not_after cert.inner)))

  is_valid_on-ValidOn :
      (cert : X509Certificate d) (on : Date) → is_valid_on d cert on ≡ true → ValidOn cert on
  unfolding is_valid_on validity
  is_valid_on-ValidOn cert on h =
      let (a, b) = both_true _ _ h in
      record { begun = at_least-NotAfter _ _ a; not_over = at_least-NotAfter _ _ b }

  -- The root is of the hierarchy of production unless that of tests is accepted too, and has issued
  -- the certificate, and both are valid on the date.
  pub record Anchors (cert : X509Certificate d) (on : Date) (accept : Accept) (root : Root)
      : Type 0 where
    pub above : X509Certificate d
    pub allowed : (root.hierarchy ≡ production) ⊎ (accept ≡ production_and_test)
    pub decoded : d.from_der root.der ≡ some above.inner
    pub named : d.subject_name above.inner ≡ d.issuer_name cert.inner
    pub signs : Signs above cert
    pub cert_valid : ValidOn cert on
    pub root_valid : ValidOn above on

  parse-decoded :
      (der : Bytes) (c : X509Certificate d) → parse d der ≡ ok c → d.from_der der ≡ some c.inner
  unfolding parse
  parse-decoded der c h =
      let (inner, e, same) = bind-eq-ok (ok_or (d.from_der der) _) _ h in
      let c' : record { der = der; inner = inner } ≡ c = cc in
      ok_or-eq-ok (d.from_der der) _ e ∙ ap (λ (x : X509Certificate d). some x.inner) c'

  issuer_in-Carries :
      (known : List Root) (cert above : X509Certificate d) (on : Date) (accept : Accept)
      → issuer_in d rsa known cert accept ≡ ok above
      → ValidOn cert on
      → ValidOn above on
      → Carries (Anchors cert on accept) known
  unfolding issuer_in Carries subject issuer
  issuer_in-Carries [] cert above on accept h v w = cc
  issuer_in-Carries (root ∷ roots) cert above on accept h v w =
      elim (chosen_or_rest (allows_root accept root.hierarchy) (parse d root.der)
        (λ c.
          same_bytes (subject d c) (issuer d cert) && is_ok d rsa (verify_signature d rsa cert c))
        (issuer_in d rsa roots cert accept) above h) [
          | inl (a, p, t) ↦
              let (same, signed) = both_true (same_bytes (subject d above) (issuer d cert)) _ t in
              inl (record {
                above = above;
                allowed = allows_root-allowed accept root.hierarchy a;
                decoded = parse-decoded root.der above p;
                named = same_bytes_sound _ _ same;
                signs =
                    verify_signature-Signs cert above
                      (is_ok-eq-ok (verify_signature d rsa cert above) signed);
                cert_valid = v;
                root_valid = w;
              })
          | inr k ↦ inr (issuer_in-Carries roots cert above on accept k v w)
        ]

  -- When a certificate verifies to a root on a date, one of the roots that the crate carries is of
  -- the hierarchy of production, or any where tests are accepted too; it decodes to a certificate
  -- whose subject is the issuer that the certificate names, and by whose RSA key the certificate's
  -- signature verifies, as sha256WithRSAEncryption over its body; and the date is within the validity
  -- of both, its first and last day included.
  pub verify_to_root-Carries :
      (known : List Root) (cert : X509Certificate d) (on : Date) (accept : Accept)
      → verify_to_root d rsa known cert on accept ≡ ok tt
      → Carries (Anchors cert on accept) known
  unfolding verify_to_root verify_chain verify_above
  verify_to_root-Carries known cert on accept h =
      let (above, found, h1) = bind-eq-ok (issuer_in d rsa known cert accept) _ h in
      let e : Error = malformed "{} is valid {from} to {to}, not on {on}" [] in
      let (_, valid, h2) = bind-eq-ok (guard (is_valid_on d cert on) e) _ h1 in
      let (_, _, h3) =
        bind-eq-ok
          (guard (same_bytes (issuer d cert) (subject d above))
            (malformed "chain is broken: {:?} names issuer {:?}, next is {:?}" []))
          _ h2 in
      let (_, valid', _) = bind-eq-ok (guard (is_valid_on d above on) e) _ h3 in
      issuer_in-Carries known cert above on accept found
        (is_valid_on-ValidOn cert on ((guard_iff (is_valid_on d cert on) e).0 valid))
        (is_valid_on-ValidOn above on ((guard_iff (is_valid_on d above on) e).0 valid'))
