-- ===== src/Ap/Text/Unsigned.antt =====
-- Which fields of a signed public key its signature has to cover.
use myna_card.Prelude.{◌≡◌, refl, subst, List, [], ◌∷◌, Bytes, ap, ◌∙◌, none}
use myna_card.Prelude.Words.{big_endian}
use myna_card.Error.{ok, bind-eq-ok}
use myna_card.Tlv.Ber.Iteration.{Object, encode_all}
use myna_card.Data.RsaKey.{RsaPublicKey}
use myna_card.Data.RsaKey
use myna_card.Data.Signature.{Rsa, verify_pkcs1_sha256}
use myna_card.Data.Fields.{Field, parse_fields, find_field, get, bytes_before}
use myna_card.Data.Fields.Written.{df, File, IsFile, file_bytes, fields_of, parse_fields-file_bytes}
use myna_card.Ap.Text.Records.{
  IntegrityRecord, SignedPublicKey, digest_field, parse_integrity_record, parse_signed_key,
  verify_integrity_record, verify_signed_key,
}

parsed_objects :
    (f : File) (tag : Bytes) (objects : List Object)
    → IsFile f
    → f.tag_field ≡ tag
    → f.objects ≡ objects
    → parse_fields (file_bytes f) (big_endian tag) none ≡ ok (fields_of objects)
parsed_objects f tag objects w t os =
    subst (λ x. parse_fields (file_bytes f) (big_endian x) none ≡ ok (fields_of objects)) t
      (parse_fields-file_bytes f w ∙ ap (λ x. ok (fields_of x)) os)

-- What a record of the documented order says is signed, and by which signature.
integrity_record-signed :
    (raw : Bytes) (l1 d1 l2 d2 l s : Bytes) (r : IntegrityRecord)
    → parse_fields raw 0xFF30 none
      ≡ ok (fields_of (df 0x31 l1 d1 ∷ df 0x32 l2 d2 ∷ df 0x33 l s ∷ []))
    → parse_integrity_record raw ≡ ok r
    → (r.signed_data ≡ encode_all (df 0x31 l1 d1 ∷ df 0x32 l2 d2 ∷ [])) × (r.signature ≡ s)
unfolding parse_integrity_record get find_field bytes_before
integrity_record-signed raw l1 d1 l2 d2 l s r e h =
    let h1 = rw e at h in
    let fs : List Field = fields_of (df 0x31 l1 d1 ∷ df 0x32 l2 d2 ∷ df 0x33 l s ∷ []) in
    let (a, _, h2) = bind-eq-ok (digest_field fs 0xDF31) _ h1 in
    let (b, _, h3) = bind-eq-ok (digest_field fs 0xDF32) _ h2 in
    let before : Bytes = encode_all (df 0x31 l1 d1 ∷ df 0x32 l2 d2 ∷ []) in
    let same : record {
      my_number_digest = a;
      attributes_digest = b;
      signature = s;
      signed_data = before;
    }
        ≡ r =
      cc in
    subst (λ x. (x.signed_data ≡ before) × (x.signature ≡ s)) same (refl, refl)

-- A key that stands behind the signature is read as the key of the record.
signed_key-behind :
    (raw : Bytes) (l1 d1 l2 d2 l s lk k : Bytes) (key : RsaPublicKey)
    → parse_fields raw 0xFF50 none
      ≡ ok (fields_of (df 0x31 l1 d1 ∷ df 0x32 l2 d2 ∷ df 0x52 l s ∷ df 0x51 lk k ∷ []))
    → RsaKey.parse k ≡ ok key
    → parse_signed_key raw
      ≡ ok (record {
        public_key = key;
        signature = s;
        signed_data = encode_all (df 0x31 l1 d1 ∷ df 0x32 l2 d2 ∷ []);
      })
unfolding parse_signed_key get find_field bytes_before
signed_key-behind raw l1 d1 l2 d2 l s lk k key e h = rw (e, h) refl

-- A genuine integrity record lends its signature to a key of anyone's choice. Where an integrity
-- record of the documented order (DF31, DF32, DF33) parses and verifies by an issuer's key, a file
-- of the signed public key that has the same DF31 and DF32, that signature as DF52, and behind it
-- any RSA key as DF51, parses too, gives that key, and verifies by the same issuer's key.
pub parse_signed_key-unsigned :
    (rsa : Rsa) (issuer key : RsaPublicKey) (genuine forged : File) (l1 d1 l2 d2 l s lk k : Bytes)
    (r : IntegrityRecord)
    → IsFile genuine
    → genuine.tag_field ≡ 0xFF ∷ 0x30 ∷ []
    → genuine.objects ≡ df 0x31 l1 d1 ∷ df 0x32 l2 d2 ∷ df 0x33 l s ∷ []
    → parse_integrity_record (file_bytes genuine) ≡ ok r
    → verify_integrity_record rsa r issuer ≡ ok tt
    → IsFile forged
    → forged.tag_field ≡ 0xFF ∷ 0x50 ∷ []
    → forged.objects ≡ df 0x31 l1 d1 ∷ df 0x32 l2 d2 ∷ df 0x52 l s ∷ df 0x51 lk k ∷ []
    → RsaKey.parse k ≡ ok key
    → (x : SignedPublicKey) × (parse_signed_key (file_bytes forged) ≡ ok x)
      × (x.public_key ≡ key)
      × (verify_signed_key rsa x issuer ≡ ok tt)
unfolding verify_integrity_record verify_signed_key
parse_signed_key-unsigned rsa issuer key genuine forged l1 d1 l2 d2 l s lk k r wg tg og pg vg wf tf
      of hk =
    let read = parsed_objects genuine _ _ wg tg og in
    let (data_same, signature_same) = integrity_record-signed _ l1 d1 l2 d2 l s r read pg in
    (
      _,
      signed_key-behind _ l1 d1 l2 d2 l s lk k key (parsed_objects forged _ _ wf tf of) hk,
      refl,
      subst (λ x. verify_pkcs1_sha256 rsa issuer x s ≡ ok tt) data_same
          (subst (λ x. verify_pkcs1_sha256 rsa issuer r.signed_data x ≡ ok tt) signature_same vg),
    )
