-- ===== src/Ap/Surface/Authentic.antt =====
-- What the signed bytes of an age record fix.
use myna_card.Prelude.{
  ◌≡◌, refl, sym, subst, ◌∙◌, ap, none, List, [], ◌∷◌, ◌++◌, Bytes, IsByte, All,
}
use myna_card.Error.{Result, ok, bind-eq-ok}
use myna_card.Tlv.Ber.Objects.{InMemory}
use myna_card.Tlv.Ber.Iteration.{Object, IsWritten, encode_all}
use myna_card.Data.RsaKey
use myna_card.Data.RsaKey.{RsaPublicKey}
use myna_card.Data.Date
use myna_card.Data.Date.{Date}
use myna_card.Data.Fields.{Field, parse_fields, find_field, get, bytes_before}
use myna_card.Data.Fields.Written.{df, fields_of}
use myna_card.Data.Fields.Covered.{bytes_before-fields_of}
use myna_card.Ap.Surface.Records.{AgeRecord, parse_age_record}

-- What `parse_age_record` has done when it returns.
record Steps (raw : Bytes) (r : AgeRecord) : Type 0 where
  fields : List Field
  date_field : Bytes
  key_field : Bytes
  parsed : parse_fields raw 0xFF10 none ≡ ok fields
  date_got : get fields 0xDF11 ≡ ok date_field
  date_parsed : Date.parse date_field ≡ ok r.birth_date
  key_got : get fields 0xDF12 ≡ ok key_field
  key_parsed : RsaKey.parse key_field ≡ ok r.public_key
  covered : bytes_before fields 0xDF13 ≡ ok r.signed_data

parse_age_record-Steps : (raw : Bytes) (r : AgeRecord) → parse_age_record raw ≡ ok r → Steps raw r
unfolding parse_age_record
parse_age_record-Steps raw r h =
    let (f, p, h1) = bind-eq-ok (parse_fields raw 0xFF10 none) _ h in
    let (d, dg, h2) = bind-eq-ok (get f 0xDF11) _ h1 in
    let (date, dp, h3) = bind-eq-ok (Date.parse d) _ h2 in
    let (k, kg, h4) = bind-eq-ok (get f 0xDF12) _ h3 in
    let (key, kp, h5) = bind-eq-ok (RsaKey.parse k) _ h4 in
    let (s, _, h6) = bind-eq-ok (get f 0xDF13) _ h5 in
    let (signed, b, h7) = bind-eq-ok (bytes_before f 0xDF13) _ h6 in
    let same : record { birth_date = date; public_key = key; signature = s; signed_data = signed }
        ≡ r =
      cc in
    subst (Steps raw) same (record {
      fields = f;
      date_field = d;
      key_field = k;
      parsed = p;
      date_got = dg;
      date_parsed = dp;
      key_got = kg;
      key_parsed = kp;
      covered = b;
    })

get_first :
    (l d lk k : Bytes) (others : List Field)
    → (get (fields_of (df 0x11 l d ∷ df 0x12 lk k ∷ []) ++ others) 0xDF11 ≡ ok d)
      × (get (fields_of (df 0x11 l d ∷ df 0x12 lk k ∷ []) ++ others) 0xDF12 ≡ ok k)
unfolding get find_field
get_first l d lk k others = (refl, refl)

same_value : (x y : Bytes) → ◌≡◌ {A = Result Bytes} (ok x) (ok y) → x ≡ y
same_value x y h = cc

-- The signed bytes of an age record fix what is read from it. When a file in memory parses as an
-- age record, and its signed bytes are a date of birth as DF11 and a public key as DF12, the date
-- and the key of the record are these, wherever else such fields may stand in the file.
pub parse_age_record-signed :
    (raw : Bytes) (r : AgeRecord) (l d lk k : Bytes)
    → All IsByte raw
    → InMemory raw
    → IsWritten (df 0x11 l d)
    → IsWritten (df 0x12 lk k)
    → parse_age_record raw ≡ ok r
    → r.signed_data ≡ encode_all (df 0x11 l d ∷ df 0x12 lk k ∷ [])
    → (Date.parse d ≡ ok r.birth_date) × (RsaKey.parse k ≡ ok r.public_key)
parse_age_record-signed raw r l d lk k bs mem wd wk h signed =
    let steps = parse_age_record-Steps raw r h in
    let os : List Object = df 0x11 l d ∷ df 0x12 lk k ∷ [] in
    let (others, e) =
      bytes_before-fields_of raw 0xFF10 0xDF13 steps.fields os bs mem (wd, (wk, tt)) steps.parsed
        (steps.covered ∙ ap (λ x. ok x) signed) in
    let (date, key) = get_first l d lk k others in
    let date_same : steps.date_field ≡ d =
      same_value _ _ (sym steps.date_got ∙ (ap (λ x. get x 0xDF11) e ∙ date)) in
    let key_same : steps.key_field ≡ k =
      same_value _ _ (sym steps.key_got ∙ (ap (λ x. get x 0xDF12) e ∙ key)) in
    (
      subst (λ x. Date.parse x ≡ ok r.birth_date) date_same steps.date_parsed,
      subst (λ x. RsaKey.parse x ≡ ok r.public_key) key_same steps.key_parsed,
    )
