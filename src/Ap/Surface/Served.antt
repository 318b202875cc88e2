-- ===== src/Ap/Surface/Served.antt =====
-- Reading the age record from a card that has it.
use myna_card.Prelude.{
  ℕ, suc, ◌+◌, ◌≤◌, ◌≡◌, refl, ap, subst, sym, ◌∙◌, none, List, [], ◌∷◌, ◌++◌, length, take,
  take-append, append_assoc, append-nil, length-append, Bytes, IsByte, All, All-of_append, arith,
}
use myna_card.Prelude.Words.{big_endian}
use myna_card.Error.{ok}
use myna_card.Action.{lift, step-ok}
use myna_card.Transport.{Transmit}
use myna_card.Tlv.Ber.Iteration.{Object, encode_all}
use myna_card.Card.{Card}
use myna_card.Card.Files.{select_ef, read_binary_all}
use myna_card.Card.Files.Serving.{Serves}
use myna_card.Card.Files.Whole.{read_binary_all-object}
use myna_card.Card.Files.Selecting.{select_apdu, select_ef-selected}
use myna_card.Data.RsaKey
use myna_card.Data.RsaKey.{RsaPublicKey}
use myna_card.Data.Date
use myna_card.Data.Date.{Date}
use myna_card.Data.Fields.{parse_fields, get, find_field, bytes_before}
use myna_card.Data.Fields.Written.{
  df, File, IsFile, file_bytes, file_value, file_object, fields_of, parse_fields-file_bytes,
}
use myna_card.Ap.Surface.{read_ef, read_age_record, ef_age_record}
use myna_card.Ap.Surface.Records.{parse_age_record}

-- A file without what stands behind its outer object.
abbrev trimmed : File → File
trimmed f = record f { trailing = [] }

abbrev size_of : File → ℕ
size_of f = length f.tag_field + length f.length_field + length (file_value f)

abbrev front_of : File → Bytes
front_of f = f.tag_field ++ (f.length_field ++ file_value f)

front-trailing : (f : File) → file_bytes f ≡ front_of f ++ f.trailing
front-trailing f = sym (
    append_assoc f.tag_field (f.length_field ++ file_value f) f.trailing
    ∙ ap (λ x. f.tag_field ++ x) (append_assoc f.length_field (file_value f) f.trailing))

trimmed-front : (f : File) → file_bytes (trimmed f) ≡ front_of f
trimmed-front f = front-trailing (trimmed f) ∙ append-nil (front_of f)

length-front : (f : File) → length (front_of f) ≡ size_of f
length-front f = omega (
  arith,
  length-append f.tag_field (f.length_field ++ file_value f),
  length-append f.length_field (file_value f),
)

take-file_bytes : (f : File) → take (size_of f) (file_bytes f) ≡ file_bytes (trimmed f)
take-file_bytes f =
    ap (take (size_of f)) (front-trailing f)
    ∙ take-append (front_of f) f.trailing (size_of f) (omega (arith, length-front f))
    ∙ sym (trimmed-front f)

trimmed-IsFile : (f : File) → IsFile f → IsFile (trimmed f)
trimmed-IsFile f w = record {
  is_tag = w.is_tag;
  is_length = w.is_length;
  size = w.size;
  written = w.written;
  is_filler = w.is_filler;
  bytes =
      rw (trimmed-front f)
        (All-of_append IsByte (front_of f) f.trailing
          (subst (All IsByte) (front-trailing f) w.bytes)).0;
  in_memory = omega (
    arith,
    w.in_memory,
    ap length (trimmed-front f),
    ap length (front-trailing f),
    length-append (front_of f) f.trailing,
  );
}

abbrev age_objects : Bytes → Bytes → Bytes → Bytes → Bytes → Bytes → List Object
age_objects ld d lk k ls s = df 0x11 ld d ∷ df 0x12 lk k ∷ df 0x13 ls s ∷ []

parse_age_record-fields :
    (raw ld d lk k ls s : Bytes) (date : Date) (key : RsaPublicKey)
    → Date.parse d ≡ ok date
    → RsaKey.parse k ≡ ok key
    → parse_fields raw 0xFF10 none ≡ ok (fields_of (age_objects ld d lk k ls s))
    → parse_age_record raw
      ≡ ok (record {
        birth_date = date;
        public_key = key;
        signature = s;
        signed_data = encode_all (df 0x11 ld d ∷ df 0x12 lk k ∷ []);
      })
unfolding parse_age_record get find_field bytes_before
parse_age_record-fields raw ld d lk k ls s date key pd pk pf = rw (pf, pd, pk) refl

module _ {T : Type 0} ⦃link : Transmit T⦄ (fuel : ℕ) (start t : T) where
  abbrev before : Card T
  before = record { transport = start }

  abbrev after : Card T
  after = record { transport = t }

  -- A file that is selected and read comes back without what stands behind its outer object.
  read_ef-file :
      (id : ℕ) (f : File)
      → link.transmit start (select_apdu id) ≡ (ok (0x90 ∷ 0x00 ∷ []), t)
      → Serves link t (file_bytes f)
      → IsFile f
      → size_of f ≤ 0x8000
      → read_ef (suc fuel) id before ≡ (ok (file_bytes (trimmed f)), after)
  unfolding read_ef
  read_ef-file id f h s w le =
      step-ok (select_ef (suc fuel) id) (λ _. read_binary_all (suc fuel)) before after tt
        (select_ef-selected fuel start t id h)
      ∙ read_binary_all-object fuel t (file_bytes f) s _ (file_object f w) w.bytes le
      ∙ ap (λ x. (ok x, after)) (take-file_bytes f)

  -- From the card to the record. On a card on which the selection of the file 0001 makes current,
  -- and which serves as READ BINARY is documented, a written file of the tag FF10 that holds a date
  -- of birth that parses as DF11, a key that parses as DF12 and a signature as DF13, and whose outer
  -- object ends within 32 KiB, read_age_record returns that date, that key and that signature, and
  -- as the signed data the first two objects, whatever the filler and the bytes behind the outer
  -- object are.
  pub read_age_record-file :
      (f : File) (ld d lk k ls s : Bytes) (date : Date) (key : RsaPublicKey)
      → link.transmit start (select_apdu ef_age_record) ≡ (ok (0x90 ∷ 0x00 ∷ []), t)
      → Serves link t (file_bytes f)
      → IsFile f
      → size_of f ≤ 0x8000
      → f.tag_field ≡ 0xFF ∷ 0x10 ∷ []
      → f.objects ≡ age_objects ld d lk k ls s
      → Date.parse d ≡ ok date
      → RsaKey.parse k ≡ ok key
      → read_age_record (suc fuel) before ≡ (
        ok (record {
          birth_date = date;
          public_key = key;
          signature = s;
          signed_data = encode_all (df 0x11 ld d ∷ df 0x12 lk k ∷ []);
        }),
        after,
      )
  unfolding read_age_record
  read_age_record-file f ld d lk k ls s date key h serves w le tag objects pd pk =
      let fields : parse_fields (file_bytes (trimmed f)) 0xFF10 none
          ≡ ok (fields_of (age_objects ld d lk k ls s)) =
        ap (λ x. parse_fields (file_bytes (trimmed f)) (big_endian x) none) (sym tag)
        ∙ parse_fields-file_bytes (trimmed f) (trimmed-IsFile f w)
        ∙ ap (λ x. ok (fields_of x)) objects in
      step-ok (read_ef (suc fuel) ef_age_record) (λ raw. lift (parse_age_record raw)) before after
        (file_bytes (trimmed f)) (read_ef-file ef_age_record f h serves w le)
      ∙ ap (λ x. (x, after))
          (parse_age_record-fields (file_bytes (trimmed f)) ld d lk k ls s date key pd pk fields)
