-- ===== src/Data/Fields/Written.antt =====
-- Data files as they are written, and the fields that are read back.
use myna_card.Prelude.{
  ℕ, zero, suc, ◌+◌, ◌<◌, ◌≡◌, refl, ap, subst, ◌∙◌, arith, true, false, Option, none, List, [],
  ◌∷◌, ◌++◌, append_assoc, length, length-append, take, drop, take-append, drop-append, Bytes,
  IsByte, All, All-of_append, ◌==◌, ==_iff, ◌||◌,
}
use myna_card.Prelude.Words.{big_endian}
use myna_card.Error.{ok}
use myna_card.Tlv.Ber.{Header, Tlv, total_len, parse_header, read_object}
use myna_card.Tlv.Ber
use myna_card.Tlv.Ber.Layout.{IsTag, IsLength, length_value}
use myna_card.Tlv.Ber.Objects.{
  IsObject, InMemory, extent, IsObject-read_object, read_object_steps, ber_parse_iff,
}
use myna_card.Tlv.Ber.Reading.{header_of, parse_header-append}
use myna_card.Tlv.Ber.Iteration.{
  Object, encode, tlv_of, IsWritten, encode_all, AllWritten, IsFiller, encode-IsObject,
}
use myna_card.Data.Fields.{
  Field, Found, nothing_found, read_field, field_loop, parse_fields, is_table, in_front,
  checked_fields,
}

abbrev pub field_of : Object → Field
field_of o = record { tag = (tlv_of o).tag; value = o.value; raw = encode o }

abbrev pub fields_of : List Object → List Field
fields_of [] = []
fields_of (o ∷ os) = field_of o ∷ fields_of os

-- A field whose tag is DF and one more byte.
abbrev pub df : ℕ → Bytes → Bytes → Object
df low length_field value = record {
  first = 0xDF;
  tag_rest = low ∷ [];
  length_field = length_field;
  value = value;
}

-- What the loop finds in objects that are written from a position on.
abbrev pub found_of : Option ℕ → List Object → ℕ → Found
found_of table [] pos = nothing_found
found_of table (o ∷ os) pos =
    in_front (is_table (tlv_of o).tag table) (field_of o) pos
      (found_of table os (pos + length (encode o)))

-- The field and the object that are read off the same bytes.
read_field-read_object :
    (rest : Bytes) (n : ℕ) (t : Tlv)
    → read_object rest ≡ ok (n, t)
    → read_field rest ≡ ok (n, record { tag = t.tag; value = t.value; raw = take n rest })
unfolding read_field
read_field-read_object rest n t e =
    let (h, head, low, high, total, same) = read_object_steps rest e in rw head (ground arith)

pub read_field-encode :
    (o : Object) (rest : Bytes)
    → IsWritten o
    → All IsByte (encode o ++ rest)
    → InMemory (encode o ++ rest)
    → read_field (encode o ++ rest) ≡ ok (length (encode o), field_of o)
read_field-encode o rest w bs mem =
    let (obj, size) = encode-IsObject o rest w in
    let whole : Bytes = encode o ++ rest in
    let read =
      read_field-read_object whole (extent obj) (tlv_of o)
        (IsObject-read_object whole bs mem obj) in
    let same : take (extent obj) whole ≡ encode o = take-append (encode o) rest (extent obj) size in
    read ∙ (λ i. ok (size i, record { tag = (tlv_of o).tag; value = o.value; raw = same i }))

-- One round of the loop.
field_loop-encode :
    (fuel : ℕ) (table : Option ℕ) (o : Object) (rest : Bytes) (pos : ℕ) (found : Found)
    → IsWritten o
    → All IsByte (encode o ++ rest)
    → InMemory (encode o ++ rest)
    → field_loop fuel table rest (pos + length (encode o)) ≡ ok found
    → field_loop (suc fuel) table (encode o ++ rest) pos
      ≡ ok (in_front (is_table (tlv_of o).tag table) (field_of o) pos found)
unfolding field_loop
field_loop-encode fuel table o rest pos found w bs mem h =
    let after : drop (length (encode o)) (encode o ++ rest) ≡ rest =
      drop-append (encode o) rest (length (encode o)) refl in
    let continues : (o.first == 0x00 || o.first == 0xFF) ≡ false =
      ground (arith, w.not_zero, w.not_erased) in
    rw (continues, read_field-encode o rest w bs mem, after, h) refl

field_loop-filler :
    (fuel : ℕ) (table : Option ℕ) (filler : Bytes) (pos : ℕ)
    → IsFiller filler
    → field_loop (suc fuel) table filler pos ≡ ok nothing_found
unfolding field_loop
field_loop-filler fuel table [] pos h = refl
field_loop-filler fuel table (b ∷ bs) pos h = ground arith

pub field_loop-encode_all :
    (os : List Object) (filler : Bytes) (fuel : ℕ) (table : Option ℕ) (pos : ℕ)
    → AllWritten os
    → IsFiller filler
    → All IsByte (encode_all os ++ filler)
    → InMemory (encode_all os ++ filler)
    → length (encode_all os ++ filler) < fuel
    → field_loop fuel table (encode_all os ++ filler) pos ≡ ok (found_of table os pos)
field_loop-encode_all os filler zero table pos w hf bs mem l = absurd (omega arith)
field_loop-encode_all [] filler (suc fuel) table pos w hf bs mem l =
    field_loop-filler fuel table filler pos hf
field_loop-encode_all (o ∷ os) filler (suc fuel) table pos (w, ws) hf bs mem l =
    let more : Bytes = encode_all os ++ filler in
    let same : encode_all (o ∷ os) ++ filler ≡ encode o ++ more =
      append_assoc (encode o) (encode_all os) filler in
    let shorter : length (encode_all (o ∷ os) ++ filler) ≡ length (encode o) + length more =
      ap length same ∙ length-append (encode o) more in
    let bytes : All IsByte (encode o ++ more) = subst (All IsByte) same bs in
    ap (λ x. field_loop (suc fuel) table x pos) same
    ∙ field_loop-encode fuel table o more pos (found_of table os (pos + length (encode o))) w bytes
        (omega (arith, length-append (encode o) more))
        (field_loop-encode_all os filler fuel table (pos + length (encode o)) ws hf
          (All-of_append IsByte (encode o) more bytes).1 (omega arith) (omega arith))

-- Where no object is an offset table, the fields are all the objects.
found_of-none :
    (os : List Object) (pos : ℕ)
    → (found_of none os pos).offsets ≡ none × ((found_of none os pos).fields ≡ fields_of os)
found_of-none [] pos = (refl, refl)
found_of-none (o ∷ os) pos =
    let (absent, same) = found_of-none os (pos + length (encode o)) in
    (absent, ap (λ fs. field_of o ∷ fs) same)

checked_fields-none :
    (found : Found) → found.offsets ≡ none → checked_fields found ≡ ok found.fields
checked_fields-none found e = rw e refl

-- A data file: its tag, a length, the objects with filler behind them, and what stands behind it all.
pub record File : Type 0 where
  pub tag_field : Bytes
  pub length_field : Bytes
  pub objects : List Object
  pub filler : Bytes
  pub trailing : Bytes

abbrev pub file_value : File → Bytes
file_value f = encode_all f.objects ++ f.filler

abbrev pub file_bytes : File → Bytes
file_bytes f = f.tag_field ++ (f.length_field ++ (file_value f ++ f.trailing))

pub record IsFile (f : File) : Type 0 where
  pub is_tag : IsTag f.tag_field
  pub is_length : IsLength f.length_field
  pub size : length_value f.length_field ≡ length (file_value f)
  pub written : AllWritten f.objects
  pub is_filler : IsFiller f.filler
  pub bytes : All IsByte (file_bytes f)
  pub in_memory : InMemory (file_bytes f)

-- The outer object of a file.
abbrev pub file_object :
    (f : File)
    → IsFile f
    → IsObject (file_bytes f) (record { tag = big_endian f.tag_field; value = file_value f })
file_object f w = record {
  tag_field = f.tag_field;
  length_field = f.length_field;
  rest = f.trailing;
  is_tag = w.is_tag;
  is_length = w.is_length;
  tag_value = refl;
  size = w.size;
  whole = refl;
}

-- `parse` from its parts.
parse_fields-of :
    (raw : Bytes) (outer : Tlv) (header : Header) (found : Found)
    → Ber.parse raw ≡ ok outer
    → parse_header raw ≡ ok header
    → field_loop (suc (length outer.value)) none outer.value header.header_len ≡ ok found
    → found.offsets ≡ none
    → parse_fields raw outer.tag none ≡ ok found.fields
unfolding parse_fields
parse_fields-of raw outer header found p q l e =
    let same : (outer.tag == outer.tag) ≡ true = (==_iff outer.tag outer.tag).1 refl in
    rw (p, same, q, l) (checked_fields-none found e)

-- A written file parses, without an offset table, to its objects in order, each with its tag, its
-- value and all its bytes, whatever stands behind the outer object or the filler in it.
pub parse_fields-file_bytes :
    (f : File)
    → IsFile f
    → parse_fields (file_bytes f) (big_endian f.tag_field) none ≡ ok (fields_of f.objects)
parse_fields-file_bytes f w =
    let value : Bytes = file_value f in
    let behind : Bytes = value ++ f.trailing in
    let (tag_bytes, more) = All-of_append IsByte f.tag_field (f.length_field ++ behind) w.bytes in
    let (length_bytes, more') = All-of_append IsByte f.length_field behind more in
    let size : InMemory value = omega (
      arith,
      w.in_memory,
      length-append f.tag_field (f.length_field ++ behind),
      length-append f.length_field behind,
      length-append value f.trailing,
    ) in
    let start : ℕ = length f.tag_field + length f.length_field in
    let (absent, same) = found_of-none f.objects start in
    parse_fields-of (file_bytes f) (record { tag = big_endian f.tag_field; value = value })
      (header_of f.tag_field f.length_field) (found_of none f.objects start)
      ((ber_parse_iff (file_bytes f) _ w.bytes w.in_memory).1 (file_object f w))
      (parse_header-append f.tag_field f.length_field behind w.is_tag w.is_length tag_bytes
        length_bytes)
      (field_loop-encode_all f.objects f.filler (suc (length value)) none start w.written
        w.is_filler (All-of_append IsByte value f.trailing more').0 size (omega arith))
      absent
    ∙ ap (λ fs. ok fs) same
