-- ===== src/Data/Fields/Covered.antt =====
-- Which fields of a data file the bytes before its signature fix.
use myna_card.Prelude.{
  ℕ, zero, suc, ◌+◌, ◌≡◌, refl, sym, ap, subst, ◌∙◌, arith, none, List, [], ◌∷◌, ◌++◌, append_assoc,
  length, length-append, drop, drop-append, Bytes, IsByte, All, All-of_append, ◌==◌, ◌||◌, false,
}
use myna_card.Error.{ok, bind-eq-ok}
use myna_card.Tlv.Ber.{Tlv}
use myna_card.Tlv.Ber.Objects.{IsObject, InMemory, ber_parse_iff}
use myna_card.Tlv.Ber.Iteration.{Object, encode, IsWritten, encode_all, AllWritten}
use myna_card.Data.Fields.{
  Field, Found, read_field, field_loop, parse_fields, in_front, bytes_before,
}
use myna_card.Data.Fields.Rounds.{parse_fields-found}
use myna_card.Data.Fields.Signed.{bytes_before-Signed, checked_fields-none, field_loop-raws}
use myna_card.Data.Fields.Written.{field_of, fields_of, read_field-encode}

-- What the loop does with a written object in front.
field_loop-first :
    (fuel : ℕ) (o : Object) (rest : Bytes) (pos : ℕ) (found : Found)
    → IsWritten o
    → All IsByte (encode o ++ rest)
    → InMemory (encode o ++ rest)
    → field_loop (suc fuel) none (encode o ++ rest) pos ≡ ok found
    → (later : Found) × (pos' : ℕ) × (field_loop fuel none rest pos' ≡ ok later)
      × (found.fields ≡ field_of o ∷ later.fields)
unfolding field_loop
field_loop-first fuel o rest pos found w bs mem h =
    let n : ℕ = length (encode o) in
    let whole : Bytes = encode o ++ rest in
    let continues : (o.first == 0x00 || o.first == 0xFF) ≡ false =
      ground (arith, w.not_zero, w.not_erased) in
    let read : read_field whole ≡ ok (n, field_of o) = read_field-encode o rest w bs mem in
    let h' = rw (continues, read) at h in
    let (later, l, e) = bind-eq-ok (field_loop fuel none (drop n whole) (pos + n)) _ h' in
    let same : in_front false (field_of o) pos later ≡ found = cc in
    (
      later,
      pos + n,
      subst (λ x. field_loop fuel none x (pos + n) ≡ ok later) (drop-append (encode o) rest n refl)
          l,
      ap (λ (x : Found). x.fields) (sym same),
    )

-- Objects that stand in front are the first fields, whatever follows them.
field_loop-fields_of :
    (fuel : ℕ) (os : List Object) (rest : Bytes) (pos : ℕ) (found : Found)
    → AllWritten os
    → All IsByte (encode_all os ++ rest)
    → InMemory (encode_all os ++ rest)
    → field_loop fuel none (encode_all os ++ rest) pos ≡ ok found
    → (others : List Field) × (found.fields ≡ fields_of os ++ others)
unfolding field_loop
field_loop-fields_of zero os rest pos found w bs mem h = cc
field_loop-fields_of (suc fuel) [] rest pos found w bs mem h = (found.fields, refl)
field_loop-fields_of (suc fuel) (o ∷ os) rest pos found (w, ws) bs mem h =
    let more : Bytes = encode_all os ++ rest in
    let same : encode_all (o ∷ os) ++ rest ≡ encode o ++ more =
      append_assoc (encode o) (encode_all os) rest in
    let bytes : All IsByte (encode o ++ more) = subst (All IsByte) same bs in
    let memory : InMemory (encode o ++ more) = subst InMemory same mem in
    let (later, pos', l, e) =
      field_loop-first fuel o more pos found w bytes memory
        (subst (λ x. field_loop (suc fuel) none x pos ≡ ok found) same h) in
    let (others, e') =
      field_loop-fields_of fuel os rest pos' later ws (All-of_append IsByte (encode o) more bytes).1
        (omega (arith, length-append (encode o) more)) l in
    (others, e ∙ ap (λ fs. field_of o ∷ fs) e')

-- The value of an object is of bytes and in memory.
value_of-object :
    (raw : Bytes) (t : Tlv)
    → IsObject raw t
    → All IsByte raw
    → InMemory raw
    → All IsByte t.value × InMemory t.value
value_of-object raw t o bs mem =
    let behind : Bytes = t.value ++ o.rest in
    let bytes = subst (All IsByte) o.whole bs in
    let (_, more) = All-of_append IsByte o.tag_field (o.length_field ++ behind) bytes in
    let (_, more') = All-of_append IsByte o.length_field behind more in
    (
      (All-of_append IsByte t.value o.rest more').0,
      omega (
        arith,
        ap length o.whole,
        length-append o.tag_field (o.length_field ++ behind),
        length-append o.length_field behind,
        length-append t.value o.rest,
      ),
    )

-- The bytes before a field fix the fields that they hold. Where a file in memory parses without an
-- offset table, and the bytes before the first field of a tag are those of written objects, the
-- fields of the file begin with exactly these objects, in order.
pub bytes_before-fields_of :
    (raw : Bytes) (tag t : ℕ) (fs : List Field) (os : List Object)
    → All IsByte raw
    → InMemory raw
    → AllWritten os
    → parse_fields raw tag none ≡ ok fs
    → bytes_before fs t ≡ ok (encode_all os)
    → (others : List Field) × (fs ≡ fields_of os ++ others)
bytes_before-fields_of raw tag t fs os bs mem w h k =
    let (outer, f, rest, p, _, whole) = bytes_before-Signed raw tag t fs (encode_all os) h k in
    let (outer', header, found, p', _, l, c) = parse_fields-found raw tag none fs h in
    let same : outer ≡ outer' = cc in
    let value : outer'.value ≡ encode_all os ++ (f.raw ++ rest) =
      ap (λ (x : Tlv). x.value) (sym same) ∙ whole in
    let (absent, _, _) =
      field_loop-raws (suc (length outer'.value)) outer'.value header.header_len found l in
    let o : IsObject raw outer' = (ber_parse_iff raw outer' bs mem).0 p' in
    let (value_bytes, value_memory) = value_of-object raw outer' o bs mem in
    let (others, e) =
      field_loop-fields_of (suc (length outer'.value)) os (f.raw ++ rest) header.header_len found w
        (subst (All IsByte) value value_bytes) (subst InMemory value value_memory)
        (subst (λ x. field_loop (suc (length outer'.value)) none x header.header_len ≡ ok found)
          value l) in
    (others, sym (checked_fields-none found fs absent c) ∙ e)
