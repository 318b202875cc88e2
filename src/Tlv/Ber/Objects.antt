-- ===== src/Tlv/Ber/Objects.antt =====
-- `parse` and the iterator against the layout of an object.
use myna_card.Prelude.{
  ℕ, ◌+◌, ◌-◌, ◌≤◌, ◌<◌, ◌^◌, ◌≡◌, refl, ap, sym, ◌∙◌, some, ◌++◌, length, length-append,
  length-take, take, drop, drop-append, take-append-drop, append_assoc, get_range?,
  get_range?-middle, Bytes, IsByte, All, All-of_append, ◌↔◌, arith,
}
use myna_card.Prelude.Words.{big_endian}
use myna_card.Error.{ok, ◌>>=◌, bind-eq-ok}
use myna_card.Tlv.Ber.{Header, Tlv, total_len, parse_header, parse, read_object}
use myna_card.Tlv.Ber.Layout.{IsTag, IsLength, length_value}
use myna_card.Tlv.Ber.Reading.{IsHeader, header_of, parse_header_iff}
use myna_card.Tlv.Ber.Bounds.{HeaderFits, parse_header-HeaderFits}

-- The bytes begin with an object: its tag, a length field that gives the length of its value, and
-- its value.
pub record IsObject (bytes : Bytes) (t : Tlv) : Type 0 where
  pub tag_field : Bytes
  pub length_field : Bytes
  pub rest : Bytes
  pub is_tag : IsTag tag_field
  pub is_length : IsLength length_field
  pub tag_value : t.tag ≡ big_endian tag_field
  pub size : length_value length_field ≡ length t.value
  pub whole : bytes ≡ tag_field ++ (length_field ++ (t.value ++ rest))

-- How many of the bytes the object takes.
abbrev pub extent : {bytes : Bytes} {t : Tlv} → IsObject bytes t → ℕ
extent {t = t} r = length r.tag_field + length r.length_field + length t.value

pub extent-le : {bytes : Bytes} {t : Tlv} (o : IsObject bytes t) → extent o ≤ length bytes
extent-le {t = t} o = omega (
  arith,
  ap length o.whole,
  length-append o.tag_field (o.length_field ++ (t.value ++ o.rest)),
  length-append o.length_field (t.value ++ o.rest),
  length-append t.value o.rest,
)

-- Bytes that fit the memory of the program.
abbrev pub InMemory : Bytes → Type 0
InMemory bytes = length bytes < 2 ^ 63

-- A sum that wraps is below the header's length, so no slice ends there.
total_len-exact :
    (bytes : Bytes) (h : Header)
    → HeaderFits bytes h
    → h.header_len ≤ total_len h
    → total_len h ≡ h.header_len + h.length
total_len-exact bytes h f le = omega (arith, f.size, f.at_most)

pub read_object_steps :
    (bytes : Bytes) {n : ℕ} {t : Tlv}
    → read_object bytes ≡ ok (n, t)
    → (h : Header) × (parse_header bytes ≡ ok h)
      × (h.header_len ≤ n)
      × (n ≤ length bytes)
      × (n ≡ total_len h)
      × (t ≡ record { tag = h.tag; value = take (n - h.header_len) (drop h.header_len bytes) })
unfolding read_object
read_object_steps bytes e =
    let (h, head, more) = bind-eq-ok (parse_header bytes) _ e in
    (h, head, ground arith, ground arith, ground arith, ground arith)

-- The object behind a header, once its end is known.
object_behind :
    (bytes : Bytes) (h : Header) (r : IsHeader bytes h) {n : ℕ} {t : Tlv}
    → n ≡ h.header_len + h.length
    → n ≤ length bytes
    → t ≡ record { tag = h.tag; value = take (n - h.header_len) (drop h.header_len bytes) }
    → (o : IsObject bytes t) × (n ≡ extent o)
object_behind bytes h r {n} {t} end high same =
    let head : Bytes = r.tag_field ++ r.length_field in
    let size : h.length ≡ length_value r.length_field = ap (λ (x : Header). x.length) r.header in
    let taken : h.header_len ≡ length r.tag_field + length r.length_field =
      ap (λ (x : Header). x.header_len) r.header in
    let whole : bytes ≡ head ++ r.rest =
      r.whole ∙ sym (append_assoc r.tag_field r.length_field r.rest) in
    let behind : drop h.header_len bytes ≡ r.rest =
      ap (drop h.header_len) whole
      ∙ drop-append head r.rest h.header_len
          (omega (arith, length-append r.tag_field r.length_field)) in
    let room : length bytes ≡ h.header_len + length r.rest = omega (
      arith,
      ap length whole,
      length-append head r.rest,
      length-append r.tag_field r.length_field,
    ) in
    let rest_of : n - h.header_len ≡ h.length = omega arith in
    let value : t.value ≡ take h.length r.rest =
      ap (λ (x : Tlv). x.value) same ∙ rw (rest_of, behind) in
    let long : length t.value ≡ h.length =
      omega (arith, ap length value, length-take h.length r.rest) in
    (
      record {
        tag_field = r.tag_field;
        length_field = r.length_field;
        rest = drop h.length r.rest;
        is_tag = r.is_tag;
        is_length = r.is_length;
        tag_value = ap (λ (x : Tlv). x.tag) same ∙ ap (λ (x : Header). x.tag) r.header;
        size = omega arith;
        whole =
            r.whole
            ∙ ap (λ x. r.tag_field ++ (r.length_field ++ x))
                (sym (rw value (take-append-drop h.length r.rest)));
      },
      omega arith,
    )

pub read_object-IsObject :
    (bytes : Bytes) {n : ℕ} {t : Tlv}
    → All IsByte bytes
    → read_object bytes ≡ ok (n, t)
    → (o : IsObject bytes t) × (n ≡ extent o)
read_object-IsObject bytes {n} {t} bs e =
    let (h, head, low, high, total, same) = read_object_steps bytes e in
    let fits : HeaderFits bytes h = parse_header-HeaderFits bytes h bs head in
    object_behind bytes h ((parse_header_iff bytes h bs).0 head)
      (total ∙ total_len-exact bytes h fits (omega arith)) high same

-- An object that stands at the front of bytes in memory is read, and is what was read.
pub IsObject-read_object :
    (bytes : Bytes) {t : Tlv}
    → All IsByte bytes
    → InMemory bytes
    → (o : IsObject bytes t) → read_object bytes ≡ ok (extent o, t)
unfolding read_object
IsObject-read_object bytes {t} bs mem o =
    let behind : Bytes = t.value ++ o.rest in
    let head : parse_header bytes ≡ ok (header_of o.tag_field o.length_field) =
      (parse_header_iff bytes _ bs).1 (record {
        tag_field = o.tag_field;
        length_field = o.length_field;
        rest = behind;
        is_tag = o.is_tag;
        is_length = o.is_length;
        whole = o.whole;
        header = refl;
      }) in
    let front : Bytes = o.tag_field ++ o.length_field in
    let whole : bytes ≡ front ++ (t.value ++ o.rest) =
      o.whole ∙ sym (append_assoc o.tag_field o.length_field behind) in
    let room : extent o ≤ length bytes = omega (
      arith,
      ap length whole,
      length-append front behind,
      length-append o.tag_field o.length_field,
      length-append t.value o.rest,
    ) in
    let total : total_len (header_of o.tag_field o.length_field) ≡ extent o =
      omega (arith, o.size) in
    let found : get_range? bytes (length o.tag_field + length o.length_field) (extent o)
        ≡ some t.value =
      rw whole (
        get_range?-middle front t.value o.rest (length o.tag_field + length o.length_field)
          (extent o) (omega (arith, length-append o.tag_field o.length_field))
          (omega (arith, length-append o.tag_field o.length_field))) in
    rw (head, total, found, ← o.tag_value)

parse-read_object : (bytes : Bytes) → parse bytes ≡ (read_object bytes >>= λ p. ok p.1)
unfolding parse read_object
parse-read_object bytes = ground arith

-- `parse` returns an object exactly when the bytes begin with one: a tag, a length field that
-- gives the number of bytes of the value, and the value in full. A length so great that the end of
-- the object wraps round the machine word is never taken for a short one.
pub ber_parse_iff :
    (bytes : Bytes) (t : Tlv)
    → All IsByte bytes
    → InMemory bytes
    → (parse bytes ≡ ok t) ↔ IsObject bytes t
ber_parse_iff bytes t bs mem = (reads, written)
  where
    reads : parse bytes ≡ ok t → IsObject bytes t
    reads e =
        let ((n, t'), r, same) = bind-eq-ok (read_object bytes) _ (rw parse-read_object at e) in
        let seen : read_object bytes ≡ ok (n, t) = cc in (read_object-IsObject bytes bs seen).0

    written : IsObject bytes t → parse bytes ≡ ok t
    written o = rw (parse-read_object, IsObject-read_object bytes bs mem o)

-- What stands behind an object does not matter.
pub parse-append :
    (bytes more : Bytes) (t : Tlv)
    → All IsByte (bytes ++ more)
    → InMemory (bytes ++ more)
    → parse bytes ≡ ok t
    → (parse (bytes ++ more) ≡ ok t) × (length t.value ≤ length bytes)
parse-append bytes more t bs mem e =
    let o : IsObject bytes t =
      (ber_parse_iff bytes t (All-of_append IsByte bytes more bs).0
          (omega (arith, length-append bytes more))).0
        e in
    (
      (ber_parse_iff (bytes ++ more) t bs mem).1 (record {
        tag_field = o.tag_field;
        length_field = o.length_field;
        rest = o.rest ++ more;
        is_tag = o.is_tag;
        is_length = o.is_length;
        tag_value = o.tag_value;
        size = o.size;
        whole =
            ap (λ x. x ++ more) o.whole
            ∙ append_assoc o.tag_field (o.length_field ++ (t.value ++ o.rest)) more
            ∙ ap (λ x. o.tag_field ++ x) (append_assoc o.length_field (t.value ++ o.rest) more)
            ∙ ap (λ x. o.tag_field ++ (o.length_field ++ x)) (append_assoc t.value o.rest more);
      }),
      omega (arith, extent-le o),
    )
