-- ===== src/Tlv/Ber/Reading.antt =====
-- `parse_header` against the layout of a header: what it accepts, its bounds, and what follows.
use myna_card.Prelude.{ℕ, ◌+◌, ◌≡◌, ap, ◌∙◌, ◌++◌, length, Bytes, IsByte, All, All-of_append, ◌↔◌}
use myna_card.Prelude.Words.{big_endian}
use myna_card.Error.{ok, bind-eq-ok}
use myna_card.Tlv.Ber.{Header, read_tag, read_length, parse_header}
use myna_card.Tlv.Ber.Layout.{IsTag, IsLength, length_value}
use myna_card.Tlv.Ber.Tag.{read_tag-append, read_tag-split}
use myna_card.Tlv.Ber.Length.{read_length-append, read_length-split}

-- The header that a tag and a length field make.
abbrev pub header_of : Bytes → Bytes → Header
header_of t l = record {
  tag = big_endian t;
  length = length_value l;
  header_len = length t + length l;
}

-- The bytes begin with the tag and the length field of the header.
pub record IsHeader (bytes : Bytes) (h : Header) : Type 0 where
  pub tag_field : Bytes
  pub length_field : Bytes
  pub rest : Bytes
  pub is_tag : IsTag tag_field
  pub is_length : IsLength length_field
  pub whole : bytes ≡ tag_field ++ (length_field ++ rest)
  pub header : h ≡ header_of tag_field length_field

pub parse_header-append :
    (t l rest : Bytes)
    → IsTag t
    → IsLength l
    → All IsByte t
    → All IsByte l
    → parse_header (t ++ (l ++ rest)) ≡ ok (header_of t l)
unfolding parse_header
parse_header-append t l rest ht hl bt bl =
    rw (read_tag-append t (l ++ rest) ht bt, read_length-append t l rest hl bl)

-- The steps of a successful `parse_header`.
parse_header_steps :
    (bytes : Bytes) {h : Header}
    → parse_header bytes ≡ ok h
    → (tag : ℕ) × (pos : ℕ) × (size : ℕ) × (pos' : ℕ) × (read_tag bytes ≡ ok (tag, pos))
      × (read_length bytes pos ≡ ok (size, pos'))
      × (h ≡ record { tag = tag; length = size; header_len = pos' })
unfolding parse_header
parse_header_steps bytes e =
    let ((tag, pos), first, more) = bind-eq-ok (read_tag bytes) _ e in
    let ((size, pos'), second, last) = bind-eq-ok (read_length bytes pos) _ more in
    (tag, pos, size, pos', first, second, cc)

parse_header-IsHeader :
    (bytes : Bytes) {h : Header} → All IsByte bytes → parse_header bytes ≡ ok h → IsHeader bytes h
parse_header-IsHeader bytes {h} bs e =
    let (tag, pos, size, pos', first, second, same) = parse_header_steps bytes e in
    let (t, behind, is_tag, split, tag_value, pos_value) = read_tag-split bytes bs first in
    let there : read_length (t ++ behind) (length t) ≡ ok (size, pos') =
      rw (split, pos_value) at second in
    let (l, rest, is_length, split', size_value, end_value) =
      read_length-split t behind (All-of_append IsByte t behind (rw split at bs)).1 there in
    record {
      tag_field = t;
      length_field = l;
      rest = rest;
      is_tag = is_tag;
      is_length = is_length;
      whole = split ∙ ap (λ r. t ++ r) split';
      header = cc;
    }

IsHeader-parse_header :
    (bytes : Bytes) {h : Header} → All IsByte bytes → IsHeader bytes h → parse_header bytes ≡ ok h
IsHeader-parse_header bytes bs r =
    let split : All IsByte r.tag_field × All IsByte (r.length_field ++ r.rest) =
      All-of_append IsByte r.tag_field _ (rw r.whole at bs) in
    rw (r.whole, r.header)
      (parse_header-append r.tag_field r.length_field r.rest r.is_tag r.is_length split.0
        (All-of_append IsByte r.length_field r.rest split.1).0)

-- `parse_header` returns a header exactly when the bytes begin with a tag of one to four bytes and a
-- definite length of one to nine, and then it is their value, and the number of bytes they take;
-- what follows, and whether the value is there, does not matter.
pub parse_header_iff :
    (bytes : Bytes) (h : Header) → All IsByte bytes → (parse_header bytes ≡ ok h) ↔ IsHeader bytes h
parse_header_iff bytes h bs = (parse_header-IsHeader bytes bs, IsHeader-parse_header bytes bs)
