-- ===== src/Tlv/Ber/Bounds.antt =====
-- The numbers in a header that was read.
use myna_card.Prelude.{
  ◌≤◌, ◌<◌, ◌^◌, ◌≡◌, ap, ◌++◌, length, length-append, Bytes, IsByte, All, All-of_append, arith,
}
use myna_card.Error.{ok}
use myna_card.Tlv.Ber.{Header, parse_header}
use myna_card.Tlv.Ber.Reading.{IsHeader, parse_header_iff}
use myna_card.Tlv.Ber.Tag.{length-IsTag, big_endian-IsTag}
use myna_card.Tlv.Ber.Length.{length-IsLength, length_value-lt}

pub record HeaderFits (bytes : Bytes) (h : Header) : Type 0 where
  pub tag : h.tag < 2 ^ 32
  pub size : h.length < 2 ^ 64
  pub at_least : 2 ≤ h.header_len
  pub at_most : h.header_len ≤ 13
  pub within : h.header_len ≤ length bytes

-- A header that `parse_header` returns has a tag of 32 bits, a length of 64 bits, and takes 2 to 13
-- of the bytes that are there.
pub parse_header-HeaderFits :
    (bytes : Bytes) (h : Header) → All IsByte bytes → parse_header bytes ≡ ok h → HeaderFits bytes h
parse_header-HeaderFits bytes h bs e =
    let r : IsHeader bytes h = (parse_header_iff bytes h bs).0 e in
    let (bt, bl) = All-of_append IsByte r.tag_field (r.length_field ++ r.rest) (rw r.whole at bs) in
    let (bl', _) = All-of_append IsByte r.length_field r.rest bl in
    let (t1, t4) = length-IsTag r.tag_field r.is_tag in
    let (l1, l9) = length-IsLength r.length_field r.is_length in
    rw r.header (record {
      tag = big_endian-IsTag r.tag_field r.is_tag bt;
      size = length_value-lt r.length_field r.is_length bl';
      at_least = omega arith;
      at_most = omega arith;
      within = omega (
        arith,
        ap length r.whole,
        length-append r.tag_field (r.length_field ++ r.rest),
        length-append r.length_field r.rest,
      );
    })
