-- ===== src/Card/Files/Whole.antt =====
-- `read_binary_all` on a card that serves a file.
use myna_card.Prelude.{
  ℕ, suc, ◌+◌, ◌-◌, ◌%◌, min, ◌≤◌, ◌<◌, ◌≡◌, refl, ap, ◌∙◌, sym, Bool-cases, true, false, [], ◌++◌,
  length, take, length-append, take-take, take-beyond, append_assoc, Bytes, IsByte, All,
  All-of_append, arith, ltb, leb, ltb→lt, ltb_false→le, leb→le, leb_false→lt, ◌⊎◌, inl, inr,
}
use myna_card.Error.{Error, ok, err}
use myna_card.Transport.{Transmit}
use myna_card.Tlv.Ber.{Header, Tlv, total_len, parse_header}
use myna_card.Tlv.Ber.Reading.{header_of, parse_header-append, parse_header_iff}
use myna_card.Tlv.Ber.Bounds.{HeaderFits, parse_header-HeaderFits}
use myna_card.Tlv.Ber.Objects.{IsObject, extent, extent-le}
use myna_card.Card.{Card}
use myna_card.Card.Files.{read_binary, read_rest, read_binary_all, physical_loop, max_offset}
use myna_card.Card.Files.Serving.{Serves}
use myna_card.Card.Files.Reading.{
  slice, slice-append, slice-end, Holds-more, length-slice, read-on, read-end, read_binary-file,
  physical_loop-file,
}

header_of-HeaderFits :
    (file : Bytes) (t : Tlv) (o : IsObject file t)
    → All IsByte file
    → HeaderFits file (header_of o.tag_field o.length_field)
header_of-HeaderFits file t o bs = parse_header-HeaderFits file _ bs (
    (parse_header_iff file _ bs).1 (record {
      tag_field = o.tag_field;
      length_field = o.length_field;
      rest = t.value ++ o.rest;
      is_tag = o.is_tag;
      is_length = o.is_length;
      whole = o.whole;
      header = refl;
    }))

-- The first chunk shows the header of the object.
first_chunk-parse_header :
    (file : Bytes) (t : Tlv) (o : IsObject file t)
    → All IsByte file
    → parse_header (slice file 0 256) ≡ ok (header_of o.tag_field o.length_field)
first_chunk-parse_header file t o bs =
    let tail : Bytes = t.value ++ o.rest in
    let front : Bytes = o.tag_field ++ o.length_field in
    let fits : HeaderFits file _ = header_of-HeaderFits file t o bs in
    let room : length front ≤ 256 =
      omega (arith, fits.at_most, length-append o.tag_field o.length_field) in
    let cut : slice file 0 256 ≡ o.tag_field ++ (o.length_field ++ take (256 - length front) tail) =
      ap (take 256) (o.whole ∙ sym (append_assoc o.tag_field o.length_field tail))
      ∙ take-beyond 256 front tail room
      ∙ append_assoc o.tag_field o.length_field _ in
    let bytes : All IsByte (o.tag_field ++ (o.length_field ++ tail)) = rw o.whole at bs in
    let (tag, more) = All-of_append IsByte o.tag_field _ bytes in
    let (len, _) = All-of_append IsByte o.length_field tail more in
    rw cut (
      parse_header-append o.tag_field o.length_field (take (256 - length front) tail) o.is_tag
        o.is_length tag len)

aligned : (n l : ℕ) → n ≡ min 256 l → (n % 256 ≡ 0) ⊎ (l ≤ n)
aligned n l h = elim (Bool-cases (leb l 256)) [
  | inl le ↦ inr (omega (arith, leb→le l 256 le))
  | inr gt ↦ inl (omega (arith, leb_false→lt l 256 gt))
]

module _ {T : Type 0} ⦃link : Transmit T⦄ (fuel : ℕ) (out : Bytes) (c : Card T) where
  pub read_rest-within :
      (h : Header)
      → parse_header out ≡ ok h
      → leb (total_len h) (length out) ≡ true
      → read_rest fuel out c ≡ (ok (take (total_len h) out), c)
  unfolding read_rest
  read_rest-within h e w = rw (e, w, read_rest)

  read_rest-beyond :
      (h : Header) (rest : Bytes)
      → parse_header out ≡ ok h
      → leb (total_len h) (length out) ≡ false
      → read_binary fuel (length out) (total_len h - length out) c ≡ (ok rest, c)
      → read_rest fuel out c ≡ (ok (out ++ rest), c)
  unfolding read_rest
  read_rest-beyond h rest e w r = rw (e, w, r, read_rest)

  read_rest-plain :
      (e : Error)
      → parse_header out ≡ err e
      → read_rest fuel out c ≡ physical_loop fuel (max_offset + 2) out c
  unfolding read_rest
  read_rest-plain e n = rw (n, read_rest)

module _ {T : Type 0} ⦃link : Transmit T⦄ (fuel : ℕ) (t : T) (file : Bytes)
    (s : Serves link t file) where
  abbrev card : Card T
  card = record { transport = t }

  first :
      0 < length file
      → read_binary_all (suc fuel) card ≡ read_rest (suc fuel) (slice file 0 256) card
  unfolding read_binary_all
  first h =
      read-on fuel t file s [] 0 256 (read_rest (suc fuel)) h (omega arith) (omega arith)
        (omega arith)

  at_end : length file ≤ 0 → read_binary_all (suc fuel) card ≡ (ok [], card)
  unfolding read_binary_all
  at_end h =
      read-end fuel t file s [] 0 256 (read_rest (suc fuel)) h (omega arith) (omega arith)
        (omega arith)

  -- On a card that serves a file as READ BINARY is documented, where the file begins with a
  -- BER-TLV object that ends within 32 KiB, `read_binary_all` returns the bytes of that object,
  -- without what stands behind it.
  pub read_binary_all-object :
      (x : Tlv) (o : IsObject file x)
      → All IsByte file
      → extent o ≤ 0x8000
      → read_binary_all (suc fuel) card ≡ (ok (take (extent o) file), card)
  unfolding read_rest
  read_binary_all-object x o bs le =
      let h : Header = header_of o.tag_field o.length_field in
      let head : parse_header (slice file 0 256) ≡ ok h = first_chunk-parse_header file x o bs in
      let total : total_len h ≡ extent o = omega (arith, o.size) in
      let size : length (slice file 0 256) ≡ min 256 (length file) =
        omega (arith, length-slice file 0 256) in
      let inside : extent o ≤ length file = extent-le o in
      let fits : HeaderFits file h = header_of-HeaderFits file x o bs in
      let there : 0 < length file = omega (arith, fits.at_least) in
      elim (Bool-cases (leb (total_len h) (length (slice file 0 256)))) [
        | inl within ↦
            let short : extent o ≤ 256 = omega (arith, leb→le _ _ within) in
            first there
            ∙ read_rest-within (suc fuel) _ card h head within
            ∙ ap (λ x. (ok x, card))
                (ap (λ k. take k (slice file 0 256)) total ∙ take-take (extent o) 256 file short)
        | inr beyond ↦
            let full : length (slice file 0 256) ≡ 256 = omega (arith, leb_false→lt _ _ beyond) in
            let more : total_len h - length (slice file 0 256) ≡ extent o - 256 = omega arith in
            first there
            ∙ read_rest-beyond (suc fuel) _ card h (slice file 256 (extent o - 256)) head beyond (
                rw (more, full)
                  (read_binary-file fuel t file s 256 (extent o - 256)
                    (inl (omega (arith, leb_false→lt _ _ beyond)))))
            ∙ ap (λ x. (ok x, card))
                (slice-append file 0 256 (extent o - 256)
                  ∙ ap (λ k. take k file) (omega (arith, leb_false→lt _ _ beyond)))
      ]

  -- On a card that serves a file as READ BINARY is documented, where the first 256 bytes of the
  -- file do not begin with a BER-TLV header, `read_binary_all` returns the file's content up to
  -- 32 KiB.
  pub read_binary_all-plain :
      (e : Error)
      → parse_header (slice file 0 256) ≡ err e
      → read_binary_all (suc fuel) card ≡ (ok (slice file 0 0x8000), card)
  unfolding read_rest
  read_binary_all-plain e none = elim (Bool-cases (ltb 0 (length file))) [
    | inl some ↦
        first (ltb→lt _ _ some)
        ∙ read_rest-plain (suc fuel) (slice file 0 256) card e none
        ∙ physical_loop-file fuel t file s (max_offset + 2) (slice file 0 256)
            (Holds-more file 0 256 0 [] refl (record { prefix = refl; inside = omega arith }))
            (aligned (length (slice file 0 256)) (length file)
              (omega (arith, length-slice file 0 256)))
            (omega (arith, length-slice file 0 256)) (omega arith)
    | inr empty ↦
        at_end (ltb_false→le _ _ empty)
        ∙ ap (λ x. (ok x, card))
            (slice-end file 0 0 0x8000 (omega (arith, ltb_false→le _ _ empty))
              (omega (arith, ltb_false→le _ _ empty)))
  ]
