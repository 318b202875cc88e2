-- ===== src/Tlv/Ber/Value.antt =====
-- Where the value of an object stands.
use myna_card.Prelude.{
  ◌-◌, ◌≡◌, sym, ap, ◌∙◌, some, ◌++◌, drop, take-append-drop, get_range?, get_range?-eq-some,
  Option, none, Bytes, [],
}
use myna_card.Error.{ok, ok_or, malformed, Error, bind-eq-ok}
use myna_card.Tlv.Ber.{Header, Tlv, total_len, parse_header, parse}

pub ok_or-eq-some : {A : Type 0} (o : Option A) (e : Error) (a : A) → ok_or o e ≡ ok a → o ≡ some a
ok_or-eq-some none e a h = cc
ok_or-eq-some (some b) e a h = cc

-- The value begins right behind the header.
pub parse-drop :
    (bytes : Bytes) (h : Header) (t : Tlv)
    → parse_header bytes ≡ ok h
    → parse bytes ≡ ok t
    → (tail : Bytes) × (drop h.header_len bytes ≡ t.value ++ tail)
unfolding parse
parse-drop bytes h t p q =
    let (h', p', q') = bind-eq-ok (parse_header bytes) _ q in
    let same : h' ≡ h = cc in
    let (value, v, e) =
      bind-eq-ok
        (ok_or (get_range? bytes h'.header_len (total_len h'))
          (malformed "TLV value is truncated" []))
        _ q' in
    let (_, _, slice) =
      get_range?-eq-some bytes value h'.header_len (total_len h') (ok_or-eq-some _ _ value v) in
    let te : record { tag = h'.tag; value = value } ≡ t = cc in
    let n = total_len h' - h'.header_len in
    (
      drop n (drop h'.header_len bytes),
      ap (λ k. drop k.header_len bytes) (sym same)
          ∙ (sym (take-append-drop n (drop h'.header_len bytes))
              ∙ (ap (λ x. x ++ drop n (drop h'.header_len bytes)) (sym slice)
                  ∙ ap (λ x. x.value ++ drop n (drop h'.header_len bytes)) te)),
    )
