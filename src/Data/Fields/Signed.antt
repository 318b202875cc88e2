-- ===== src/Data/Fields/Signed.antt =====
-- What the signed bytes of a data file without an offset table are.
use myna_card.Prelude.{
  ℕ, zero, suc, ◌+◌, ◌≡◌, refl, sym, ap, subst, ◌∙◌, inl, inr, Bool, true, false, none, List, [],
  ◌∷◌, ◌++◌, append_assoc, length, take, drop, take-append-drop, Bytes, ◌==◌, if◌then◌else◌,
}
use myna_card.Error.{Result, ok, ◌>>=◌, bind-eq-ok}
use myna_card.Tlv.Ber.{Header, total_len, parse_header, Tlv}
use myna_card.Tlv.Ber
use myna_card.Data.Fields.{
  Field, Found, nothing_found, field_loop, parse_fields, find_field, bytes_before, checked_fields,
}
use myna_card.Data.Fields.Rounds.{read_field-raw, field_loop-step, parse_fields-found}

-- The bytes of the fields in their order.
unfoldable pub raws : List Field → Bytes
raws [] = []
raws (f ∷ fs) = f.raw ++ raws fs

-- What the loop finds stands at the beginning of its bytes, without a gap.
pub field_loop-raws :
    (fuel : ℕ) (rest : Bytes) (pos : ℕ) (found : Found)
    → field_loop fuel none rest pos ≡ ok found
    → (found.offsets ≡ none) × (tail : Bytes) × (rest ≡ raws found.fields ++ tail)
unfolding field_loop raws
field_loop-raws zero rest pos found h = cc
field_loop-raws (suc fuel) [] pos found h =
    let e : nothing_found ≡ found = cc in
    subst (λ x. (x.offsets ≡ none) × (tail : Bytes) × ([] ≡ raws x.fields ++ tail)) e
      (refl, [], refl)
field_loop-raws (suc fuel) (first ∷ bytes) pos found h =
    elim (field_loop-step fuel none first bytes pos found h) [
      | inl (_, e) ↦
          subst (λ x. (x.offsets ≡ none) × (tail : Bytes) × (first ∷ bytes ≡ raws x.fields ++ tail))
            (sym e) (refl, first ∷ bytes, refl)
      | inr ((n, f), later, r, l, e) ↦
          let (fr, le) = read_field-raw (first ∷ bytes) (n, f) r in
          let (absent, tail, t) = field_loop-raws fuel (drop n (first ∷ bytes)) (pos + n) later l in
          let whole : first ∷ bytes ≡ (f.raw ++ raws later.fields) ++ tail =
            sym (take-append-drop n (first ∷ bytes))
            ∙ (ap (λ x. take n (first ∷ bytes) ++ x) t
                ∙ (ap (λ x. x ++ (raws later.fields ++ tail)) (sym fr)
                    ∙ sym (append_assoc f.raw (raws later.fields) tail))) in
          subst (λ x. (x.offsets ≡ none) × (tail : Bytes) × (first ∷ bytes ≡ raws x.fields ++ tail))
            (sym e) (absent, tail, whole)
    ]

-- The first field of the tag and what stands before it.
abbrev Split : Result Field → Bytes → Bytes → Type 0
Split found whole s = (f : Field) × (rest : Bytes) × (found ≡ ok f) × (whole ≡ s ++ (f.raw ++ rest))

cut_here :
    (here : Bool) (f : Field) (fs : List Field) (t : ℕ) (s : Bytes)
    → ((s' : Bytes) → bytes_before fs t ≡ ok s' → Split (find_field fs t) (raws fs) s')
    → (if here then ok [] else (bytes_before fs t >>= λ out. ok (f.raw ++ out))) ≡ ok s
    → Split (if here then ok f else find_field fs t) (f.raw ++ raws fs) s
cut_here true f fs t s later h =
    let e : [] ≡ s = cc in (f, raws fs, refl, ap (λ x. x ++ (f.raw ++ raws fs)) e)
cut_here false f fs t s later h =
    let (out, k, h') = bind-eq-ok (bytes_before fs t) _ h in
    let e : f.raw ++ out ≡ s = cc in
    let (g, rest, k', w) = later out k in
    (
      g,
      rest,
      k',
      ap (λ x. f.raw ++ x) w
          ∙ (sym (append_assoc f.raw out (g.raw ++ rest)) ∙ ap (λ x. x ++ (g.raw ++ rest)) e),
    )

bytes_before-Split :
    (fs : List Field) (t : ℕ) (s : Bytes)
    → bytes_before fs t ≡ ok s
    → Split (find_field fs t) (raws fs) s
unfolding bytes_before find_field raws
bytes_before-Split [] t s h = cc
bytes_before-Split (f ∷ fs) t s h =
    cut_here (f.tag == t) f fs t s (λ s' k. bytes_before-Split fs t s' k) h

pub checked_fields-none :
    (found : Found) (fs : List Field)
    → found.offsets ≡ none
    → checked_fields found ≡ ok fs
    → found.fields ≡ fs
checked_fields-none found fs e c = let r : checked_fields found ≡ ok found.fields = rw e refl in cc

-- When a file parses without an offset table, and the bytes before a field of the tag are asked
-- for and returned, then its outer object parses too, and its value is those bytes, behind them
-- the bytes of the first field of that tag, and some rest: the bytes returned begin right behind
-- the outer header and have no gap.
pub bytes_before-Signed :
    (raw : Bytes) (tag t : ℕ) (fs : List Field) (s : Bytes)
    → parse_fields raw tag none ≡ ok fs
    → bytes_before fs t ≡ ok s
    → (outer : Tlv) × (f : Field) × (rest : Bytes) × (Ber.parse raw ≡ ok outer)
      × (find_field fs t ≡ ok f)
      × (outer.value ≡ s ++ (f.raw ++ rest))
bytes_before-Signed raw tag t fs s h k =
    let (outer, header, found, p, q, l, c) = parse_fields-found raw tag none fs h in
    let (absent, tail, w) =
      field_loop-raws (suc (length outer.value)) outer.value header.header_len found l in
    let (f, rest, e, w') = bytes_before-Split fs t s k in
    let same : found.fields ≡ fs = checked_fields-none found fs absent c in
    (
      outer,
      f,
      rest ++ tail,
      p,
      e,
      w
          ∙ (ap (λ x. raws x ++ tail) same
              ∙ (ap (λ x. x ++ tail) w'
                  ∙ (append_assoc s (f.raw ++ rest) tail
                      ∙ ap (λ x. s ++ x) (append_assoc f.raw rest tail)))),
    )
