-- ===== src/Data/Fields/Placed.antt =====
-- Where the fields of a data file stand in it, and that its offset table says so.
use myna_card.Prelude.{
  ℕ, zero, suc, ◌+◌, ◌*◌, ◌≡◌, refl, sym, ap, subst, ◌∙◌, inl, inr, arith, Bool, true, false,
  Option, none, some, List, [], ◌∷◌, ◌++◌, length, length-take, take, drop, drop-drop, take-within,
  drop-within, Bytes, ◌==◌, ==_iff,
}
use mathlib.Core.Option.{some-injective}
use myna_card.Prelude.Words.{from_be_bytes}
use myna_card.Error.{ok, bind-eq-ok, guard, Error, malformed}
use myna_card.Data.Fields.{
  Field, Found, nothing_found, field_loop, is_table, in_front, checked_fields, check_offsets,
  compare_offsets,
}
use myna_card.Data.Fields.Rounds.{read_field-raw, field_loop-step}

-- The numbers in a table of two byte entries.
unfoldable pub entries : Bytes → List ℕ
entries (hi ∷ lo ∷ table) = from_be_bytes (hi ∷ lo ∷ []) ∷ entries table
entries table = []

-- The fields begin at the given positions of the file.
pub Placed : Bytes → List Field → List ℕ → Type 0
Placed raw [] [] = Unit {0}
Placed raw (f ∷ fs) (p ∷ ps) = (take (length f.raw) (drop p raw) ≡ f.raw) × Placed raw fs ps
Placed raw fs ps = ⊥

-- A field in front keeps the places right.
in_front-Placed :
    (is_table : Bool) (raw : Bytes) (f : Field) (pos : ℕ) (later : Found)
    → take (length f.raw) (drop pos raw) ≡ f.raw
    → Placed raw later.fields later.starts
    → Placed raw (in_front is_table f pos later).fields (in_front is_table f pos later).starts
unfolding Placed
in_front-Placed true raw f pos later h k = k
in_front-Placed false raw f pos later h k = (h, k)

unfoldable pub AllPlaced : Bytes → Found → Type 0
AllPlaced raw found = Placed raw found.fields found.starts

pub field_loop-Placed :
    (fuel : ℕ) (table : Option ℕ) (raw rest tail : Bytes) (pos : ℕ) (found : Found)
    → drop pos raw ≡ rest ++ tail
    → field_loop fuel table rest pos ≡ ok found
    → AllPlaced raw found
unfolding field_loop AllPlaced Placed
field_loop-Placed zero table raw rest tail pos found d h = cc
field_loop-Placed (suc fuel) table raw [] tail pos found d h =
    let e : nothing_found ≡ found = cc in subst (AllPlaced raw) e tt
field_loop-Placed (suc fuel) table raw (first ∷ bytes) tail pos found d h =
    elim (field_loop-step fuel table first bytes pos found h) [
      | inl (_, e) ↦ subst (AllPlaced raw) (sym e) tt
      | inr ((n, f), later, r, l, e) ↦
          let (fr, le) = read_field-raw (first ∷ bytes) (n, f) r in
          let size : length f.raw ≡ n =
            omega (arith, ap length fr, length-take n (first ∷ bytes)) in
          let here : take (length f.raw) (drop pos raw) ≡ f.raw =
            ap (λ k. take k (drop pos raw)) size
            ∙ (ap (take n) d ∙ (take-within n (first ∷ bytes) tail le ∙ sym fr)) in
          let next : drop (pos + n) raw ≡ drop n (first ∷ bytes) ++ tail =
            sym (drop-drop pos n raw) ∙ (ap (drop n) d ∙ drop-within n (first ∷ bytes) tail le) in
          subst (AllPlaced raw) (sym e) (
            in_front-Placed (is_table f.tag table) raw f pos later here (
              field_loop-Placed fuel table raw (drop n (first ∷ bytes)) tail (pos + n) later next
                l))
    ]

guard-true : (g : Bool) (e : Error) {u : Unit {0}} → guard g e ≡ ok u → g ≡ true
guard-true true e h = refl
guard-true false e h = cc

compare_offsets-entries :
    (i : ℕ) (table : Bytes) (starts : List ℕ)
    → length table ≡ length starts * 2
    → compare_offsets i table starts ≡ ok tt
    → entries table ≡ starts
unfolding compare_offsets entries
compare_offsets-entries i [] [] e h = refl
compare_offsets-entries i (hi ∷ []) [] e h = absurd (omega arith)
compare_offsets-entries i (hi ∷ lo ∷ table) [] e h = absurd (omega arith)
compare_offsets-entries i [] (start ∷ starts) e h = absurd (omega arith)
compare_offsets-entries i (hi ∷ []) (start ∷ starts) e h = absurd (omega arith)
compare_offsets-entries i (hi ∷ lo ∷ table) (start ∷ starts) e h =
    let g : Bool = from_be_bytes (hi ∷ lo ∷ []) == start in
    let (_, t, h') =
      bind-eq-ok
        (guard g (
          malformed "offset {i} says {declared:#06X} but the object starts at {start:#06X}"
            (i ∷ from_be_bytes (hi ∷ lo ∷ []) ∷ start ∷ [])))
        _ h in
    let first : from_be_bytes (hi ∷ lo ∷ []) ≡ start = (==_iff _ start).0 (guard-true g _ t) in
    let later : entries table ≡ starts =
      compare_offsets-entries (i + 1) table starts (omega arith) h' in
    ap (λ x. x ∷ entries table) first ∙ ap (λ x. start ∷ x) later

check_offsets-entries :
    (table : Bytes) (starts : List ℕ) → check_offsets table starts ≡ ok tt → entries table ≡ starts
unfolding check_offsets
check_offsets-entries table starts h =
    let g : Bool = length table == length starts * 2 in
    let (_, t, h') =
      bind-eq-ok
        (guard g
          (malformed "offset table is {} bytes for {} objects" (length table ∷ length starts ∷ [])))
        _ h in
    compare_offsets-entries 0 table starts ((==_iff _ (length starts * 2)).0 (guard-true g _ t)) h'

pub checked_fields-inv :
    (offsets : Option Bytes) (fields fs : List Field) (starts : List ℕ)
    → checked_fields (record { offsets = offsets; fields = fields; starts = starts }) ≡ ok fs
    → (fields ≡ fs) × ((table : Bytes) → offsets ≡ some table → entries table ≡ starts)
checked_fields-inv none fields fs starts h = (cc, λ table e. cc)
checked_fields-inv (some offsets) fields fs starts h =
    let (_, c, h') = bind-eq-ok (check_offsets offsets starts) _ h in
    let same : ok fields ≡ ok fs = h' in
    (
      cc,
      λ table e.
          ap entries (sym (some-injective offsets table e))
          ∙ check_offsets-entries offsets starts c,
    )
