-- ===== src/Data/Fields/Anywhere.antt =====
-- That the fields of a data file do not depend on where the loop begins to count.
use myna_card.Prelude.{
  ℕ, zero, suc, ◌+◌, ◌≡◌, refl, ap, subst, ◌∙◌, Bool, true, false, Option, none, some, List, [],
  ◌∷◌, length, arith, take, drop, get_range?, Bytes, ◌==◌, ◌||◌, if◌then◌else◌,
}
use myna_card.Error.{Result, ok, err, stuck, ◌>>=◌, bind-eq-ok, ok_or, malformed}
use myna_card.Tlv.Ber.{Header, total_len, parse_header}
use myna_card.Data.Fields.{
  Field, Found, nothing_found, field_loop, field_behind, read_field, is_table, in_front,
}

in_front-fields :
    (table : Bool) (f : Field) (pos pos' : ℕ) (x x' : Found)
    → x.fields ≡ x'.fields
    → (in_front table f pos x).fields ≡ (in_front table f pos' x').fields
in_front-fields true f pos pos' x x' h = h
in_front-fields false f pos pos' x x' h = ap (λ fs. f ∷ fs) h

-- A round of the loop, with what follows it as `next`.
abbrev round : Bool → Result (ℕ × Field) → Option ℕ → (ℕ × Field → Result Found) → ℕ → Result Found
round stop read table next pos =
    if stop
    then ok nothing_found
    else (read >>= λ p. next p >>= λ found. ok (in_front (is_table p.1.tag table) p.1 pos found))

-- Two rounds over the same object, with related results of what follows.
round-related :
    (R : Found → Found → Type 0) (stop : Bool) (read : Result (ℕ × Field)) (table : Option ℕ)
    (next next' : ℕ × Field → Result Found) (pos pos' : ℕ) (found found' : Found)
    → R nothing_found nothing_found
    → ((p : ℕ × Field) (x x' : Found)
        → next p ≡ ok x
        → next' p ≡ ok x'
        → R
            (in_front (is_table p.1.tag table) p.1 pos x)
            (in_front (is_table p.1.tag table) p.1 pos' x'))
    → round stop read table next pos ≡ ok found
    → round stop read table next' pos' ≡ ok found'
    → R found found'
round-related R true read table next next' pos pos' found found' start later h k =
    let e : nothing_found ≡ found = cc in
    let e' : nothing_found ≡ found' = cc in
    subst (λ x. R found x) e' (subst (λ x. R x nothing_found) e start)
round-related R false (err e) table next next' pos pos' found found' start later h k = cc
round-related R false stuck table next next' pos pos' found found' start later h k = cc
round-related R false (ok p) table next next' pos pos' found found' start later h k =
    let (x, l, h') = bind-eq-ok (next p) _ h in
    let (x', l', k') = bind-eq-ok (next' p) _ k in
    let y : Found = in_front (is_table p.1.tag table) p.1 pos x in
    let y' : Found = in_front (is_table p.1.tag table) p.1 pos' x' in
    let e : y ≡ found = cc in
    let e' : y' ≡ found' = cc in
    subst (λ z. R found z) e' (subst (λ z. R z y') e (later p x x' l l'))

-- The fields that the loop finds do not depend on the position, nor on the fuel.
pub field_loop-fields :
    (fuel fuel' : ℕ) (table : Option ℕ) (rest : Bytes) (pos pos' : ℕ) (found found' : Found)
    → field_loop fuel table rest pos ≡ ok found
    → field_loop fuel' table rest pos' ≡ ok found'
    → found.fields ≡ found'.fields
unfolding field_loop
field_loop-fields zero fuel' table rest pos pos' found found' h k = cc
field_loop-fields (suc fuel) zero table rest pos pos' found found' h k = cc
field_loop-fields (suc fuel) (suc fuel') table [] pos pos' found found' h k = cc
field_loop-fields (suc fuel) (suc fuel') table (b ∷ bs) pos pos' found found' h k =
    round-related (λ x x'. x.fields ≡ x'.fields) (b == 0x00 || b == 0xFF) (read_field (b ∷ bs))
      table (λ p. field_loop fuel table (drop p.0 (b ∷ bs)) (pos + p.0))
      (λ p. field_loop fuel' table (drop p.0 (b ∷ bs)) (pos' + p.0)) pos pos' found found' refl
      (λ p x x' l l'.
        in_front-fields (is_table p.1.tag table) p.1 pos pos' x x' (
          field_loop-fields fuel fuel' table (drop p.0 (b ∷ bs)) (pos + p.0) (pos' + p.0) x x' l
            l'))
      h k

-- Every position, moved by a distance.
unfoldable pub moved : ℕ → List ℕ → List ℕ
moved d [] = []
moved d (x ∷ xs) = (x + d) ∷ moved d xs

-- What the loop finds in the same bytes a distance further on.
pub record Moved (d : ℕ) (x x' : Found) : Type 0 where
  pub same_offsets : x'.offsets ≡ x.offsets
  pub moved_starts : x'.starts ≡ moved d x.starts
  pub as_many : length x.starts ≡ length x.fields

in_front-Moved :
    (table : Bool) (f : Field) (pos pos' d : ℕ) (x x' : Found)
    → pos' ≡ pos + d
    → Moved d x x'
    → Moved d (in_front table f pos x) (in_front table f pos' x')
unfolding moved
in_front-Moved true f pos pos' d x x' e m = record {
  same_offsets =
      ap (λ (o : Option Bytes). elim o [ none ↦ some f.value | some later ↦ some later ])
        m.same_offsets;
  moved_starts = m.moved_starts;
  as_many = m.as_many;
}
in_front-Moved false f pos pos' d x x' e m = record {
  same_offsets = m.same_offsets;
  moved_starts = ap (λ n. n ∷ x'.starts) e ∙ ap (λ ns. (pos + d) ∷ ns) m.moved_starts;
  as_many = omega (arith, m.as_many);
}

pub field_loop-Moved :
    (fuel fuel' : ℕ) (table : Option ℕ) (rest : Bytes) (pos pos' d : ℕ) (found found' : Found)
    → pos' ≡ pos + d
    → field_loop fuel table rest pos ≡ ok found
    → field_loop fuel' table rest pos' ≡ ok found'
    → Moved d found found'
unfolding field_loop moved
field_loop-Moved zero fuel' table rest pos pos' d found found' e h k = cc
field_loop-Moved (suc fuel) zero table rest pos pos' d found found' e h k = cc
field_loop-Moved (suc fuel) (suc fuel') table [] pos pos' d found found' e h k =
    let s : nothing_found ≡ found = cc in
    let s' : nothing_found ≡ found' = cc in
    subst (Moved d found) s' (
      subst (λ x. Moved d x nothing_found) s
        (record { same_offsets = refl; moved_starts = refl; as_many = refl }))
field_loop-Moved (suc fuel) (suc fuel') table (b ∷ bs) pos pos' d found found' e h k =
    round-related (Moved d) (b == 0x00 || b == 0xFF) (read_field (b ∷ bs)) table
      (λ p. field_loop fuel table (drop p.0 (b ∷ bs)) (pos + p.0))
      (λ p. field_loop fuel' table (drop p.0 (b ∷ bs)) (pos' + p.0)) pos pos' found found'
      (record { same_offsets = refl; moved_starts = refl; as_many = refl })
      (λ p x x' l l'. in_front-Moved (is_table p.1.tag table) p.1 pos pos' d x x' e (
        field_loop-Moved fuel fuel' table (drop p.0 (b ∷ bs)) (pos + p.0) (pos' + p.0) d x x'
          (omega arith) l l'))
      h k

-- The first object is read with the header's tag and extent.
pub field_behind-parts :
    (rest : Bytes) (h : Header) (p : ℕ × Field)
    → field_behind rest h ≡ ok p
    → (p.0 ≡ total_len h) × (p.1.tag ≡ h.tag)
field_behind-parts rest h p e =
    let (value, _, e') =
      bind-eq-ok
        (ok_or (get_range? rest h.header_len (total_len h))
          (malformed "a field runs past the end of the file" []))
        _ e in
    let same : (total_len h, record { tag = h.tag; value = value; raw = take (total_len h) rest })
        ≡ p =
      cc in
    subst (λ (x : ℕ × Field). (x.0 ≡ total_len h) × (x.1.tag ≡ h.tag)) same (refl, refl)

-- The field is behind the header.
pub read_field-behind :
    (rest : Bytes) (h : Header) (p : ℕ × Field)
    → parse_header rest ≡ ok h
    → read_field rest ≡ ok p
    → field_behind rest h ≡ ok p
unfolding read_field
read_field-behind rest h p q r = rw q at r
