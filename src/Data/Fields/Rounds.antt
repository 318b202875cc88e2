-- ===== src/Data/Fields/Rounds.antt =====
-- How the loop over the fields of a data file goes.
use myna_card.Prelude.{
  arith, ℕ, suc, ◌+◌, ◌≤◌, ◌||◌, ◌≡◌, refl, sym, subst, ◌⊎◌, inl, inr, Bool, true, false, Option,
  Option-cases, List, [], ◌∷◌, length, take, drop, get_range?, get_range?-eq-some, Bytes, ◌==◌,
  if◌then◌else◌,
}
use myna_card.Error.{Result, ok, bind-eq-ok, guard, malformed}
use myna_card.Tlv.Ber.{Header, total_len, parse_header, Tlv}
use myna_card.Tlv.Ber
use myna_card.Tlv.Ber.Iteration.{IsFiller}
use myna_card.Data.Fields.{
  Field, Found, nothing_found, field_behind, read_field, field_loop, parse_fields, is_table,
  in_front, checked_fields,
}

-- A field is read off the first bytes.
field_behind-raw :
    (rest : Bytes) (header : Header) (p : ℕ × Field)
    → field_behind rest header ≡ ok p
    → (p.1.raw ≡ take p.0 rest) × (p.0 ≤ length rest)
field_behind-raw rest header p h =
    elim (Option-cases (get_range? rest header.header_len (total_len header))) [
      | inl e ↦ absurd (cc (e, h))
      | inr (value, e) ↦
          let (_, le, _) = get_range?-eq-some rest value header.header_len (total_len header) e in
          let q : field_behind rest header
              ≡ ok (
                total_len header,
                record { tag = header.tag; value = value; raw = take (total_len header) rest },
              ) =
            rw e refl in
          let pe : (
            total_len header,
            record { tag = header.tag; value = value; raw = take (total_len header) rest },
          )
              ≡ p =
            cc in
          subst (λ (n, f). (f.raw ≡ take n rest) × (n ≤ length rest)) pe (refl, le)
    ]

pub read_field-raw :
    (rest : Bytes) (p : ℕ × Field)
    → read_field rest ≡ ok p
    → (p.1.raw ≡ take p.0 rest) × (p.0 ≤ length rest)
unfolding read_field
read_field-raw rest p h =
    let (header, _, h') = bind-eq-ok (parse_header rest) (field_behind rest) h in
    field_behind-raw rest header p h'

stopped-or-went_on :
    {A : Type 0} (stop : Bool) (x y : A) (m : Result A)
    → (if stop then ok x else m) ≡ ok y
    → ((stop ≡ true) × (y ≡ x)) ⊎ (m ≡ ok y)
stopped-or-went_on true x y m h = inl (refl, cc)
stopped-or-went_on false x y m h = inr h

-- What a round of the loop over an object does.
pub field_loop-step :
    (fuel : ℕ) (table : Option ℕ) (first : ℕ) (bytes : Bytes) (pos : ℕ) (found : Found)
    → field_loop (suc fuel) table (first ∷ bytes) pos ≡ ok found
    → (IsFiller (first ∷ bytes) × (found ≡ nothing_found))
      ⊎ ((p : ℕ × Field) × (later : Found) × (read_field (first ∷ bytes) ≡ ok p)
          × (field_loop fuel table (drop p.0 (first ∷ bytes)) (pos + p.0) ≡ ok later)
          × (found ≡ in_front (is_table p.1.tag table) p.1 pos later))
unfolding field_loop
field_loop-step fuel table first bytes pos found h =
    elim (stopped-or-went_on (first == 0x00 || first == 0xFF) nothing_found found _ h) [
      | inl (stops, e) ↦ inl (ground arith, e)
      | inr h' ↦
          let (p, r, k) = bind-eq-ok (read_field (first ∷ bytes)) _ h' in
          let (later, l, e) =
            bind-eq-ok (field_loop fuel table (drop p.0 (first ∷ bytes)) (pos + p.0)) _ k in
          inr (p, later, r, l, sym cc)
    ]

-- What `parse` has done when it returns fields.
pub parse_fields-found :
    (raw : Bytes) (tag : ℕ) (table : Option ℕ) (fs : List Field)
    → parse_fields raw tag table ≡ ok fs
    → (outer : Tlv) × (header : Header) × (found : Found) × (Ber.parse raw ≡ ok outer)
      × (parse_header raw ≡ ok header)
      × (field_loop (suc (length outer.value)) table outer.value header.header_len ≡ ok found)
      × (checked_fields found ≡ ok fs)
unfolding parse_fields
parse_fields-found raw tag table fs h =
    let (outer, p, h1) = bind-eq-ok (Ber.parse raw) _ h in
    let (_, _, h2) =
      bind-eq-ok
        (guard (outer.tag == tag)
          (malformed "expected tag {expected_tag:04X}, got {:04X}" (tag ∷ outer.tag ∷ [])))
        _ h1 in
    let (header, q, h3) = bind-eq-ok (parse_header raw) _ h2 in
    let (found, l, c) =
      bind-eq-ok (field_loop (suc (length outer.value)) table outer.value header.header_len) _ h3 in
    (outer, header, found, p, q, l, c)
