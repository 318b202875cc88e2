-- ===== src/Ap/Text/Binding.antt =====
-- What the integrity record says of the attributes.
use myna_card.Prelude.{
  ℕ, Option, none, suc, ◌+◌, ◌-◌, ◌≡◌, refl, sym, ap, subst, ◌∙◌, ◌⊎◌, inl, inr, arith, true, some,
  List, [], ◌∷◌, length, length-drop, take, drop, take_all, get_elem?, get_range?,
  get_range?-eq-some, Bytes, ◌==◌, ==_iff,
}
use myna_card.Prelude.Compare.{same_bytes, same_bytes_sound}
use myna_card.Error.{Error, Result, ok, ◌>>=◌, bind-eq-ok, guard, ok_or, malformed}
use myna_card.Error.Checks.{guard_iff, bind-ok}
use myna_card.Tlv.Ber.{Header, Tlv, total_len, parse_header}
use myna_card.Tlv.Ber
use myna_card.Tlv.Ber.Value.{ok_or-eq-some}
use myna_card.Data.Date
use myna_card.Data.Person.{from_byte}
use myna_card.Data.Signature.{Rsa}
use myna_card.Data.Fields.{
  Field, Found, nothing_found, field_loop, is_table, in_front, get, find_field, checked_fields,
}
use myna_card.Data.Fields.Rounds.{field_loop-step}
use myna_card.Data.Fields.Anywhere.{field_loop-fields, read_field-behind, field_behind-parts}
use myna_card.Ap.Text.Records.{
  Attributes, IntegrityRecord, tag_attributes, tag_offsets, value_of, decode_text, parse_attributes,
  digest_source, matches_attributes_file,
}

-- The attributes that fields hold.
pub of_fields : List Field → Result Attributes
of_fields fields = do
  name ← get fields 0xDF22
  address ← get fields 0xDF23
  birth_date ← get fields 0xDF24
  sex ← get fields 0xDF25
  name_text ← decode_text name "氏名 is not valid UTF-8"
  address_text ← decode_text address "住所 is not valid UTF-8"
  date ← Date.parse birth_date
  sex_byte ← ok_or (get_elem? sex 0) (malformed "性別 is empty" [])
  ok (record {
    name = name_text;
    address = address_text;
    birth_date = date;
    sex = from_byte sex_byte;
  })

-- What `parse_attributes` has done when it returns.
pub parse_attributes-found :
    (raw : Bytes) (a : Attributes)
    → parse_attributes raw ≡ ok a
    → (value : Bytes) × (found : Found) × ((Ber.parse raw
          >>= value_of tag_attributes "expected tag FF20, got {:04X}")
        ≡ ok value)
      × (field_loop (suc (length value)) (some tag_offsets) value (length raw - length value)
          ≡ ok found)
      × (of_fields found.fields ≡ ok a)
      × (fs : List Field) × (checked_fields found ≡ ok fs)
unfolding parse_attributes of_fields
parse_attributes-found raw a h =
    let (outer, p, h1) = bind-eq-ok (Ber.parse raw) _ h in
    let (value, v, h2) =
      bind-eq-ok (value_of tag_attributes "expected tag FF20, got {:04X}" outer) _ h1 in
    let (found, l, h3) =
      bind-eq-ok
        (field_loop (suc (length value)) (some tag_offsets) value (length raw - length value)) _
        h2 in
    let (name, n, h4) = bind-eq-ok (get found.fields 0xDF22) _ h3 in
    let (address, m, h5) = bind-eq-ok (get found.fields 0xDF23) _ h4 in
    let (birth_date, b, h6) = bind-eq-ok (get found.fields 0xDF24) _ h5 in
    let (sex, s, h7) = bind-eq-ok (get found.fields 0xDF25) _ h6 in
    let (fs, checks, h8) = bind-eq-ok (checked_fields found) _ h7 in
    let fields : List Field = found.fields in
    (
      value,
      found,
      bind-ok (Ber.parse raw) _ outer p v,
      l,
      bind-ok (get fields 0xDF22) _ name n (
          bind-ok (get fields 0xDF23) _ address m
            (bind-ok (get fields 0xDF24) _ birth_date b (bind-ok (get fields 0xDF25) _ sex s h8))),
      fs,
      checks,
    )

-- The value of the outer object.
abbrev pub outer_value : Bytes → Result Bytes
outer_value raw = Ber.parse raw >>= value_of tag_attributes "expected tag FF20, got {:04X}"

pub digest_source-parts :
    (raw s : Bytes)
    → digest_source raw ≡ ok s
    → (value : Bytes) × (table : Header) × (outer_value raw ≡ ok value)
      × (parse_header value ≡ ok table)
      × (table.tag ≡ tag_offsets)
      × (get_range? value (total_len table) (length value) ≡ some s)
unfolding digest_source
digest_source-parts raw s h =
    let (outer, p, h1) = bind-eq-ok (Ber.parse raw) _ h in
    let (value, v, h2) =
      bind-eq-ok (value_of tag_attributes "expected tag FF20, got {:04X}" outer) _ h1 in
    let (table, q, h3) = bind-eq-ok (parse_header value) _ h2 in
    let e : Error = malformed "the offset table is not the first object" [] in
    let (_, t, h4) = bind-eq-ok (guard (table.tag == tag_offsets) e) _ h3 in
    (
      value,
      table,
      bind-ok (Ber.parse raw) _ outer p v,
      q,
      (==_iff table.tag tag_offsets).0 ((guard_iff (table.tag == tag_offsets) e).0 t),
      ok_or-eq-some _ _ s h4,
    )

-- A field of the table's tag is left out of the fields.
last_table :
    (v : Bytes) (later : Option Bytes)
    → (t : Bytes) × (elim later [ none ↦ some v | some l ↦ some l ] ≡ some t)
last_table v none = (v, refl)
last_table v (some t) = (t, refl)

in_front-table :
    (tag : ℕ) (f : Field) (pos : ℕ) (later : Found)
    → f.tag ≡ tag
    → ((in_front (is_table f.tag (some tag)) f pos later).fields ≡ later.fields)
      × (t : Bytes) × ((in_front (is_table f.tag (some tag)) f pos later).offsets ≡ some t)
in_front-table tag f pos later e =
    let same : is_table f.tag (some tag) ≡ true = (==_iff f.tag tag).1 e in
    let (t, last) = last_table f.value later.offsets in rw same (refl, t, last)

-- What stands behind the table holds all the fields, unless there are none.
pub behind_table :
    (value s : Bytes) (table : Header) (pos : ℕ) (found : Found)
    → parse_header value ≡ ok table
    → table.tag ≡ tag_offsets
    → get_range? value (total_len table) (length value) ≡ some s
    → field_loop (suc (length value)) (some tag_offsets) value pos ≡ ok found
    → (found ≡ nothing_found)
      ⊎ ((later : Found) × (pos' : ℕ) × (field_loop (length value) (some tag_offsets) s pos'
            ≡ ok later)
          × (found.fields ≡ later.fields)
          × (offsets : Bytes) × (found.offsets ≡ some offsets))
unfolding field_loop
behind_table [] s table pos found q t e l = inl cc
behind_table (b ∷ bs) s table pos found q t e l =
    elim (field_loop-step (length (b ∷ bs)) (some tag_offsets) b bs pos found l) [
      | inl (_, empty) ↦ inl empty
      | inr (p, later, r, m, same) ↦
          let (n, tag) =
            field_behind-parts (b ∷ bs) table p (read_field-behind (b ∷ bs) table p q r) in
          let (_, _, slice) = get_range?-eq-some (b ∷ bs) s (total_len table) _ e in
          let behind : s ≡ drop p.0 (b ∷ bs) =
            slice
            ∙ (ap (λ k. take (length (b ∷ bs) - total_len table) (drop k (b ∷ bs))) (sym n)
                ∙ take_all (length (b ∷ bs) - total_len table) (drop p.0 (b ∷ bs))
                    (omega (arith, n, length-drop p.0 (b ∷ bs)))) in
          let (left_out, offsets, last) = in_front-table tag_offsets p.1 pos later (tag ∙ t) in
          inr (
            later,
            pos + p.0,
            ap (λ x. field_loop (length (b ∷ bs)) (some tag_offsets) x (pos + p.0)) behind ∙ m,
            ap (λ (x : Found). x.fields) same ∙ left_out,
            offsets,
            ap (λ (x : Found). x.offsets) same ∙ last,
          )
    ]

pub no_attributes : (a : Attributes) → of_fields [] ≡ ok a → ⊥
unfolding of_fields get find_field
no_attributes a h = cc

-- The attributes of a file whose digest source is known.
attributes_behind :
    (raw s : Bytes) (a : Attributes)
    → parse_attributes raw ≡ ok a
    → digest_source raw ≡ ok s
    → (fuel : ℕ) × (pos : ℕ) × (found : Found) × (field_loop fuel (some tag_offsets) s pos
        ≡ ok found)
      × (of_fields found.fields ≡ ok a)
attributes_behind raw s a h k =
    let (value, found, v, l, c, _, _) = parse_attributes-found raw a h in
    let (value', table, v', q, t, e) = digest_source-parts raw s k in
    let same : value' ≡ value = cc in
    elim (behind_table value s table (length raw - length value) found
      (subst (λ x. parse_header x ≡ ok table) same q) t
      (subst (λ x. get_range? x (total_len table) (length x) ≡ some s) same e) l) [
        | inl empty ↦
            absurd (no_attributes a (subst (λ (x : Found). of_fields x.fields ≡ ok a) empty c))
        | inr (later, pos, m, fs, _, _) ↦
            (length value, pos, later, m, subst (λ x. of_fields x ≡ ok a) fs c)
      ]

-- The integrity record binds the attributes. When two files match the same record, both parse, and
-- SHA-256 does not collide on the parts of them that it is taken over, they give the same name,
-- address, date of birth and sex, whatever their headers, offset tables and bytes behind are.
pub parse_attributes-matched :
    (rsa : Rsa) (r : IntegrityRecord) (raw raw' : Bytes) (a a' : Attributes)
    → ((s s' : Bytes)
        → digest_source raw ≡ ok s
        → digest_source raw' ≡ ok s'
        → rsa.sha256 s ≡ rsa.sha256 s'
        → s ≡ s')
    → matches_attributes_file rsa r raw ≡ ok true
    → matches_attributes_file rsa r raw' ≡ ok true
    → parse_attributes raw ≡ ok a
    → parse_attributes raw' ≡ ok a'
    → a ≡ a'
unfolding matches_attributes_file
parse_attributes-matched rsa r raw raw' a a' apart m m' h h' =
    let (s, d, t) = bind-eq-ok (digest_source raw) _ m in
    let (s', d', t') = bind-eq-ok (digest_source raw') _ m' in
    let e : same_bytes (rsa.sha256 s) r.attributes_digest ≡ true = cc in
    let e' : same_bytes (rsa.sha256 s') r.attributes_digest ≡ true = cc in
    let same : s ≡ s' = apart s s' d d' (same_bytes_sound _ _ e ∙ sym (same_bytes_sound _ _ e')) in
    let (fuel, pos, found, l, c) = attributes_behind raw s a h d in
    let (fuel', pos', found', l', c') =
      attributes_behind raw' s a' h' (d' ∙ ap (λ x. ok x) (sym same)) in
    let fields = field_loop-fields fuel fuel' (some tag_offsets) s pos pos' found found' l l' in
    let both : of_fields found.fields ≡ ok a' = subst (λ x. of_fields x ≡ ok a') (sym fields) c' in
    cc
