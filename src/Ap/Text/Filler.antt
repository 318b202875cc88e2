-- ===== src/Ap/Text/Filler.antt =====
-- What filler behind the object does to the reading of the attributes.
use myna_card.Prelude.{
  ℕ, suc, ◌+◌, ◌-◌, ◌≤◌, ◌<◌, ◌≡◌, ◌≢◌, refl, sym, subst, ◌∙◌, inl, inr, arith, some, List, [], ◌∷◌,
  ◌++◌, length, length-append, get_range?, Bytes, IsByte, All, ◌==◌,
}
use myna_card.Error.{ok, guard, bind-eq-ok, malformed}
use myna_card.Error.Checks.{bind-ok}
use myna_card.Tlv.Ber.{Header, Tlv, total_len, parse_header}
use myna_card.Tlv.Ber
use myna_card.Tlv.Ber.Objects.{InMemory, parse-append}
use myna_card.Data.Fields.{Field, Found, field_loop, checked_fields}
use myna_card.Data.Fields.Placed.{checked_fields-inv}
use myna_card.Data.Fields.Anywhere.{Moved, moved, field_loop-Moved}
use myna_card.Ap.Text.Records.{
  Attributes, tag_attributes, tag_offsets, parse_attributes, digest_source,
}
use myna_card.Ap.Text.Binding.{
  outer_value, of_fields, no_attributes, parse_attributes-found, digest_source-parts, behind_table,
}

outer_value-append :
    (raw filler value : Bytes)
    → All IsByte (raw ++ filler)
    → InMemory (raw ++ filler)
    → outer_value raw ≡ ok value
    → (outer_value (raw ++ filler) ≡ ok value) × (length value ≤ length raw)
outer_value-append raw filler value bs mem h =
    let (outer, p, v) = bind-eq-ok (Ber.parse raw) _ h in
    let (q, le) = parse-append raw filler outer bs mem p in
    let (_, _, e) =
      bind-eq-ok
        (guard (outer.tag == tag_attributes)
          (malformed "expected tag FF20, got {:04X}" (outer.tag ∷ [])))
        _ v in
    let same : outer.value ≡ value = cc in
    (bind-ok (Ber.parse (raw ++ filler)) _ outer q v, subst (λ x. length x ≤ length raw) same le)

-- Positions that are moved by nothing but the same are none.
moved_same : (d : ℕ) (xs : List ℕ) → 0 < d → xs ≡ moved d xs → length xs ≡ 0
unfolding moved
moved_same d [] lt e = refl
moved_same d (x ∷ xs) lt e = let first : x ≡ x + d = cc in absurd (omega arith)

-- A table that is checked twice lists the same positions.
checked_twice :
    (d : ℕ) (x x' : Found) (offsets : Bytes) (fs fs' : List Field)
    → 0 < d
    → Moved d x x'
    → x.offsets ≡ some offsets
    → checked_fields x ≡ ok fs
    → checked_fields x' ≡ ok fs'
    → x.fields ≡ []
checked_twice d x x' offsets fs fs' lt m o h h' =
    let (_, listed) = checked_fields-inv x.offsets x.fields fs x.starts h in
    let (_, listed') = checked_fields-inv x'.offsets x'.fields fs' x'.starts h' in
    let same : x.starts ≡ moved d x.starts =
      sym (listed offsets o) ∙ (listed' offsets (m.same_offsets ∙ o) ∙ m.moved_starts) in
    none_left x.fields (omega (arith, moved_same d x.starts lt same, m.as_many))
  where
    none_left : (fs : List Field) → length fs ≡ 0 → fs ≡ []
    none_left [] e = refl
    none_left (f ∷ fs) e = absurd (omega arith)

-- A file of attributes that parses, and whose first field is the offset table, does not parse any
-- more with filler behind its outer object, one byte or more of whatever value.
pub parse_attributes-filler :
    (raw filler s : Bytes) (a a' : Attributes)
    → All IsByte (raw ++ filler)
    → InMemory (raw ++ filler)
    → 0 < length filler
    → parse_attributes raw ≡ ok a
    → digest_source raw ≡ ok s
    → parse_attributes (raw ++ filler) ≢ ok a'
parse_attributes-filler raw filler s a a' bs mem lt h k h' =
    let (value, found, v, l, c, fs, checks) = parse_attributes-found raw a h in
    let (value', found', v', l', c', fs', checks') = parse_attributes-found (raw ++ filler) a' h' in
    let (outer, le) = outer_value-append raw filler value bs mem v in
    let same : value' ≡ value = cc in
    let d : ℕ = length filler in
    let far : ℕ = length (raw ++ filler) - length value in
    let again : field_loop (suc (length value)) (some tag_offsets) value far ≡ ok found' =
      subst
        (λ x.
          field_loop (suc (length x)) (some tag_offsets) x (length (raw ++ filler) - length x)
          ≡ ok found')
        same l' in
    let m : Moved d found found' =
      field_loop-Moved (suc (length value)) (suc (length value)) (some tag_offsets) value
        (length raw - length value) far d found found' (omega (arith, length-append raw filler)) l
        again in
    let (value0, table, v0, q, t, e) = digest_source-parts raw s k in
    let same0 : value0 ≡ value = cc in
    elim (behind_table value s table (length raw - length value) found
      (subst (λ x. parse_header x ≡ ok table) same0 q) t
      (subst (λ x. get_range? x (total_len table) (length x) ≡ some s) same0 e) l) [
        | inl empty ↦ no_attributes a (subst (λ (x : Found). of_fields x.fields ≡ ok a) empty c)
        | inr (later, pos, _, _, offsets, o) ↦ no_attributes a (
            subst (λ x. of_fields x ≡ ok a)
              (checked_twice d found found' offsets fs fs' lt m o checks checks') c)
      ]
