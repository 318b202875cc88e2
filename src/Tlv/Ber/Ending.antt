-- ===== src/Tlv/Ber/Ending.antt =====
-- The iterator on any bytes, well formed or not.
use myna_card.Prelude.{
  ℕ, ◌^◌, Bool-cases, Option-cases, get_elem?, ltb, ltb_false→le, zero, suc, ◌+◌, ◌*◌, ◌≤◌, ◌<◌,
  ◌≡◌, ◌≢◌, refl, List, [], ◌∷◌, length, drop, length-drop, All-drop, Bytes, IsByte, All, inl, inr,
  arith,
}
use myna_card.Prelude.Words.{push_byte}
use myna_card.Error.{Error, Result, ok, err, stuck, Result-cases}
use myna_card.Tlv.Ber.{
  Tlv, tag_loop, read_tag, read_length, parse_header, read_object, item_list, items,
}
use myna_card.Tlv.Ber.Tag.{length-IsTag}
use myna_card.Tlv.Ber.Length.{length-IsLength}
use myna_card.Tlv.Ber.Objects.{extent-le, read_object-IsObject}
use myna_card.Tlv.Ber.Iteration.{item_list-ok, item_list-err, item_list-filler}
use native.Mathlib.Decide.{ℕ_discrete}

-- Objects, and at most one error, which is the last item.
abbrev pub Ends : List (Result Tlv) → Type 0
Ends [] = Unit
Ends (ok t ∷ rest) = Ends rest
Ends (err e ∷ rest) = rest ≡ []
Ends (stuck ∷ rest) = ⊥

read_length-ne-stuck : (bytes : Bytes) (pos : ℕ) → read_length bytes pos ≢ stuck
unfolding read_length
read_length-ne-stuck bytes pos e = ground arith

-- Four rounds are enough for a tag.
tag_loop-ne-stuck :
    (fuel : ℕ) (bytes : Bytes) (pos tag : ℕ)
    → pos ≤ 4
    → 4 < fuel + pos
    → tag_loop fuel bytes pos tag ≢ stuck
unfolding tag_loop
tag_loop-ne-stuck zero bytes pos tag h k e = omega arith
tag_loop-ne-stuck (suc fuel) bytes pos tag h k e = elim (Option-cases (get_elem? bytes pos)) [
  | inl b ↦ ground arith
  | inr (byte, b) ↦ elim (Bool-cases (ltb 4 (pos + 1))) [
    | inl last ↦ ground arith
    | inr more ↦ ground (
      arith,
      tag_loop-ne-stuck fuel bytes (pos + 1) (push_byte (2 ^ 32) tag byte)
          (omega (arith, ltb_false→le _ _ more)) (omega arith),
    )
  ]
]

read_tag-ne-stuck : (bytes : Bytes) → read_tag bytes ≢ stuck
unfolding read_tag
read_tag-ne-stuck bytes e = elim (Option-cases (get_elem? bytes 0)) [
  | inl b ↦ ground arith
  | inr (first, b) ↦ ground (arith, tag_loop-ne-stuck 4 bytes 1 first (omega arith) (omega arith))
]

pub parse_header-ne-stuck : (bytes : Bytes) → parse_header bytes ≢ stuck
unfolding parse_header
parse_header-ne-stuck bytes e = elim (Result-cases (read_tag bytes)) [
  | inl ((tag, pos), r) ↦ ground (arith, read_length-ne-stuck bytes pos)
  | inr (inl (x, r)) ↦ ground arith
  | inr (inr r) ↦ read_tag-ne-stuck bytes r
]

read_object-ne-stuck : (bytes : Bytes) → read_object bytes ≢ stuck
unfolding read_object
read_object-ne-stuck bytes e = ground (arith, parse_header-ne-stuck bytes)

read_object-taken :
    (bytes : Bytes) (n : ℕ) (t : Tlv)
    → All IsByte bytes
    → read_object bytes ≡ ok (n, t)
    → (2 ≤ n) × (n ≤ length bytes)
read_object-taken bytes n t bs e =
    let (o, size) = read_object-IsObject bytes bs e in
    (
      omega (arith, length-IsTag o.tag_field o.is_tag, length-IsLength o.length_field o.is_length),
      omega (arith, extent-le o),
    )

abbrev IsBounded : Bytes → List (Result Tlv) → Type 0
IsBounded bytes r = Ends r × (2 * length r ≤ length bytes + 1)

item_list-IsBounded :
    (fuel : ℕ) (bytes : Bytes)
    → All IsByte bytes
    → length bytes < fuel
    → IsBounded bytes (item_list fuel (record { rest = bytes }))
item_list-IsBounded zero bytes bs h = absurd (omega arith)
item_list-IsBounded (suc fuel) [] bs h = rw (item_list-filler fuel [] tt) (tt, omega arith)
item_list-IsBounded (suc fuel) (b ∷ rest) bs h = elim (ℕ_discrete b 0x00) [
  | yes z ↦ rw (item_list-filler fuel (b ∷ rest) (inl z)) (tt, omega arith)
  | no nz ↦ elim (ℕ_discrete b 0xFF) [
    | yes f ↦ rw (item_list-filler fuel (b ∷ rest) (inr f)) (tt, omega arith)
    | no nf ↦ elim (Result-cases (read_object (b ∷ rest))) [
      | inl ((n, t), e) ↦
          let (two, fits) = read_object-taken (b ∷ rest) n t bs e in
          let left : Bytes = drop n (b ∷ rest) in
          let ih : IsBounded left (item_list fuel (record { rest = left })) =
            item_list-IsBounded fuel left (All-drop IsByte n (b ∷ rest) bs)
              (omega (arith, length-drop n (b ∷ rest))) in
          rw (item_list-ok fuel b rest nz nf e)
            (ih.0, omega (arith, ih.1, length-drop n (b ∷ rest)))
      | inr (inl (x, e)) ↦ rw (item_list-err fuel b rest nz nf e) (ended x fuel (omega arith))
      | inr (inr e) ↦ absurd (read_object-ne-stuck (b ∷ rest) e)
    ]
  ]
]
  where
    ended :
        (x : Error) (k : ℕ)
        → 0 < k
        → IsBounded (b ∷ rest) (err x ∷ item_list k (record { rest = [] }))
    ended x zero l = absurd (omega arith)
    ended x (suc k) l = rw (item_list-filler k [] tt) (refl, omega arith)

-- On any bytes the iterator comes to an end: it yields objects, then at most one error, behind
-- which nothing follows, and in all no more than half as many items as there are bytes, rounded up.
pub ber_items_end :
    (bytes : Bytes)
    → All IsByte bytes
    → Ends (items bytes) × (2 * length (items bytes) ≤ length bytes + 1)
unfolding items
ber_items_end bytes bs = item_list-IsBounded (suc (length bytes)) bytes bs (omega arith)
