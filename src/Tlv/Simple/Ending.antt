-- ===== src/Tlv/Simple/Ending.antt =====
-- The iterator on any bytes, well formed or not.
use myna_card.Prelude.{
  ℕ, zero, suc, ◌+◌, ◌*◌, ◌≤◌, ◌<◌, ◌≡◌, ◌≢◌, refl, List, [], ◌∷◌, length, drop, length-drop, Bytes,
  arith, inl, inr,
}
use myna_card.Error.{Error, Result, ok, err, stuck, Result-cases}
use native.Mathlib.Decide.{ℕ_discrete}
use myna_card.Tlv.Simple.{Tlv, read_object, next, item_list, items}

-- Objects, and at most one error, which is the last item.
abbrev pub Ends : List (Result Tlv) → Type 0
Ends [] = Unit
Ends (ok t ∷ rest) = Ends rest
Ends (err e ∷ rest) = rest ≡ []
Ends (stuck ∷ rest) = ⊥

read_object-taken :
    (bytes : Bytes) (n : ℕ) (t : Tlv) → read_object bytes ≡ ok (n, t) → (2 ≤ n) × (n ≤ length bytes)
unfolding read_object
read_object-taken bytes n t e = ground arith

read_object-ne-stuck : (bytes : Bytes) → read_object bytes ≢ stuck
unfolding read_object
read_object-ne-stuck bytes e = ground arith

item_list-nil : (fuel : ℕ) → 0 < fuel → item_list fuel (record { rest = [] }) ≡ []
unfolding item_list next
item_list-nil zero h = absurd (omega arith)
item_list-nil (suc fuel) h = refl

abbrev IsBounded : Bytes → List (Result Tlv) → Type 0
IsBounded bytes r = Ends r × (2 * length r ≤ length bytes + 1)

item_list-ok :
    (fuel b : ℕ) (bs : Bytes) {n : ℕ} {t : Tlv}
    → b ≢ 0xFF
    → read_object (b ∷ bs) ≡ ok (n, t)
    → item_list (suc fuel) (record { rest = b ∷ bs })
      ≡ ok t ∷ item_list fuel (record { rest = drop n (b ∷ bs) })
unfolding item_list next
item_list-ok fuel b bs h e = ground arith

item_list-err :
    (fuel b : ℕ) (bs : Bytes) {x : Error}
    → b ≢ 0xFF
    → read_object (b ∷ bs) ≡ err x
    → item_list (suc fuel) (record { rest = b ∷ bs })
      ≡ err x ∷ item_list fuel (record { rest = [] })
unfolding item_list next
item_list-err fuel b bs h e = ground arith

item_list-erased : (fuel : ℕ) (bs : Bytes) → item_list (suc fuel) (record { rest = 0xFF ∷ bs }) ≡ []
unfolding item_list next
item_list-erased fuel bs = refl

item_list-IsBounded :
    (fuel : ℕ) (bytes : Bytes)
    → length bytes < fuel
    → IsBounded bytes (item_list fuel (record { rest = bytes }))
item_list-IsBounded zero bytes h = absurd (omega arith)
item_list-IsBounded (suc fuel) [] h = rw (item_list-nil (suc fuel) (omega arith)) (tt, omega arith)
item_list-IsBounded (suc fuel) (b ∷ bs) h = elim (ℕ_discrete b 0xFF) [
  | yes p ↦ rw (p, item_list-erased fuel bs) (tt, omega arith)
  | no p ↦ elim (Result-cases (read_object (b ∷ bs))) [
    | inl ((n, t), e) ↦
        let (two, fits) = read_object-taken (b ∷ bs) n t e in
        let ih : IsBounded (drop n (b ∷ bs)) (item_list fuel (record { rest = drop n (b ∷ bs) })) =
          item_list-IsBounded fuel (drop n (b ∷ bs)) (omega (arith, length-drop n (b ∷ bs))) in
        rw (item_list-ok fuel b bs p e) (ih.0, omega (arith, ih.1, length-drop n (b ∷ bs)))
    | inr (inl (x, e)) ↦
        rw (item_list-err fuel b bs p e, item_list-nil fuel (omega arith)) (refl, omega arith)
    | inr (inr e) ↦ absurd (read_object-ne-stuck (b ∷ bs) e)
  ]
]

-- On any bytes the iterator comes to an end: it yields objects, then at most one error, behind
-- which nothing follows, and in all no more than half as many items as there are bytes, rounded up.
simple_items_end :
    (bytes : Bytes) → Ends (items bytes) × (2 * length (items bytes) ≤ length bytes + 1)
unfolding items
simple_items_end bytes = item_list-IsBounded (suc (length bytes)) bytes (omega arith)
