-- ===== src/Sm/Padding/Removal.antt =====
-- `unpad` undoes `pad`, and accepts nothing but padded data.
use mathlib.Core.List.{reverse, reverse-append, reverse-reverse}
use myna_card.Prelude.{
  ℕ, zero, suc, ◌+◌, ◌-◌, ◌%◌, ◌≤◌, ◌<◌, ◌≡◌, refl, ap, ◌∙◌, sym, ◌↔◌, [], ◌∷◌, ◌++◌, length,
  length-append, append_assoc, append-nil, Bytes, arith, Bool-cases, inl, inr, ◌≢◌, ◌==◌,
}
use myna_card.Error.{ok}
use myna_card.Sm.Padding.{fill, pad, strip, unpad}

-- That many zeros.
abbrev pub zeros : ℕ → Bytes
zeros zero = []
zeros (suc n) = 0x00 ∷ zeros n

-- The zeros that fill the last block.
abbrev pub gap : ℕ → ℕ
gap n = (16 - n % 16) % 16

zeros-snoc : (n : ℕ) → zeros n ++ (0x00 ∷ []) ≡ zeros (suc n)
zeros-snoc zero = refl
zeros-snoc (suc n) = ap (λ r. 0x00 ∷ r) (zeros-snoc n)

length-zeros : (n : ℕ) → length (zeros n) ≡ n
length-zeros zero = refl
length-zeros (suc n) = ap suc (length-zeros n)

reverse-zeros : (n : ℕ) → reverse (zeros n) ≡ zeros n
reverse-zeros zero = refl
reverse-zeros (suc n) =
    reverse-append (0x00 ∷ []) (zeros n)
    ∙ ap (λ r. r ++ (0x00 ∷ [])) (reverse-zeros n)
    ∙ zeros-snoc n

fill-zeros :
    (rounds : ℕ) (out : Bytes)
    → gap (length out) < rounds
    → fill rounds out ≡ out ++ zeros (gap (length out))
unfolding fill
fill-zeros zero out h = absurd (omega arith)
fill-zeros (suc rounds) out h = elim (Bool-cases (length out % 16 == 0)) [
  | inl full ↦
      let none : gap (length out) ≡ 0 = ground arith in rw (full, none, append-nil out) refl
  | inr more ↦
      let longer : length (out ++ (0x00 ∷ [])) ≡ length out + 1 = length-append out (0x00 ∷ []) in
      let some : length out % 16 ≢ 0 = ground arith in
      let left : gap (length out) ≡ suc (gap (length (out ++ (0x00 ∷ [])))) =
        omega (arith, longer, some) in
      rw (more, left)
        (fill-zeros rounds (out ++ (0x00 ∷ [])) (omega (arith, left))
          ∙ append_assoc out (0x00 ∷ []) _)
]

pub pad-zeros : (d : Bytes) → pad d ≡ d ++ (0x80 ∷ zeros (gap (length d + 1)))
unfolding pad
pad-zeros d =
    let size : length (d ++ (0x80 ∷ [])) ≡ length d + 1 = length-append d (0x80 ∷ []) in
    fill-zeros 16 (d ++ (0x80 ∷ [])) (omega arith)
    ∙ append_assoc d (0x80 ∷ []) _
    ∙ ap (λ n. d ++ (0x80 ∷ zeros (gap n))) size

-- Padded data is a whole number of blocks, and one to sixteen bytes longer than the data.
pub length-pad :
    (d : Bytes)
    → (length (pad d) % 16 ≡ 0) × (length d < length (pad d)) × (length (pad d) ≤ length d + 16)
length-pad d =
    let size : length (pad d) ≡ length d + suc (gap (length d + 1)) =
      ap length (pad-zeros d)
      ∙ length-append d (0x80 ∷ zeros (gap (length d + 1)))
      ∙ ap (λ n. length d + suc n) (length-zeros (gap (length d + 1))) in
    omega (arith, size)

strip-zeros : (n : ℕ) (before : Bytes) → strip (zeros n ++ (0x80 ∷ before)) ≡ ok (reverse before)
unfolding strip
strip-zeros zero before = refl
strip-zeros (suc n) before = strip-zeros n before

strip-eq-ok : (l d : Bytes) → strip l ≡ ok d → (n : ℕ) × (l ≡ zeros n ++ (0x80 ∷ reverse d))
unfolding strip
strip-eq-ok [] d e = cc
strip-eq-ok (x ∷ l) d e = elim (Bool-cases (x == 0)) [
  | inl zero_byte ↦
      let (n, same) = strip-eq-ok l d (rw zero_byte at e) in
      let first : x ≡ 0 = ground arith in (suc n, rw (first, same))
  | inr other ↦ elim (Bool-cases (x == 0x80)) [
    | inl mark ↦
        let first : x ≡ 0x80 = ground arith in
        let kept : reverse l ≡ d = ground arith in
        (0, rw first (ap (λ r. 0x80 ∷ r) (sym (reverse-reverse l) ∙ ap reverse kept)))
    | inr neither ↦ absurd (ground arith)
  ]
]

turned : (n : ℕ) (d : Bytes) → reverse (zeros n ++ (0x80 ∷ reverse d)) ≡ d ++ (0x80 ∷ zeros n)
turned n d =
    reverse-append (zeros n) (0x80 ∷ reverse d)
    ∙ ap (λ r. r ++ reverse (zeros n)) (reverse-append (0x80 ∷ []) (reverse d))
    ∙ rw (reverse-reverse d, reverse-zeros n) (append_assoc d (0x80 ∷ []) (zeros n))

-- `unpad` returns data exactly when the bytes are that data, the byte 80, and zeros.
pub unpad_iff :
    (bytes d : Bytes) → (unpad bytes ≡ ok d) ↔ ((n : ℕ) × (bytes ≡ d ++ (0x80 ∷ zeros n)))
unfolding unpad
unpad_iff bytes d = (reads, written)
  where
    reads : unpad bytes ≡ ok d → (n : ℕ) × (bytes ≡ d ++ (0x80 ∷ zeros n))
    reads e =
        let (n, same) = strip-eq-ok (reverse bytes) d e in
        (n, sym (reverse-reverse bytes) ∙ ap reverse same ∙ turned n d)

    written : (n : ℕ) × (bytes ≡ d ++ (0x80 ∷ zeros n)) → unpad bytes ≡ ok d
    written (n, same) =
        let back : reverse bytes ≡ zeros n ++ (0x80 ∷ reverse d) =
          ap reverse same
          ∙ ap reverse (sym (turned n d))
          ∙ reverse-reverse (zeros n ++ (0x80 ∷ reverse d)) in
        rw back (strip-zeros n (reverse d) ∙ ap (λ r. ok r) (reverse-reverse d))

-- Removing the padding gives back what was padded.
pub unpad-pad : (d : Bytes) → unpad (pad d) ≡ ok d
unpad-pad d = (unpad_iff (pad d) d).1 (gap (length d + 1), pad-zeros d)
