-- ===== src/Card/Files/Reading.antt =====
-- `read_binary` and `read_binary_physical` on a card that serves a file.
use myna_card.Prelude.{
  ℕ, zero, suc, ◌+◌, ◌-◌, ◌%◌, min, ◌≤◌, ◌<◌, ◌≡◌, refl, ap, ◌∙◌, sym, Bool-cases, false,
  le→ltb_false, [], ◌∷◌, ◌++◌, length, take, drop, length-take, length-drop, length-append,
  take-add, take-min, take_all, drop-drop, Bytes, arith, ltb, leb, ltb→lt, ltb_false→le,
  if◌then◌else◌, ◌⊎◌, inl, inr,
}
use myna_card.Error.{ok}
use myna_card.Action.{Action, pure, attempt}
use myna_card.Transport.{Transmit}
use myna_card.Card.{Card}
use myna_card.Card.Files.{
  read_binary_chunk, on_chunk, read_loop, read_binary, physical_loop, read_binary_physical,
  is_end_of_file, max_chunk, max_offset, max_capacity,
}
use myna_card.Card.Files.Serving.{Serves, chunk-reads, chunk-ends}

-- The bytes of the file from `offset` on, `size` of them or up to its end.
abbrev pub slice : Bytes → ℕ → ℕ → Bytes
slice file offset size = take size (drop offset file)

-- A slice and the one behind it.
pub slice-append :
    (file : Bytes) (offset n m : ℕ)
    → slice file offset n ++ slice file (offset + n) m ≡ slice file offset (n + m)
slice-append file offset n m = rw (← drop-drop offset n file) (take-add n m (drop offset file))

pub length-slice :
    (file : Bytes) (offset n : ℕ) → length (slice file offset n) ≡ min n (length file - offset)
length-slice file offset n =
    omega (arith, length-take n (drop offset file), length-drop offset file)

-- A slice that reaches the end of the file is no longer for a greater size.
pub slice-end :
    (file : Bytes) (offset n m : ℕ)
    → length file ≤ offset + n
    → length file ≤ offset + m
    → slice file offset n ≡ slice file offset m
slice-end file offset n m h k =
    take_all n (drop offset file) (omega (arith, length-drop offset file))
    ∙ sym (take_all m (drop offset file) (omega (arith, length-drop offset file)))

-- What the loops hold after some rounds: the file's bytes from `offset` on, up to where they are.
pub record Holds (file : Bytes) (offset : ℕ) (out : Bytes) : Type 0 where
  pub prefix : out ≡ slice file offset (length out)
  pub inside : length out ≤ length file - offset

pub Holds-more :
    (file : Bytes) (offset le pos : ℕ) (out : Bytes)
    → pos ≡ offset + length out
    → Holds file offset out
    → Holds file offset (out ++ slice file pos le)
Holds-more file offset le pos out p h =
    let chunk : Bytes = slice file pos le in
    let size : length chunk ≡ min le (length file - pos) = length-slice file pos le in
    let grown : length (out ++ chunk) ≡ length out + length chunk = length-append out chunk in
    let cut : chunk ≡ slice file pos (length chunk) =
      take-min le (drop pos file)
      ∙ ap (λ k. slice file pos k) (sym (length-take le (drop pos file))) in
    record {
      prefix =
          ap (λ x. x ++ chunk) h.prefix
          ∙ ap (λ y. slice file offset (length out) ++ y) cut
          ∙ ap (λ q. slice file offset (length out) ++ slice file q (length chunk)) p
          ∙ slice-append file offset (length out) (length chunk)
          ∙ ap (λ k. slice file offset k) (sym grown);
      inside = omega arith;
    }

on_chunk-some :
    {T : Type 0} (out chunk : Bytes) (go : Bytes → Action (Card T) Bytes) (c : Card T)
    → 0 < length chunk
    → on_chunk out go (ok chunk) c ≡ go chunk c
on_chunk-some out [] go c h = absurd (omega arith)
on_chunk-some out (b ∷ bs) go c h = refl

-- The sizes for which the offsets of READ BINARY are enough: up to 32 KiB, or up to the end of the
-- file, and for which a vector can be asked for.
abbrev pub InReach : Bytes → ℕ → ℕ → Type 0
InReach file offset size =
    (offset + size ≤ 0x8000)
    ⊎ ((length file ≤ 0x7FFF) × (offset ≤ 0x7FFF) × (size ≤ 0x7FFFFFFFFFFFFFFF))

module _ {T : Type 0} ⦃link : Transmit T⦄ (fuel : ℕ) (t : T) (file : Bytes)
    (s : Serves link t file) where
  abbrev card : Card T
  card = record { transport = t }

  -- A chunk that the card has takes the loop on.
  pub read-on :
      (out : Bytes) (offset le : ℕ) (go : Bytes → Action (Card T) Bytes)
      → offset < length file
      → offset ≤ 0x7FFF
      → 0 < le
      → le ≤ 256
      → attempt (read_binary_chunk (suc fuel) offset le) (on_chunk out go) card
        ≡ go (slice file offset le) card
  read-on out offset le go h k l u = rw (chunk-reads fuel t file s offset le h k l u) (
      on_chunk-some out (slice file offset le) go card (omega (arith, length-slice file offset le)))

  -- At the end of the file the loop ends.
  pub read-end :
      (out : Bytes) (offset le : ℕ) (go : Bytes → Action (Card T) Bytes)
      → length file ≤ offset
      → offset ≤ 0x7FFF
      → 0 < le
      → le ≤ 256
      → attempt (read_binary_chunk (suc fuel) offset le) (on_chunk out go) card ≡ (ok out, card)
  unfolding is_end_of_file
  read-end out offset le go h k l u = rw (chunk-ends fuel t file s offset le h k l u)

  read_loop-file :
      (rounds offset size : ℕ) (out : Bytes)
      → Holds file offset out
      → length out ≤ size
      → size < rounds + length out
      → InReach file offset size
      → read_loop (suc fuel) rounds offset size out card ≡ (ok (slice file offset size), card)
  unfolding read_loop
  read_loop-file zero offset size out h le f r = absurd (omega arith)
  read_loop-file (suc rounds) offset size out h le f r = elim (Bool-cases (ltb (length out) size)) [
    | inl more ↦ elim (Bool-cases (ltb (offset + length out) (length file))) [
      | inl has ↦
          let le' : ℕ = min (size - length out) max_chunk in
          let chunk : Bytes = slice file (offset + length out) le' in
          let sizes : length (out ++ chunk)
              ≡ length out + min le' (length file - (offset + length out)) =
            length-append out chunk
            ∙ ap (λ k. length out + k) (length-slice file (offset + length out) le') in
          let less : length out < size = ground arith in
          let room : offset + length out < length file = ground arith in
          rw
            (
              more,
              read-on out (offset + length out) le'
                  (λ chunk. read_loop (suc fuel) rounds offset size (out ++ chunk)) (ground arith)
                  (ground arith) (ground arith) (omega arith),
            )
            (read_loop-file rounds offset size (out ++ chunk)
              (Holds-more file offset le' (offset + length out) out refl h) (omega (arith, sizes))
              (omega (arith, sizes, room, less)) r)
      | inr ended ↦
          rw
            (
              more,
              read-end out (offset + length out) (min (size - length out) max_chunk)
                  (λ chunk. read_loop (suc fuel) rounds offset size (out ++ chunk)) (ground arith)
                  (ground arith) (ground arith) (omega arith),
            )
            (ap (λ x. (ok x, card))
              (h.prefix ∙ slice-end file offset (length out) size (ground arith) (ground arith)))
    ]
    | inr done ↦
        rw done (ap (λ x. (ok x, card)) (h.prefix ∙ ap (λ k. slice file offset k) (ground arith)))
  ]

  -- On a card that serves a file as READ BINARY is documented, `read_binary` returns the file's
  -- bytes from the offset on, as many as were asked for or as many as there are, provided the
  -- offsets of READ BINARY reach that far: up to 32 KiB, or to the end of the file, and not more than
  -- isize::MAX bytes were asked for.
  pub read_binary-file :
      (offset size : ℕ)
      → InReach file offset size
      → read_binary (suc fuel) offset size card ≡ (ok (slice file offset size), card)
  unfolding read_binary
  read_binary-file offset size r =
      let fits : ltb max_capacity size ≡ false = le→ltb_false max_capacity size (omega arith) in
      rw fits (
        read_loop-file (suc size) offset size [] (record { prefix = refl; inside = omega arith })
          (omega arith) (omega arith) r)

  pub physical_loop-file :
      (rounds : ℕ) (out : Bytes)
      → Holds file 0 out
      → (length out % 256 ≡ 0) ⊎ (length file ≤ length out)
      → length out ≤ 0x8000
      → 0x8000 < rounds + length out
      → physical_loop (suc fuel) rounds out card ≡ (ok (slice file 0 0x8000), card)
  unfolding physical_loop
  physical_loop-file zero out h a le f = absurd (omega arith)
  physical_loop-file (suc rounds) out h a le f = elim (Bool-cases (leb (length out) max_offset)) [
    | inl more ↦
        let go : Bytes → Action (Card T) Bytes = λ chunk.
          if ltb (length chunk) max_chunk
          then pure (out ++ chunk)
          else physical_loop (suc fuel) rounds (out ++ chunk) in
        elim (Bool-cases (ltb (length out) (length file))) [
          | inl has ↦
              let room : length out < length file = ground arith in
              let below : length out ≤ 0x7FFF = ground arith in
              let chunk : Bytes = slice file (length out) max_chunk in
              let long : length chunk ≡ min max_chunk (length file - length out) =
                length-slice file (length out) max_chunk in
              let grown : length (out ++ chunk) ≡ length out + length chunk =
                length-append out chunk in
              let next : Holds file 0 (out ++ chunk) =
                Holds-more file 0 max_chunk (length out) out (omega arith) h in
              elim (Bool-cases (ltb (length chunk) max_chunk)) [
                | inl short ↦
                    let less : length chunk < 256 = ltb→lt _ _ short in
                    rw
                      (
                        more,
                        read-on out (length out) max_chunk go room below (omega arith)
                            (omega arith),
                        short,
                      )
                      (ap (λ x. (ok x, card))
                        (next.prefix
                          ∙ slice-end file 0 (length (out ++ chunk)) 0x8000
                              (omega (arith, long, grown, less, room))
                              (omega (arith, long, grown, less, room, a, below))))
                | inr full ↦
                    let whole : length chunk ≡ 256 =
                      omega (arith, ltb_false→le (length chunk) 256 full, long, room) in
                    rw
                      (
                        more,
                        read-on out (length out) max_chunk go room below (omega arith)
                            (omega arith),
                        full,
                      )
                      (physical_loop-file rounds (out ++ chunk) next
                        (inl (omega (arith, grown, whole, a, room)))
                        (omega (arith, grown, whole, a, below)) (omega (arith, grown, whole)))
              ]
          | inr ended ↦
              rw
                (
                  more,
                  read-end out (length out) max_chunk go (ground arith) (ground arith) (omega arith)
                      (omega arith),
                )
                (ap (λ x. (ok x, card))
                  (h.prefix ∙ slice-end file 0 (length out) 0x8000 (ground arith) (ground arith)))
        ]
    | inr done ↦
        let full : length out ≡ 0x8000 = ground arith in
        rw done (ap (λ x. (ok x, card)) (h.prefix ∙ ap (λ k. slice file 0 k) full))
  ]

  -- On a card that serves a file as READ BINARY is documented, `read_binary_physical` returns the
  -- file's content, filler included, up to the 32 KiB that the offsets of READ BINARY reach.
  pub read_binary_physical-file :
      read_binary_physical (suc fuel) card ≡ (ok (slice file 0 0x8000), card)
  unfolding read_binary_physical
  read_binary_physical-file =
      physical_loop-file (max_offset + 2) [] (record { prefix = refl; inside = omega arith })
        (inl refl) (omega arith) (omega arith)
