-- ===== src/Prelude/Utf8.antt =====
-- UTF-8, as the standard library checks and repairs it. A text is the bytes of its UTF-8.
use Prim.Native.Nat.{ℕ, ◌-◌}
use mathlib.Core.Bool.{Bool, true, false, not, ◌&&◌, ◌||◌}
use mathlib.Core.List.{[], ◌∷◌, ◌++◌}
use myna_card.Prelude.Tests.{ltb, leb, ◌==◌, if◌then◌else◌}
use myna_card.Prelude.Lists.{Bytes}

-- Within a character: how many bytes are to come, the bounds of the next, and those seen.
pub record Partial : Type 0 where
  pub need : ℕ
  pub low : ℕ
  pub high : ℕ
  pub seen : Bytes

abbrev pub idle : Partial
idle = record { need = 0; low = 0; high = 0; seen = [] }

-- U+FFFD
abbrev pub replacement : Bytes
replacement = 0xEF ∷ 0xBF ∷ 0xBD ∷ []

abbrev pub partial : ℕ → ℕ → ℕ → ℕ → Partial
partial need low high b = record { need = need; low = low; high = high; seen = b ∷ [] }

-- The state behind the first byte of a character of several bytes. No character begins with a
-- byte for which it is idle.
abbrev pub lead : ℕ → Partial
lead b =
    if ltb b 0xC2
    then idle
    else if ltb b 0xE0
    then partial 1 0x80 0xBF b
    else if b == 0xE0
    then partial 2 0xA0 0xBF b
    else if b == 0xED
    then partial 2 0x80 0x9F b
    else if ltb b 0xF0
    then partial 2 0x80 0xBF b
    else if b == 0xF0
    then partial 3 0x90 0xBF b
    else if ltb b 0xF4
    then partial 3 0x80 0xBF b
    else if b == 0xF4
    then partial 3 0x80 0x8F b
    else idle

-- The first byte of a character: what is written at once, and the state behind it.
unfoldable pub begin : ℕ → Bytes × Partial
begin b =
    if ltb b 0x80
    then (b ∷ [], idle)
    else if (lead b).need == 0
    then (replacement, idle)
    else ([], lead b)

-- A byte: what is written of it and those seen, whether they are valid, and the state behind it.
unfoldable pub take_byte : Partial → ℕ → Bytes × Bool × Partial
unfolding begin
take_byte s b =
    let fresh = begin b in
    let valid = ltb b 0x80 || not ((lead b).need == 0) in
    if s.need == 0
    then (fresh.0, valid, fresh.1)
    else if leb s.low b && leb b s.high
    then (if s.need == 1 then (s.seen ++ (b ∷ []), true, idle) else (
      [],
      true,
      record { need = s.need - 1; low = 0x80; high = 0xBF; seen = s.seen ++ (b ∷ []) },
    ))
    else (replacement ++ fresh.0, false, fresh.1)

-- `str::from_utf8` succeeds.
unfoldable pub valid_from : Partial → Bytes → Bool
unfolding take_byte
valid_from s [] = s.need == 0
valid_from s (b ∷ bs) = let (written, valid, next) = take_byte s b in valid && valid_from next bs

unfoldable pub is_utf8 : Bytes → Bool
unfolding valid_from
is_utf8 bytes = valid_from idle bytes

-- `String::from_utf8_lossy`: U+FFFD in the place of each part that begins no character.
unfoldable pub lossy_from : Partial → Bytes → Bytes
unfolding take_byte
lossy_from s [] = if s.need == 0 then [] else replacement
lossy_from s (b ∷ bs) = let (written, valid, next) = take_byte s b in written ++ lossy_from next bs

unfoldable pub utf8_lossy : Bytes → Bytes
unfolding lossy_from
utf8_lossy bytes = lossy_from idle bytes
