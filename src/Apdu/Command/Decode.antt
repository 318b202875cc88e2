-- ===== src/Apdu/Command/Decode.antt =====
-- The reader of a command APDU that ISO/IEC 7816-3 (12.1) prescribes: it tells the seven forms
-- apart by the length alone. It is no translation of code: the crate only writes commands.
use myna_card.Prelude.{
  ℕ, ◌+◌, Option, none, some, [], ◌∷◌, length, take, drop, Bytes, ◌==◌, if◌then◌else◌,
}
use myna_card.Prelude.Words.{from_be_bytes}
use myna_card.Apdu.Command.{Command}

-- Zero stands for the greatest length of the form.
abbrev pub short_le : ℕ → ℕ
short_le n = if n == 0 then 256 else n

abbrev pub extended_le : ℕ → ℕ
extended_le n = if n == 0 then 65536 else n

abbrev pub Body : Type 0
Body = Option (Bytes × Option ℕ)

-- A data field, and behind it the one byte of Le.
short_end : Bytes → Bytes → Body
short_end bytes (le ∷ []) = some (bytes, some (short_le le))
short_end bytes _ = none

-- Cases 3 and 4 short: one byte Lc, not zero.
short_body : ℕ → Bytes → Body
unfolding short_end
short_body n rest =
    if length rest == n
    then some (rest, none)
    else if length rest == n + 1
    then short_end (take n rest) (drop n rest)
    else none

-- Behind a zero: case 2 extended, or a two byte Lc and cases 3 and 4 extended.
extended_body : Bytes → Body
extended_body (hi ∷ lo ∷ []) = some ([], some (extended_le (from_be_bytes (hi ∷ lo ∷ []))))
extended_body (hi ∷ lo ∷ b ∷ bs) =
    let n = from_be_bytes (hi ∷ lo ∷ []) in
    if length (b ∷ bs) == n
    then some (b ∷ bs, none)
    else if length (b ∷ bs) == n + 2
    then some (take n (b ∷ bs), some (extended_le (from_be_bytes (drop n (b ∷ bs)))))
    else none
extended_body _ = none

unfoldable pub body : Bytes → Body
unfolding short_body extended_body
body [] = some ([], none)
body (le ∷ []) = some ([], some (short_le le))
body (n ∷ b ∷ rest) = if n == 0 then extended_body (b ∷ rest) else short_body n (b ∷ rest)

abbrev pub with_body : ℕ → ℕ → ℕ → ℕ → Body → Option Command
with_body cla ins p1 p2 none = none
with_body cla ins p1 p2 (some (bytes, le)) =
    some (record { cla = cla; ins = ins; p1 = p1; p2 = p2; data_field = bytes; le = le })

unfoldable pub decode : Bytes → Option Command
unfolding body
decode (cla ∷ ins ∷ p1 ∷ p2 ∷ rest) = with_body cla ins p1 p2 (body rest)
decode _ = none
