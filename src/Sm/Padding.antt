-- ===== src/Sm/Padding.antt =====
-- src/sm.rs, `pad` and `unpad`: the padding of ISO/IEC 7816-4.
pub mod Removal
use myna_card.Prelude.{ℕ, zero, suc, ◌%◌, List, [], ◌∷◌, ◌++◌, length, Bytes, ◌==◌, if◌then◌else◌}
use mathlib.Core.List.{reverse}
use myna_card.Error.{Error, Result, ok, err, malformed}

-- `BLOCK`
abbrev pub block : ℕ
block = 16

-- The loop of `pad`: a zero for each round until the blocks are full. Fifteen zeros fill any block,
-- and the test is made once more behind them.
unfoldable pub fill : ℕ → Bytes → Bytes
fill zero out = out
fill (suc rounds) out =
    let rest = fill rounds (out ++ (0x00 ∷ [])) in if length out % block == 0 then out else rest

unfoldable pub pad : Bytes → Bytes
unfolding fill
pad bytes = fill 16 (bytes ++ (0x80 ∷ []))

abbrev pub not_padded : Error
not_padded =
    malformed
      "decrypted data does not end in 80 00 … padding; the message counter is probably out of step with the card"
      []

-- The loop of `unpad` over the bytes from the last one on.
unfoldable pub strip : Bytes → Result Bytes
strip [] = err not_padded
strip (last ∷ before) =
    if last == 0x00
    then strip before
    else if last == 0x80
    then ok (reverse before)
    else err not_padded

unfoldable pub unpad : Bytes → Result Bytes
unfolding strip
unpad bytes = strip (reverse bytes)
