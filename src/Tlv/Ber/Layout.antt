-- ===== src/Tlv/Ber/Layout.antt =====
-- The header of a BER-TLV object as ISO/IEC 8825-1 (8.1.2, 8.1.3) lays it out, within the limits of
-- the reader: a tag of at most four bytes, a definite length of at most eight.
use myna_card.Prelude.{ℕ, ◌+◌, ◌%◌, ◌≤◌, ◌<◌, ◌≡◌, ◌≢◌, [], ◌∷◌, length, Bytes}
use myna_card.Prelude.Words.{big_endian}

-- One byte whose lower five bits are not all set; or one with them set, and up to three more, of
-- which all but the last have the top bit set.
abbrev pub IsTag : Bytes → Type 0
IsTag (a ∷ []) = a % 32 ≢ 31
IsTag (a ∷ b ∷ []) = (a % 32 ≡ 31) × (b < 128)
IsTag (a ∷ b ∷ c ∷ []) = (a % 32 ≡ 31) × (128 ≤ b) × (c < 128)
IsTag (a ∷ b ∷ c ∷ d ∷ []) = (a % 32 ≡ 31) × (128 ≤ b) × (128 ≤ c) × (d < 128)
IsTag _ = ⊥

-- One byte below 128; or 128 and the number of the bytes that follow, one to eight.
abbrev pub IsLength : Bytes → Type 0
IsLength (n ∷ []) = n < 128
IsLength (n ∷ d ∷ ds) = (n ≡ 128 + length (d ∷ ds)) × (length (d ∷ ds) ≤ 8)
IsLength _ = ⊥

abbrev pub length_value : Bytes → ℕ
length_value (n ∷ []) = n
length_value (n ∷ ds) = big_endian ds
length_value [] = 0
