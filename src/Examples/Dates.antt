-- ===== src/Examples/Dates.antt =====
-- Dates of the calendar, and identifiers of keys.
use myna_card.Prelude.{◌+◌, ◌<◌, ◌≡◌, refl, ◌↔◌, ℕ, [], ◌∷◌, take, drop, Bytes, IsByte, All, arith}
use myna_card.Prelude.Int.{pos}
use myna_card.Data.Date.{calendar_date, from_unix_seconds}
use myna_card.Data.Date.Calendar.{next_date}
use myna_card.Error.{ok}
use myna_card.Data.KeyId.Reading.{parse}
use myna_card.Data.KeyId.Text.{debug, debug_iff}
use myna_card.Data.Date.Days.{from_unix_seconds-next_date}

-- From 2000-02-28 to 2000-02-29.
from_unix_seconds-next_date_example :
    ((951696000 < 86400) → from_unix_seconds (pos 951696000) ≡ calendar_date 1970 1 1)
    × (from_unix_seconds (pos (951696000 + 86400)) ≡ next_date (from_unix_seconds (pos 951696000)))
from_unix_seconds-next_date_example = from_unix_seconds-next_date 951696000 (omega arith)

-- An identifier by the first of the two bytes between its groups.
abbrev id_bytes : ℕ → Bytes
id_bytes between =
    0x36 ∷ 0x30 ∷ 0x30 ∷ 0x30 ∷ 0x30 ∷ 0x32 ∷ 0x34 ∷ between ∷ 0x05 ∷ 0x30 ∷ 0x30 ∷ 0x31 ∷ 0x00
    ∷ 0x00 ∷ 0x00 ∷ 0x00 ∷ []

id_bytes-parses :
    (between : ℕ) → parse (id_bytes between) ≡ ok (record { bytes = id_bytes between })
unfolding parse
id_bytes-parses between = refl

id_bytes-IsByte : (between : ℕ) → IsByte between → All IsByte (id_bytes between)
id_bytes-IsByte between h = (
  omega arith,
  (
    omega arith,
    (
      omega arith,
      (
        omega arith,
        (
          omega arith,
          (
            omega arith,
            (
              omega arith,
              (
                h,
                (
                  omega arith,
                  (
                    omega arith,
                    (
                      omega arith,
                      (omega arith, (omega arith, (omega arith, (omega arith, (omega arith, tt))))),
                    ),
                  ),
                ),
              ),
            ),
          ),
        ),
      ),
    ),
  ),
)

debug_iff_example :
    (debug (record { bytes = id_bytes 0x08 }) ≡ debug (record { bytes = id_bytes 0x09 }))
    ↔ (take 7 (id_bytes 0x08) ≡ take 7 (id_bytes 0x09))
      × (drop 9 (id_bytes 0x08) ≡ drop 9 (id_bytes 0x09))
debug_iff_example =
    debug_iff (id_bytes 0x08) (id_bytes 0x09) _ _ (id_bytes-IsByte 0x08 (omega arith))
      (id_bytes-IsByte 0x09 (omega arith)) (id_bytes-parses 0x08) (id_bytes-parses 0x09)
