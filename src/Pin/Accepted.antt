-- ===== src/Pin/Accepted.antt =====
-- The values that `Pin::new` and `Pin::numeric` accept.
use myna_card.Prelude.{ℕ, ◌≤◌, ◌<◌, ◌≡◌, refl, ◌↔◌, true, [], ◌∷◌, length, all, All, Bytes, arith}
use myna_card.Error.{ok, bind-eq-ok}
use myna_card.Pin.{Pin, new, numeric, is_printable, is_ascii_digit}

abbrev pub IsPrintable : ℕ → Type 0
IsPrintable b = (0x20 ≤ b) × (b ≤ 0x7E)

abbrev pub IsDigit : ℕ → Type 0
IsDigit b = (48 ≤ b) × (b ≤ 57)

all-IsPrintable : (bs : Bytes) → (all is_printable bs ≡ true) ↔ All IsPrintable bs
all-IsPrintable [] = ((λ _. tt), λ _. refl)
all-IsPrintable (b ∷ bs) = let (f, g) = all-IsPrintable bs in ground arith

all-IsDigit : (bs : Bytes) → (all is_ascii_digit bs ≡ true) ↔ All IsDigit bs
all-IsDigit [] = ((λ _. tt), λ _. refl)
all-IsDigit (b ∷ bs) = let (f, g) = all-IsDigit bs in ground arith

-- `Pin::new` succeeds exactly for 1 to 16 bytes of printable ASCII, and keeps them as they are.
pub pin_new_iff :
    (value : Bytes) (pin : Pin)
    → (new value ≡ ok pin)
      ↔ (pin.bytes ≡ value) × (0 < length value) × (length value ≤ 16) × All IsPrintable value
unfolding new
pin_new_iff [] pin = ground arith
pin_new_iff (b ∷ bs) pin = let (f, g) = all-IsPrintable (b ∷ bs) in ground arith

digits-IsPrintable : (bs : Bytes) → All IsDigit bs → All IsPrintable bs
digits-IsPrintable [] h = tt
digits-IsPrintable (b ∷ bs) h =
    ((omega (arith, h.0), omega (arith, h.0)), digits-IsPrintable bs h.1)

-- `Pin::numeric` succeeds exactly for 1 to 16 decimal digits, and keeps them as they are.
pub pin_numeric_iff :
    (value : Bytes) (pin : Pin)
    → (numeric value ≡ ok pin)
      ↔ (pin.bytes ≡ value) × (0 < length value) × (length value ≤ 16) × All IsDigit value
unfolding numeric
pin_numeric_iff value pin = (reads, accepts)
  where
    reads :
        numeric value ≡ ok pin
        → (pin.bytes ≡ value) × (0 < length value) × (length value ≤ 16) × All IsDigit value
    reads e =
        let (pin', first, more) = bind-eq-ok (new value) _ e in
        let (same, some, short, _) = (pin_new_iff value pin').0 first in
        let (f, _) = all-IsDigit pin'.bytes in ground arith

    accepts :
        (pin.bytes ≡ value) × (0 < length value) × (length value ≤ 16) × All IsDigit value
        → numeric value ≡ ok pin
    accepts (same, some, short, digits) =
        let first : new value ≡ ok pin =
          (pin_new_iff value pin).1 (same, some, short, digits-IsPrintable value digits) in
        rw (first, same, (all-IsDigit value).1 digits)
