-- ===== src/Examples/Secrets.antt =====
-- PINs, and status words that speak of them.
use myna_card.Prelude.{◌≤◌, ◌<◌, ◌≡◌, ◌↔◌, some, [], ◌∷◌, length, Bytes, All, arith}
use myna_card.Error.{ok, pin_incorrect, from_status}
use myna_card.Error.Classes.{Reports, from_status_iff}
use myna_card.Apdu.Status.{StatusWord}
use myna_card.Pin
use myna_card.Pin.{Pin, numeric}
use myna_card.Pin.Accepted.{IsPrintable, pin_new_iff}

abbrev digits : Bytes
digits = b'1' ∷ b'2' ∷ b'3' ∷ b'4' ∷ []

abbrev pin : Pin
pin = record { bytes = digits }

pin_new_iff_example :
    (Pin.new digits ≡ ok pin)
    ↔ (digits ≡ digits) × (0 < length digits) × (length digits ≤ 16) × All IsPrintable digits
pin_new_iff_example = pin_new_iff digits pin

-- Two attempts are left.
abbrev two_left : StatusWord
two_left = record { value = 0x63C2 }

from_status_iff_example :
    (from_status two_left ≡ pin_incorrect (some 2)) ↔ Reports two_left (pin_incorrect (some 2))
from_status_iff_example = from_status_iff two_left (pin_incorrect (some 2)) (omega arith)
