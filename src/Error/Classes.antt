-- ===== src/Error/Classes.antt =====
-- Which error a status word becomes.
use myna_card.Prelude.{
  ℕ, ◌+◌, ◌/◌, ◌%◌, ◌<◌, ◌≡◌, ◌≢◌, none, some, ◌↔◌, ◌⊎◌, arith, ◌||◌, ◌==◌, if◌then◌else◌,
}
use myna_card.Prelude.Bits.{bit_and_0xfff0, bit_and_0x0f}
use myna_card.Apdu.Status.{StatusWord, sw2, retries_remaining}
use myna_card.Error.{Error, pin_blocked, pin_incorrect, status, from_status}

-- 63Cx says that x attempts remain.
pub retries_remaining_iff :
    (sw : StatusWord) (n : ℕ)
    → sw.value < 65536
    → (retries_remaining sw ≡ some n) ↔ ((sw.value ≡ 0x63C0 + n) × (n < 16))
unfolding retries_remaining
retries_remaining_iff sw n h = (
  (λ e. ground (arith, bit_and_0xfff0 sw.value, bit_and_0x0f (sw2 sw))),
  λ e. ground (arith, bit_and_0xfff0 sw.value, bit_and_0x0f (sw2 sw)),
)

-- The status words behind each error.
abbrev pub Reports : StatusWord → Error → Type 0
Reports sw pin_blocked = (sw.value ≡ 0x63C0) ⊎ (sw.value ≡ 0x6984)
Reports sw (pin_incorrect none) = sw.value ≡ 0x6300
Reports sw (pin_incorrect (some n)) = (sw.value ≡ 0x63C0 + n) × (0 < n) × (n < 16)
Reports sw (status sw') =
    (sw' ≡ sw)
    × (sw.value ≢ 0x6300)
    × (sw.value ≢ 0x6984)
    × ((sw.value < 0x63C0) ⊎ (0x63CF < sw.value))
Reports sw _ = ⊥

-- The classification in plain arithmetic.
from_status-plain :
    (sw : StatusWord)
    → sw.value < 65536
    → from_status sw ≡ (
        if sw.value == 0x63C0 || sw.value == 0x6984
        then pin_blocked
        else if sw.value == 0x6300
        then pin_incorrect none
        else if sw.value / 16 == 0x63C
        then pin_incorrect (some (sw.value % 16))
        else status sw)
unfolding from_status
from_status-plain sw h = ground (arith, bit_and_0xfff0 sw.value, bit_and_0x0f (sw2 sw))

reports : (sw : StatusWord) (e : Error) → sw.value < 65536 → from_status sw ≡ e → Reports sw e
reports sw pin_blocked h e = ground (arith, from_status-plain sw h)
reports sw (pin_incorrect none) h e = ground (arith, from_status-plain sw h)
reports sw (pin_incorrect (some n)) h e = ground (arith, from_status-plain sw h)
reports sw (status sw') h e = ground (arith, from_status-plain sw h)
reports sw _ h e = ground (arith, from_status-plain sw h)

reported : (sw : StatusWord) (e : Error) → sw.value < 65536 → Reports sw e → from_status sw ≡ e
reported sw pin_blocked h r = ground (arith, from_status-plain sw h)
reported sw (pin_incorrect none) h r = ground (arith, from_status-plain sw h)
reported sw (pin_incorrect (some n)) h r = ground (arith, from_status-plain sw h)
reported sw (status sw') h r = ground (arith, from_status-plain sw h)
reported sw _ h r = absurd r

-- `from_status` sorts every status word: 63C0 and 6984 are a blocked PIN, 6300 is a wrong PIN with no
-- limit, 63C1 to 63CF a wrong PIN with that many attempts left, and each other word is kept as it is;
-- it gives no other error.
pub from_status_iff :
    (sw : StatusWord) (e : Error) → sw.value < 65536 → (from_status sw ≡ e) ↔ Reports sw e
from_status_iff sw e h = (reports sw e h, reported sw e h)
