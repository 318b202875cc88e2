-- ===== src/Apdu/Status.antt =====
-- src/apdu.rs, `StatusWord`: the two bytes SW1-SW2 that end a response.
use myna_card.Prelude.{
  ℕ, ◌/◌, ◌%◌, ◌^◌, Bool, ◌||◌, Option, none, some, ◌==◌, if◌then◌else◌, bit_and,
}

pub record StatusWord : Type 0 where
  pub value : ℕ

-- `StatusWord::SUCCESS`
abbrev pub success : StatusWord
success = record { value = 0x9000 }

-- A u16 shifted right by eight, and cut to a u8.
unfoldable pub sw1 : StatusWord → ℕ
sw1 sw = sw.value / 2 ^ 8 % 2 ^ 8

unfoldable pub sw2 : StatusWord → ℕ
sw2 sw = sw.value % 2 ^ 8

unfoldable pub is_success : StatusWord → Bool
is_success sw = sw.value == 0x9000

unfoldable pub is_warning : StatusWord → Bool
unfolding sw1
is_warning sw = sw1 sw == 0x62 || sw1 sw == 0x63

unfoldable pub more_data_available : StatusWord → Option ℕ
unfolding sw1 sw2
more_data_available sw = if sw1 sw == 0x61 then some (sw2 sw) else none

unfoldable pub correct_le : StatusWord → Option ℕ
unfolding sw1 sw2
correct_le sw = if sw1 sw == 0x6C then some (sw2 sw) else none

unfoldable pub retries_remaining : StatusWord → Option ℕ
unfolding sw2
retries_remaining sw =
    if bit_and sw.value 0xFFF0 == 0x63C0 then some (bit_and (sw2 sw) 0x0F) else none

unfoldable pub is_unlimited_retry : StatusWord → Bool
is_unlimited_retry sw = sw.value == 0x6300
