-- ===== src/Card/Keys.antt =====
-- src/card.rs: PINs and their retry counters, challenges, and the data objects.
pub mod Reports
pub mod Answers
use myna_card.Prelude.{
  ℕ, ◌-◌, ◌/◌, ◌%◌, ◌^◌, ◌||◌, Option, none, some, [], ◌∷◌, length, take, drop, foldl, Bytes, ltb,
  ◌==◌, if◌then◌else◌, bit_or, bit_xor,
}
use myna_card.Error.{Result, ok, err, malformed, expected_length_out_of_range, from_status}
use myna_card.Action.{Action, pure, raise, lift, ◌>>=◌, ◌>>◌}
use myna_card.Transport.{Transmit}
use myna_card.Apdu.Status.{StatusWord, is_success, retries_remaining}
use myna_card.Apdu.Command.{user, system, case1, with_le, with_data, with_data_le}
use myna_card.Pin.{Pin}
use myna_card.Card.{Card}
use myna_card.Card.Exchange.{call, call_ok}
use myna_card.Card.Files.{ShortEfId}

-- `mod ins`
abbrev pub ins_verify : ℕ
ins_verify = 0x20

abbrev pub ins_change_reference_data : ℕ
ins_change_reference_data = 0x24

abbrev pub ins_change_key : ℕ
ins_change_key = 0x32

abbrev pub ins_get_challenge : ℕ
ins_get_challenge = 0x84

abbrev pub ins_internal_authenticate : ℕ
ins_internal_authenticate = 0x88

abbrev pub ins_get_data : ℕ
ins_get_data = 0xCA

pub data Retries : Type 0 where
  remaining : ℕ → Retries
  blocked unlimited not_reported : Retries

unfoldable pub count : Retries → Option ℕ
count (remaining n) = some n
count blocked = some 0
count unlimited = none
count not_reported = none

unfoldable pub interpret_retries : StatusWord → Result Retries
interpret_retries sw =
    if sw.value == 0x6300
    then ok unlimited
    else if sw.value == 0x63C0
    then ok blocked
    else if sw.value == 0x6984
    then ok blocked
    else if sw.value == 0x9000
    then ok not_reported
    else elim (retries_remaining sw) [ some n ↦ ok (remaining n) | none ↦ err (from_status sw) ]

-- The check of TCK against the exclusive-or of the bytes before it, once they are told apart.
abbrev pub check_tck : Bytes → Bytes → Bytes → Result Bytes
check_tck stored body [] = err (malformed "contact ATR is empty" [])
check_tck stored body (tck ∷ _) =
    let computed : ℕ = foldl bit_xor 0 body in
    if computed == tck
    then ok (0x3B ∷ stored)
    else err (malformed "contact ATR checksum is {tck}, computed {computed}" (tck ∷ computed ∷ []))

-- The body of `contact_atr` behind GET DATA: `stored.split_last()`, and the check.
unfoldable pub checked_atr : Bytes → Result Bytes
checked_atr stored =
    check_tck stored (take (length stored - 1) stored) (drop (length stored - 1) stored)

module _ {T : Type 0} ⦃link : Transmit T⦄ (fuel : ℕ) where
  unfoldable pub get_data : ℕ → Action (Card T) Bytes
  get_data tag = do
    response ← call fuel (with_le user ins_get_data (tag / 2 ^ 8 % 2 ^ 8) (tag % 2 ^ 8) 256)
    if is_success response.status
        then pure response.data_field
        else if response.status.value == 0x6700
        then call_ok fuel (with_le user ins_get_data (tag / 2 ^ 8 % 2 ^ 8) (tag % 2 ^ 8) 65536)
        else raise (from_status response.status)

  unfoldable pub contact_atr : Action (Card T) Bytes
  unfolding checked_atr
  contact_atr = do stored ← get_data 0x5F51; lift (checked_atr stored)

  unfoldable pub internal_authenticate : ShortEfId → Bytes → Action (Card T) Bytes
  internal_authenticate sfi challenge =
      if length challenge == 0 || ltb 255 (length challenge)
      then raise (malformed "challenge must be 1 to 255 bytes, got {}" (length challenge ∷ []))
      else call_ok fuel
          (with_data_le user ins_internal_authenticate 0x00 (bit_or 0x80 sfi.value) challenge 256)

  unfoldable pub get_challenge : ℕ → Action (Card T) Bytes
  get_challenge size =
      if size == 0 || ltb 256 size then raise (expected_length_out_of_range size) else do
        bytes ← call_ok fuel (with_le user ins_get_challenge 0x00 0x00 size)
        if length bytes == size
            then pure bytes
            else raise
                (malformed "asked for a {len} byte challenge and got {}" (size ∷ length bytes ∷ []))

  unfoldable pub verify : Pin → Action (Card T) (Unit {0})
  verify pin = call_ok fuel (with_data user ins_verify 0x00 0x80 pin.bytes) >> pure tt

  unfoldable pub verify_sfi : ShortEfId → Pin → Action (Card T) (Unit {0})
  verify_sfi sfi pin =
      call_ok fuel (with_data user ins_verify 0x00 (bit_or 0x80 sfi.value) pin.bytes) >> pure tt

  unfoldable pub change_reference_data : Pin → Action (Card T) (Unit {0})
  change_reference_data new_pin =
      call_ok fuel (with_data user ins_change_reference_data 0x01 0x80 new_pin.bytes) >> pure tt

  unfoldable pub change_key : Pin → Action (Card T) (Unit {0})
  change_key new_pin =
      call_ok fuel (with_data system ins_change_key 0x00 0x80 new_pin.bytes) >> pure tt

  unfoldable pub pin_retries : Action (Card T) Retries
  unfolding interpret_retries
  pin_retries = do
    response ← call fuel (case1 user ins_verify 0x00 0x80)
    lift (interpret_retries response.status)

  unfoldable pub pin_retries_sfi : ShortEfId → Action (Card T) Retries
  unfolding interpret_retries
  pin_retries_sfi sfi = do
    response ← call fuel (case1 user ins_verify 0x00 (bit_or 0x80 sfi.value))
    lift (interpret_retries response.status)
