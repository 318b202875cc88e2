-- ===== src/Ap/Common.antt =====
-- src/ap/common.rs: the common card application.
pub mod Changes
use myna_card.Prelude.{ℕ, [], ◌∷◌, Bytes}
use myna_card.Action.{Action, lift, ◌>>=◌, ◌>>◌}
use myna_card.Transport.{Transmit}
use myna_card.Pin.{Pin}
use myna_card.Card.{Card}
use myna_card.Ap.CardInfo.{CardInfo, parse_card_info}
use myna_card.Card.Files.{from_ef_id, select_df, select_ef}
use myna_card.Card.Files
use myna_card.Card.Keys
use myna_card.Card.Keys.{Retries, verify, change_key}

-- `DF`
abbrev pub df : Bytes
df = 0xD3 ∷ 0x92 ∷ 0x10 ∷ 0x00 ∷ 0x31 ∷ 0x00 ∷ 0x01 ∷ 0x01 ∷ 0x01 ∷ 0x00 ∷ []

-- `ef::CARD_INFO`
abbrev pub ef_card_info : ℕ
ef_card_info = 0x0001

-- `ef::INTERNAL_AUTHENTICATION_KEY`
abbrev pub ef_internal_authentication_key : ℕ
ef_internal_authentication_key = 0x0019

-- `ef::PIN`
abbrev pub ef_pin : ℕ
ef_pin = 0x001C

module _ {T : Type 0} ⦃link : Transmit T⦄ (fuel : ℕ) where
  unfoldable pub select : Action (Card T) (Unit {0})
  select = select_df fuel df

  unfoldable pub read_record : ℕ → ℕ → Action (Card T) Bytes
  read_record id record_number = select_ef fuel id >> Files.read_record fuel record_number

  unfoldable pub read_card_info : Action (Card T) CardInfo
  unfolding read_record
  read_card_info = do raw ← read_record ef_card_info 1; lift (parse_card_info raw)

  unfoldable pub internal_authenticate : Bytes → Action (Card T) Bytes
  internal_authenticate challenge = do
    sfi ← lift (from_ef_id ef_internal_authentication_key)
    Keys.internal_authenticate fuel sfi challenge

  unfoldable pub verify_pin : Pin → Action (Card T) (Unit {0})
  verify_pin pin = select_ef fuel ef_pin >> verify fuel pin

  unfoldable pub change_pin : Pin → Pin → Action (Card T) (Unit {0})
  change_pin current_pin new_pin =
      select_ef fuel ef_pin >> (verify fuel current_pin >> change_key fuel new_pin)

  unfoldable pub pin_retries : Action (Card T) Retries
  pin_retries = select_ef fuel ef_pin >> Keys.pin_retries fuel
