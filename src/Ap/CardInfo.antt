-- ===== src/Ap/CardInfo.antt =====
-- src/ap/common.rs, `CardInfo`: what the card says of itself.
use myna_card.Prelude.{ℕ, [], ◌∷◌, length, take, drop, all, Bytes, ◌==◌}
use myna_card.Error.{Result, ok, ◌>>=◌, ◌>>◌, guard, malformed}
use myna_card.Pin.{is_ascii_digit}
use myna_card.Tlv.Simple
use myna_card.Data.Date.{Date}
use myna_card.Data.Date

pub record CardInfo : Type 0 where
  pub serial : Bytes
  pub municipality_code : Bytes
  pub expiry : Date

abbrev pub tag_card_info : ℕ
tag_card_info = 0x01

abbrev pub card_info_len : ℕ
card_info_len = 28

-- `CardInfo::parse`
unfoldable pub parse_card_info : Bytes → Result CardInfo
parse_card_info bytes = do
  tlv ← Simple.parse bytes
  guard (tlv.tag == tag_card_info) (malformed "expected tag 01, got {:02X}" (tlv.tag ∷ []))
  guard (length tlv.value == card_info_len)
      (malformed "card info must be {} digits, got {}" (card_info_len ∷ length tlv.value ∷ []))
  guard (all is_ascii_digit tlv.value) (malformed "card info must be all digits" [])
  expiry ← Date.parse (drop 20 tlv.value)
  ok (record {
    serial = take 15 tlv.value;
    municipality_code = take 5 (drop 15 tlv.value);
    expiry = expiry;
  })

unfoldable pub prefecture_code : CardInfo → Bytes
prefecture_code info = take 2 info.municipality_code
