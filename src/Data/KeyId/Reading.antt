-- ===== src/Data/KeyId/Reading.antt =====
-- src/data.rs, `KeyId`: parsing the identifier, and its two groups of digits.
use myna_card.Prelude.{ℕ, ◌&&◌, [], ◌∷◌, length, take, drop, all, Bytes, ◌==◌}
use myna_card.Error.{Result, ok, ◌>>◌, guard, malformed}
use myna_card.Pin.{is_ascii_digit}
use myna_card.Data.KeyId.{KeyId}

-- `KeyId::LEN`
abbrev pub key_id_len : ℕ
key_id_len = 16

unfoldable pub parse : Bytes → Result KeyId
parse bytes = do
  guard (length bytes == key_id_len)
      (malformed "key identifier must be 16 bytes, got {}" (length bytes ∷ []))
  guard (all is_ascii_digit (take 7 bytes) && all is_ascii_digit (take 3 (drop 9 bytes)))
      (malformed "key identifier is not digits where it should be" [])
  ok (record { bytes = bytes })

-- The bytes that name the key, and those of the group behind them.
unfoldable pub number : KeyId → Bytes
number id = take 7 id.bytes

unfoldable pub group : KeyId → Bytes
group id = take 3 (drop 9 id.bytes)
