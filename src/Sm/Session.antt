-- ===== src/Sm/Session.antt =====
-- src/sm.rs, `SecureSession`: an open session, its message counter, and the commands sent in it.
pub mod Life
pub mod Receiving
pub mod Delivery
use myna_card.Prelude.{
  ℕ, zero, suc, ◌+◌, ◌-◌, ◌/◌, ◌%◌, ◌^◌, min, Bool, true, false, not, ◌||◌, [], ◌∷◌, ◌++◌, length,
  take, Bytes, ltb, leb, ◌==◌, if◌then◌else◌, bit_or,
}
use myna_card.Prelude.Words.{to_be_bytes}
use myna_card.Error.{Result, ok, err, stuck, status, from_status, malformed, offset_out_of_range}
use myna_card.Action.{Action, pure, raise, exhausted, lift, attempt, continue, ◌>>=◌, ◌>>◌}
use myna_card.Transport.{Transmit}
use myna_card.Apdu.Status.{StatusWord, is_success}
use myna_card.Apdu.Command.{Command, system, sm_without_integrity, with_data, with_data_le}
use myna_card.Apdu.Response.{Response}
use myna_card.Pin.{Pin}
use myna_card.Tlv.Ber.{Header, parse_header, total_len}
use myna_card.Data.RsaKey.{RsaPublicKey}
use myna_card.Card.{Card}
use myna_card.Card.Exchange
use myna_card.Card.Exchange.{call_ok}
use myna_card.Card.Files.{ins_select_file, ins_read_binary, from_ef_id}
use myna_card.Card.Keys.{ins_verify}
use myna_card.Sm.Padding.{block, pad, unpad}
use myna_card.Sm.Cipher.{Cipher}
use myna_card.Sm.Cryptogram.{cryptogram_object, parse_cryptogram}

-- `SEED_LEN`
abbrev pub seed_len : ℕ
seed_len = 32

-- `TAG_EXPECTED_LENGTH`
abbrev pub tag_expected_length : ℕ
tag_expected_length = 0x96

-- `TAG_KEY_DELIVERY`
abbrev pub tag_key_delivery : ℕ
tag_key_delivery = 0xA0

-- `TAG_ENCRYPTION_KEY`
abbrev pub tag_encryption_key : ℕ
tag_encryption_key = 0x80

-- `ins::SET_SESSION_KEY`
abbrev pub ins_set_session_key : ℕ
ins_set_session_key = 0xAE

pub record SecureSession (T : Type 0) : Type 0 where
  pub card : Card T
  pub key : Bytes
  pub counter : ℕ
  pub broken : Bool

unfoldable pub is_secure_messaging_error : StatusWord → Bool
is_secure_messaging_error sw =
    sw.value == 0x6987 || sw.value == 0x6988 || sw.value == 0x69FC || sw.value == 0x6882

-- `[0u8; BLOCK]`
abbrev pub zero_block : Bytes
zero_block = 0 ∷ 0 ∷ 0 ∷ 0 ∷ 0 ∷ 0 ∷ 0 ∷ 0 ∷ 0 ∷ 0 ∷ 0 ∷ 0 ∷ 0 ∷ 0 ∷ 0 ∷ 0 ∷ []

-- A `u32` counter as sixteen big-endian bytes.
abbrev pub counter_block : ℕ → Bytes
counter_block n =
    take 12 zero_block
    ++ ((n / 2 ^ 24 % 2 ^ 8) ∷ (n / 2 ^ 16 % 2 ^ 8) ∷ (n / 2 ^ 8 % 2 ^ 8) ∷ (n % 2 ^ 8) ∷ [])

module _ (cipher : Cipher) where
  -- `SecureSession::iv`, for a session's key.
  unfoldable pub iv : Bytes → ℕ → Bytes
  iv key n = cipher.encrypt key zero_block (counter_block n)

  unfoldable pub encrypt : {T : Type 0} → SecureSession T → Bytes → Bytes
  encrypt s plaintext = cipher.encrypt s.key (iv s.key s.counter) (pad plaintext)

  unfoldable pub decrypt : {T : Type 0} → SecureSession T → Bytes → ℕ → Result Bytes
  decrypt s ciphertext n =
      if length ciphertext == 0 || not (length ciphertext % block == 0)
      then err (
          malformed "a cryptogram of {} bytes is not a whole number of blocks"
            (length ciphertext ∷ []))
      else unpad (cipher.decrypt s.key (iv s.key n) ciphertext)

module _ {T : Type 0} where
  -- A method of the card, on the card of a session.
  abbrev pub on_card {ℓ} : {A : Type ℓ} → Action (Card T) A → Action (SecureSession T) A
  on_card m s = ((m s.card).0, record s { card = (m s.card).1 })

  -- `SecureSession::card`: the caller gets the card, and does with it whatever there is to do.
  abbrev pub with_card : (Card T → Card T) → SecureSession T → SecureSession T
  with_card handle s = record s { card = handle s.card }

  -- `call` behind the card's answer: the counter, which is a `u32`, goes on, whatever the answer.
  unfoldable pub answered : Response → Action (SecureSession T) Bytes
  answered response s = (
    if is_success response.status
        then ok response.data_field
        else err (from_status response.status),
    record s {
      counter = (s.counter + 1) % 2 ^ 32;
      broken = if is_secure_messaging_error response.status then true else s.broken;
    },
  )

module _ {T : Type 0} ⦃link : Transmit T⦄ (cipher : Cipher) (fuel : ℕ) where
  unfoldable pub establish : RsaPublicKey → Bytes → Card T → Result (SecureSession T) × Card T
  establish public_key seed = do
    delivered ← lift (
        cipher.oaep public_key
          (tag_key_delivery ∷ (2 + seed_len) ∷ tag_encryption_key ∷ seed_len ∷ seed))
    call_ok fuel (with_data system ins_set_session_key 0x00 0x00 delivered)
    λ card. (ok (record { card = card; key = take block seed; counter = 1; broken = false }), card)

  -- `SecureSession::call`
  unfoldable pub call : Command → Action (SecureSession T) Bytes
  unfolding answered
  call command s =
      if s.broken
      then (err (status (record { value = 0x69FC })), s)
      else (on_card (Exchange.call fuel command) >>= answered) s

  unfoldable pub verify : ℕ → Pin → Action (SecureSession T) (Unit {0})
  verify key value s =
      (lift (from_ef_id key) >>= λ sfi.
      call (
        with_data sm_without_integrity ins_verify 0x00 (bit_or 0x80 sfi.value)
          (cryptogram_object (encrypt cipher s value.bytes)))
      >> pure tt)
        s

  unfoldable pub select_ef : ℕ → Action (SecureSession T) (Unit {0})
  select_ef id s =
      (call (
            with_data sm_without_integrity ins_select_file 0x02 0x0C
              (cryptogram_object (encrypt cipher s (to_be_bytes id))))
          >> pure tt)
        s

  -- The end of `read_binary`: the command went out under the counter before this one.
  unfoldable pub opened : Bytes → Action (SecureSession T) Bytes
  opened response s =
      (lift (parse_cryptogram response) >>= λ cryptogram.
      lift (decrypt cipher s cryptogram ((s.counter + 2 ^ 32 - 1) % 2 ^ 32)))
        s

  unfoldable pub read_binary : ℕ → ℕ → Action (SecureSession T) Bytes
  unfolding opened
  read_binary offset size = do
    response ← call (
        with_data_le sm_without_integrity ins_read_binary (offset / 2 ^ 8 % 2 ^ 8) (offset % 2 ^ 8)
          (tag_expected_length ∷ 0x03 ∷ 0x00 ∷ (size / 2 ^ 8 % 2 ^ 8) ∷ (size % 2 ^ 8) ∷ []) 65536)
    opened response

  unfoldable pub read_ef_physical : ℕ → Action (SecureSession T) Bytes
  read_ef_physical id = select_ef id >> read_binary 0 0

  -- `if chunk.is_empty() { break; }`
  abbrev go_on :
      Bytes → (Bytes → Action (SecureSession T) Bytes) → Bytes → Action (SecureSession T) Bytes
  go_on out go [] = pure out
  go_on out go (b ∷ bs) = go (b ∷ bs)

  -- The loop of `read_ef`, a round for each test of its condition.
  unfoldable pub read_more : ℕ → ℕ → Bytes → Action (SecureSession T) Bytes
  read_more zero total out = exhausted
  read_more (suc rounds) total out =
      if ltb (length out) total
      then (if ltb 65535 (length out)
          then raise (offset_out_of_range (length out))
          else read_binary (length out) (min (total - length out) 65535)
            >>= go_on out (λ chunk. read_more rounds total (out ++ chunk)))
      else pure out

  -- `match ber::parse_header(..)`. Each round of the loop but the last adds a byte at least.
  abbrev with_header : Bytes → Result Header → Action (SecureSession T) Bytes
  with_header out (ok h) =
      if leb (total_len h) (length out)
      then pure (take (total_len h) out)
      else read_more (suc (total_len h)) (total_len h) out
  with_header out (err e) = pure out
  with_header out stuck = exhausted

  -- `read_ef` behind its first read.
  unfoldable pub up_to_end : Bytes → Action (SecureSession T) Bytes
  unfolding read_more
  up_to_end [] = pure []
  up_to_end (b ∷ bs) = with_header (b ∷ bs) (parse_header (b ∷ bs))

  unfoldable pub read_ef : ℕ → Action (SecureSession T) Bytes
  unfolding up_to_end
  read_ef id = read_ef_physical id >>= up_to_end
