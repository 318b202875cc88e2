-- ===== src/Sm/Session/Delivery.antt =====
-- The session and the card's end of it: what is sent is what the card decrypts.
use myna_card.Prelude.{ℕ, suc, ◌+◌, ◌≤◌, ◌≡◌, false, List, [], ◌∷◌, length, Bytes, if◌then◌else◌}
use myna_card.Prelude.Words.{to_be_bytes}
use myna_card.Error.{Result, ok, err, from_status}
use myna_card.Transport.{Transmit}
use myna_card.Apdu.Status.{is_success}
use myna_card.Apdu.Command.{Command}
use myna_card.Apdu.Response.{Response}
use myna_card.Pin.{Pin}
use myna_card.Card.{Card}
use myna_card.Card.Exchange
use myna_card.Sm.Cipher.{Cipher, IsCipher}
use myna_card.Sm.Session.{SecureSession, verify, select_ef}
use myna_card.Sm.Session.Receiving.{Receiver}

module _ {T : Type 0} ⦃link : Transmit T⦄ (cipher : Cipher) (key : Bytes) (lawful : IsCipher cipher)
    (card : Receiver link cipher key) (fuel : ℕ) where
  -- The two ends are in step: one key, one counter, and the session is not broken.
  pub record InStep (s : SecureSession T) : Type 0 where
    pub same_key : s.key ≡ key
    pub same_counter : s.counter ≡ card.counter s.card.transport
    pub whole : s.broken ≡ false

  -- The session when the card has taken a message, and what the caller gets.
  abbrev pub taken : SecureSession T → Bytes → SecureSession T
  taken s plain = record {
    card = record { transport = card.after s.card.transport plain };
    key = s.key;
    counter = s.counter + 1;
    broken = false;
  }

  abbrev pub reply : SecureSession T → Bytes → Result Bytes
  reply s plain =
      let sw = card.verdict s.card.transport plain in
      if is_success sw then ok [] else err (from_status sw)

  -- What can be sent encrypted: a secret for a key reference, or a file identifier.
  pub data Message : Type 0 where
    secret : ℕ → Pin → Message
    file : ℕ → Message

  abbrev pub plaintext : Message → Bytes
  plaintext (secret reference pin) = pin.bytes
  plaintext (file id) = to_be_bytes id

  abbrev pub Fits : Message → Type 0
  Fits (secret reference pin) = (1 ≤ reference) × (reference ≤ 0x1E) × (length pin.bytes ≤ 16)
  Fits (file id) = Unit {0}

  abbrev pub deliver : Message → SecureSession T → Result (Unit {0}) × SecureSession T
  deliver (secret reference pin) = verify cipher (suc fuel) reference pin
  deliver (file id) = select_ef cipher (suc fuel) id

  abbrev pub deliver_all : List Message → SecureSession T → SecureSession T
  deliver_all [] s = s
  deliver_all (m ∷ ms) s = deliver_all ms (deliver m s).1

  abbrev pub AllFit : List Message → Type 0
  AllFit [] = Unit {0}
  AllFit (m ∷ ms) = Fits m × AllFit ms

  abbrev pub plaintexts : List Message → List Bytes
  plaintexts [] = []
  plaintexts (m ∷ ms) = plaintext m ∷ plaintexts ms
