-- ===== src/Sm/Session/Receiving.antt =====
-- The card's end of a session, as the module documentation of src/sm.rs describes it.
use myna_card.Prelude.{
  ◌≢◌, All, IsByte, ℕ, ◌+◌, ◌^◌, ◌≤◌, ◌<◌, ◌≡◌, refl, false, List, [], ◌∷◌, ◌++◌, length, Bytes,
  arith,
}
use myna_card.Prelude.Words.{to_be_bytes, big_endian}
use myna_card.Error.{ok}
use myna_card.Transport.{Transmit}
use myna_card.Apdu.Status.{StatusWord}
use myna_card.Card.Exchange.Chain.{IsFinal}
use myna_card.Sm.Padding.Removal.{zeros}
use myna_card.Sm.Cipher.{Cipher}
use myna_card.Tlv.Ber.Layout.{IsLength, length_value}
use myna_card.Sm.Cryptogram.{length_field, cryptogram_object}
use myna_card.Sm.Cryptogram.RoundTrip.{length_field-IsField}
use myna_card.Sm.Session.{counter_block, is_secure_messaging_error}

-- The block that is encrypted to make the initial vector: the counter as sixteen big-endian bytes.
pub record CountsAs (n : ℕ) (block : Bytes) : Type 0 where
  pub bytes : All IsByte block
  pub size : length block ≡ 16
  pub value : big_endian block ≡ n

-- The data object of a cryptogram: tag 86, a length, the padding indicator 01, and the cryptogram.
pub record Wraps (object cryptogram : Bytes) : Type 0 where
  pub length_field : Bytes
  pub is_length : IsLength length_field
  pub value : length_value length_field ≡ length cryptogram + 1
  pub whole : object ≡ 0x86 ∷ (length_field ++ (0x01 ∷ cryptogram))

-- What the module documentation of src/sm.rs says of the card's end: it keeps a counter of its own;
-- what it gets in an encrypted command it decrypts with the initial vector that the encryption of
-- that counter under an initial vector of zeros gives, takes without its padding (80 00 ...), and
-- the counter goes on, whatever status the application answers with. `verdict` is that status.
pub record Receiver {T : Type 0} (link : Transmit T) (cipher : Cipher) (key : Bytes) : Type 0 where
  pub counter : T → ℕ
  pub received : T → List Bytes
  pub verdict : T → Bytes → StatusWord
  pub after : T → Bytes → T
  pub counts : (t : T) (plain : Bytes) → counter (after t plain) ≡ counter t + 1
  pub takes : (t : T) (plain : Bytes) → received (after t plain) ≡ received t ++ (plain ∷ [])
  pub is_final :
      (t : T) (plain : Bytes) → IsFinal (record { data_field = []; status = verdict t plain })
  -- None of the four statuses by which the card says that it has dropped the session.
  pub no_sm_error :
      (t : T) (plain : Bytes)
      → ((verdict t plain).value ≢ 0x6987)
        × ((verdict t plain).value ≢ 0x6988)
        × ((verdict t plain).value ≢ 0x69FC)
        × ((verdict t plain).value ≢ 0x6882)
  pub answers :
      (t : T) (ins p1 p2 : ℕ) (block object cryptogram plain : Bytes) (fill : ℕ)
      → length object ≤ 255
      → Wraps object cryptogram
      → CountsAs (counter t) block
      → cipher.decrypt key (cipher.encrypt key (zeros 16) block) cryptogram
        ≡ plain ++ (0x80 ∷ zeros fill)
      → link.transmit t (0x08 ∷ ins ∷ p1 ∷ p2 ∷ length object ∷ object)
        ≡ (ok (to_be_bytes (verdict t plain).value), after t plain)

pub cryptogram_object-Wraps : (c : Bytes) → length c ≤ 300 → Wraps (cryptogram_object c) c
unfolding cryptogram_object
cryptogram_object-Wraps c h =
    let f = length_field-IsField (length c + 1) (omega arith) in
    record {
      length_field = length_field (length c + 1);
      is_length = f.is_length;
      value = f.value;
      whole = refl;
    }

pub counter_block-CountsAs : (n : ℕ) → n < 2 ^ 32 → CountsAs n (counter_block n)
counter_block-CountsAs n h = record { bytes = omega arith; size = refl; value = omega arith }

pub not_sm_error :
    (sw : StatusWord)
    → ((sw.value ≢ 0x6987) × (sw.value ≢ 0x6988) × (sw.value ≢ 0x69FC) × (sw.value ≢ 0x6882))
    → is_secure_messaging_error sw ≡ false
unfolding is_secure_messaging_error
not_sm_error sw h = ground arith
