-- ===== src/Card/Files/Serving.antt =====
-- A card with a transparent file selected, and single READ BINARY commands to it.
use myna_card.Prelude.{
  ℕ, suc, ◌%◌, ◌/◌, ◌^◌, ◌≤◌, ◌<◌, ◌≡◌, refl, ◌∙◌, false, [], ◌∷◌, ◌++◌, length, take, drop, Bytes,
  arith, ltb,
}
use myna_card.Error.{ok, err, status, from_status}
use myna_card.Transport.{Transmit}
use myna_card.Apdu.Status.{StatusWord, success, correct_le, more_data_available, is_success}
use myna_card.Apdu.Command.{Command, user, with_le, to_bytes}
use myna_card.Apdu.Command.Checks.{encoding-with_le, to_bytes-eq-ok}
use myna_card.Apdu.Response.{Response}
use myna_card.Apdu.Response.Splitting.{parse-raw_of}
use myna_card.Card.{Card}
use myna_card.Card.Exchange.{transmit_once}
use myna_card.Card.Exchange.Steps.{call_ok-success, call_ok-status}
use myna_card.Card.Files.{ins_read_binary, read_binary_chunk, max_offset}

-- The bytes of a short READ BINARY for `le` bytes from `offset` on (JICSAP 6.4.1).
abbrev pub read_apdu : ℕ → ℕ → Bytes
read_apdu offset le = 0x00 ∷ 0xB0 ∷ (offset / 256) ∷ (offset % 256) ∷ (le % 256) ∷ []

-- What JICSAP 6.4.1 and 7.3.1 say of a card whose current EF holds `file`: READ BINARY answers with
-- the bytes from the offset on, up to Le of them or the end of the file, and 9000; from an offset
-- at the end of the file or behind it, it answers 6B00.
pub record Serves {T : Type 0} (link : Transmit T) (t : T) (file : Bytes) : Type 0 where
  pub reads :
      (offset le : ℕ)
      → offset < length file
      → offset ≤ 0x7FFF
      → 0 < le
      → le ≤ 256
      → link.transmit t (read_apdu offset le)
        ≡ (ok (take le (drop offset file) ++ (0x90 ∷ 0x00 ∷ [])), t)
  pub ends :
      (offset le : ℕ)
      → length file ≤ offset
      → offset ≤ 0x7FFF
      → 0 < le
      → le ≤ 256
      → link.transmit t (read_apdu offset le) ≡ (ok (0x6B ∷ 0x00 ∷ []), t)

abbrev read_command : ℕ → ℕ → Command
read_command offset le = with_le user ins_read_binary (offset / 2 ^ 8 % 2 ^ 8) (offset % 2 ^ 8) le

read_command-bytes :
    (offset le : ℕ)
    → offset ≤ 0x7FFF
    → 0 < le
    → le ≤ 256
    → to_bytes (read_command offset le) ≡ ok (read_apdu offset le)
read_command-bytes offset le h l u =
    let high : offset / 2 ^ 8 % 2 ^ 8 ≡ offset / 256 = omega arith in
    to_bytes-eq-ok (read_command offset le)
      (record { data_field = omega arith; le = (l, omega arith) })
    ∙ rw
        (encoding-with_le user ins_read_binary (offset / 2 ^ 8 % 2 ^ 8) (offset % 2 ^ 8) le u, high)

abbrev past_end : StatusWord
past_end = record { value = 0x6B00 }

module _ {T : Type 0} ⦃link : Transmit T⦄ (fuel : ℕ) (t : T) (file : Bytes)
    (s : Serves link t file) where
  abbrev card : Card T
  card = record { transport = t }

  pub chunk-reads :
      (offset le : ℕ)
      → offset < length file
      → offset ≤ 0x7FFF
      → 0 < le
      → le ≤ 256
      → read_binary_chunk (suc fuel) offset le card ≡ (ok (take le (drop offset file)), card)
  unfolding read_binary_chunk transmit_once
  chunk-reads offset le h k l u =
      let r : Response = record { data_field = take le (drop offset file); status = success } in
      let once : transmit_once (read_command offset le) card ≡ (ok r, card) = rw (
        read_command-bytes offset le k l u,
        s.reads offset le h k l u,
        parse-raw_of r (omega arith),
      ) in
      let inside : ltb max_offset offset ≡ false = ground arith in
      rw (
        inside,
        call_ok-success fuel (read_command offset le) (take le (drop offset file)) card card once,
      )

  pub chunk-ends :
      (offset le : ℕ)
      → length file ≤ offset
      → offset ≤ 0x7FFF
      → 0 < le
      → le ≤ 256
      → read_binary_chunk (suc fuel) offset le card ≡ (err (status past_end), card)
  unfolding read_binary_chunk transmit_once from_status correct_le more_data_available is_success
  chunk-ends offset le h k l u =
      let r : Response = record { data_field = []; status = past_end } in
      let once : transmit_once (read_command offset le) card ≡ (ok r, card) = rw (
        read_command-bytes offset le k l u,
        s.ends offset le h k l u,
        parse-raw_of r (omega arith),
      ) in
      let inside : ltb max_offset offset ≡ false = ground arith in
      rw (inside, call_ok-status fuel (read_command offset le) r card card once refl refl refl)
