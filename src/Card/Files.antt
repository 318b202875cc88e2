-- ===== src/Card/Files.antt =====
-- src/card.rs: selecting files, and reading transparent and record structured ones.
pub mod Selecting
pub mod Serving
pub mod Reading
pub mod Whole
pub mod Wrapped
pub mod Identifiers
pub mod Returning
use myna_card.Prelude.{
  ℕ, zero, suc, ◌+◌, ◌-◌, ◌%◌, ◌/◌, ◌^◌, min, Bool, true, false, ◌&&◌, ◌||◌, [], ◌∷◌, ◌++◌, length,
  take, Bytes, ltb, leb, ◌==◌, if◌then◌else◌, bit_or,
}
use myna_card.Prelude.Words.{to_be_bytes}
use myna_card.Error.{
  Error, Result, ok, err, stuck, status, offset_out_of_range, invalid_df_name, no_short_ef_id,
  invalid_record_number,
}
use myna_card.Action.{Action, pure, raise, exhausted, panicked, attempt, continue, ◌>>=◌, ◌>>◌}
use myna_card.Transport.{Transmit}
use myna_card.Apdu.Status.{StatusWord}
use myna_card.Apdu.Command.{user, with_le, with_data}
use myna_card.Tlv.Ber.{total_len, parse_header}
use myna_card.Card.{Card}
use myna_card.Card.Exchange.{call_ok}

-- `mod ins`
abbrev pub ins_select_file : ℕ
ins_select_file = 0xA4

abbrev pub ins_read_binary : ℕ
ins_read_binary = 0xB0

abbrev pub ins_read_record : ℕ
ins_read_record = 0xB2

abbrev pub max_chunk : ℕ
max_chunk = 256

abbrev pub max_offset : ℕ
max_offset = 0x7FFF

-- `isize::MAX`, which `Vec::with_capacity` takes at most.
abbrev pub max_capacity : ℕ
max_capacity = 0x7FFFFFFFFFFFFFFF

pub record ShortEfId : Type 0 where
  pub value : ℕ

unfoldable pub from_ef_id : ℕ → Result ShortEfId
from_ef_id id =
    if leb 0x0001 id && leb id 0x001E
    then ok (record { value = id % 2 ^ 8 })
    else err (no_short_ef_id id)

unfoldable pub is_end_of_file : StatusWord → Bool
is_end_of_file sw = sw.value == 0x6B00 || sw.value == 0x6282

module _ {T : Type 0} where
  -- The `match` of the reading loops, without their empty chunk: the end of the file ends the loop
  -- with what was read, any other error ends the method.
  abbrev pub on_chunk :
      Bytes → (Bytes → Action (Card T) Bytes) → Result Bytes → Action (Card T) Bytes
  on_chunk out go (ok []) = pure out
  on_chunk out go (ok (b ∷ bs)) = go (b ∷ bs)
  on_chunk out go (err (status sw)) = if is_end_of_file sw then pure out else raise (status sw)
  on_chunk out go (err e) = raise e
  on_chunk out go stuck = exhausted

module _ {T : Type 0} ⦃link : Transmit T⦄ (fuel : ℕ) where
  unfoldable pub select_df : Bytes → Action (Card T) (Unit {0})
  select_df name =
      if length name == 0 || ltb 16 (length name)
      then raise (invalid_df_name (length name))
      else call_ok fuel (with_data user ins_select_file 0x04 0x0C name) >> pure tt

  unfoldable pub select_ef : ℕ → Action (Card T) (Unit {0})
  select_ef id = call_ok fuel (with_data user ins_select_file 0x02 0x0C (to_be_bytes id)) >> pure tt

  unfoldable pub read_binary_chunk : ℕ → ℕ → Action (Card T) Bytes
  read_binary_chunk offset le =
      if ltb max_offset offset
      then raise (offset_out_of_range offset)
      else call_ok fuel (with_le user ins_read_binary (offset / 2 ^ 8 % 2 ^ 8) (offset % 2 ^ 8) le)

  unfoldable pub read_binary_chunk_sfi : ShortEfId → ℕ → ℕ → Action (Card T) Bytes
  read_binary_chunk_sfi sfi offset le =
      call_ok fuel (with_le user ins_read_binary (bit_or 0x80 sfi.value) offset le)

  -- The loop of `read_binary`, a round for each test of its condition.
  unfoldable pub read_loop : ℕ → ℕ → ℕ → Bytes → Action (Card T) Bytes
  read_loop zero offset size out = exhausted
  read_loop (suc rounds) offset size out =
      if ltb (length out) size
      then attempt (read_binary_chunk (offset + length out) (min (size - length out) max_chunk))
          (on_chunk out (λ chunk. read_loop rounds offset size (out ++ chunk)))
      else pure out

  -- `Vec::with_capacity(length)` panics above `isize::MAX`. Each round but the last adds a byte at
  -- least.
  unfoldable pub read_binary : ℕ → ℕ → Action (Card T) Bytes
  unfolding read_loop
  read_binary offset size =
      if ltb max_capacity size then panicked else read_loop (suc size) offset size []

  -- The loop of `read_binary_physical`, and of `read_binary_all` where no TLV stands: a chunk that
  -- is not full is the last.
  unfoldable pub physical_loop : ℕ → Bytes → Action (Card T) Bytes
  physical_loop zero out = exhausted
  physical_loop (suc rounds) out =
      if leb (length out) max_offset
      then attempt (read_binary_chunk (length out) max_chunk) (
          on_chunk out (λ chunk.
            if ltb (length chunk) max_chunk
            then pure (out ++ chunk)
            else physical_loop rounds (out ++ chunk)))
      else pure out

  -- Each round but the last adds a byte at least, and the loop ends above `max_offset` bytes.
  unfoldable pub read_binary_physical : Action (Card T) Bytes
  read_binary_physical = physical_loop (max_offset + 2) []

  -- `read_binary_all` behind the first chunk: up to the end that a BER-TLV header gives, else on to
  -- the end of the file.
  unfoldable pub read_rest : Bytes → Action (Card T) Bytes
  read_rest out = elim (parse_header out) [
    | ok h ↦
        if leb (total_len h) (length out)
        then pure (take (total_len h) out)
        else do rest ← read_binary (length out) (total_len h - length out); pure (out ++ rest)
    | err e ↦ physical_loop (max_offset + 2) out
    | stuck ↦ exhausted
  ]

  unfoldable pub read_binary_all : Action (Card T) Bytes
  unfolding read_rest
  read_binary_all = attempt (read_binary_chunk 0 max_chunk) (on_chunk [] read_rest)

  unfoldable pub read_record : ℕ → Action (Card T) Bytes
  read_record number =
      if number == 0
      then raise invalid_record_number
      else call_ok fuel (with_le user ins_read_record number 0x04 256)

  unfoldable pub read_records_from : ℕ → Action (Card T) Bytes
  read_records_from first =
      if first == 0
      then raise invalid_record_number
      else call_ok fuel (with_le user ins_read_record first 0x05 256)
