-- ===== src/Apdu/Response.antt =====
-- src/apdu.rs, `Response`: a raw response split into its data field and status word.
pub mod Splitting
use myna_card.Prelude.{ℕ, ◌-◌, length, take, drop, Bytes, ltb, if◌then◌else◌}
use myna_card.Prelude.Words.{from_be_bytes}
use myna_card.Apdu.Status.{StatusWord, is_success}
use myna_card.Error.{Result, ok, err, short_response, from_status}

-- `data_field` is the source's `data`.
pub record Response : Type 0 where
  pub data_field : Bytes
  pub status : StatusWord

unfoldable pub parse : Bytes → Result Response
parse raw =
    if ltb (length raw) 2
    then err (short_response (length raw))
    else ok (record {
      data_field = take (length raw - 2) raw;
      status = record { value = from_be_bytes (drop (length raw - 2) raw) };
    })

unfoldable pub into_data : Response → Result Bytes
unfolding is_success
into_data r = if is_success r.status then ok r.data_field else err (from_status r.status)
