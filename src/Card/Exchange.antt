-- ===== src/Card/Exchange.antt =====
-- src/card.rs, `call`, `call_ok` and `transmit_once`: one command and the exchanges that it takes.
pub mod Steps
pub mod Ending
pub mod Chain
use myna_card.Prelude.{ℕ, zero, suc, Option, none, some, ◌++◌, Bytes, ◌==◌, if◌then◌else◌}
use myna_card.Error.{Result, ok, err, stuck}
use myna_card.Action.{Action, pure, exhausted, lift, attempt, continue, ◌>>=◌}
use myna_card.Transport.{Transmit}
use myna_card.Apdu.Status.{correct_le, more_data_available}
use myna_card.Apdu.Command.{Command, user, with_le, to_bytes}
use myna_card.Apdu.Response
use myna_card.Apdu.Response.{Response, into_data}
use myna_card.Card.{Card}

-- `ins::GET_RESPONSE`
abbrev pub ins_get_response : ℕ
ins_get_response = 0xC0

module _ {T : Type 0} ⦃link : Transmit T⦄ where
  -- `self.transport.transmit`
  abbrev pub transmit : Bytes → Action (Card T) Bytes
  transmit bytes card =
      let (answer, transport) = link.transmit card.transport bytes in
      (answer, record { transport = transport })

  unfoldable pub transmit_once : Command → Action (Card T) Response
  transmit_once command = do
    bytes ← lift (to_bytes command)
    raw ← transmit bytes
    lift (Response.parse raw)

  -- `if let Some(le) = response.status.correct_le()`: the command once more, with the right Le.
  unfoldable pub correct : Command → Response → Action (Card T) Response
  correct command response = elim (correct_le response.status) [
    | none ↦ pure response
    | some le ↦ transmit_once (record command { le = some (if le == 0 then 256 else le) })
  ]

  -- The `while let` loop over 61xx, a round for each test of its condition.
  unfoldable pub collect : ℕ → Response → Action (Card T) Response
  collect zero response = exhausted
  collect (suc fuel) response = elim (more_data_available response.status) [
    | none ↦ pure response
    | some available ↦ do
      more ← transmit_once (with_le user ins_get_response 0x00 0x00 available)
      collect fuel
          (record { data_field = response.data_field ++ more.data_field; status = more.status })
  ]

  -- A card may answer 61xx for ever, so the rounds of that loop are given by `fuel`.
  unfoldable pub call : ℕ → Command → Action (Card T) Response
  call fuel command = do
    first ← transmit_once command
    response ← correct command first
    collect fuel response

  unfoldable pub call_ok : ℕ → Command → Action (Card T) Bytes
  call_ok fuel command = do response ← call fuel command; lift (into_data response)
