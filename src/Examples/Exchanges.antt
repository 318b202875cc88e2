-- ===== src/Examples/Exchanges.antt =====
-- Scripts of responses, as the tests of src/card.rs use them, and what `call` makes of them.
use myna_card.Prelude.{◌⊎◌, ◌≡◌, refl, [], ◌∷◌, arith}
use myna_card.Error.{ok, err, expected_length_out_of_range}
use myna_card.Transport.Mock.{MockTransport, mock_link}
use myna_card.Apdu.Status.{success, correct_le, more_data_available}
use myna_card.Apdu.Command.{Command, with_le}
use myna_card.Apdu.Command.Checks.{IsSendable, encoding}
use myna_card.Apdu.Response.{Response}
use myna_card.Card.{Card}
use myna_card.Card.Exchange.{call}
use myna_card.Card.Exchange.Ending.{Settled, call-Settled}
use myna_card.Card.Files.{read_binary_all}
use myna_card.Card.Files.Returning.{Panics, read_binary_all-Settled}
use myna_card.Card.Exchange.Chain.{
  scripted, transmit_once-scripted, IsFinal, call-handing_over, call-corrected, call-zero_available,
}

abbrev read_command : Command
read_command = with_le 0x00 0xB0 0x00 0x00 256

read_command-IsSendable : IsSendable read_command
read_command-IsSendable = record { data_field = omega arith; le = (omega arith, omega arith) }

abbrev last_part : Response
last_part = record { data_field = 0xBB ∷ 0xCC ∷ []; status = success }

last_part-IsFinal : IsFinal last_part
unfolding more_data_available correct_le
last_part-IsFinal = record { word = omega arith; no_more = refl; no_retry = refl }

-- AA and 6102, then BB CC and 9000.
call-handing_over_example :
    call 3 read_command
      (scripted ((0xAA ∷ 0x61 ∷ 0x02 ∷ []) ∷ (0xBB ∷ 0xCC ∷ 0x90 ∷ 0x00 ∷ []) ∷ []) [])
    ≡ (
      ok (record { data_field = 0xAA ∷ 0xBB ∷ 0xCC ∷ []; status = success }),
      scripted [] (encoding read_command ∷ encoding (with_le 0x00 0xC0 0x00 0x00 2) ∷ []),
    )
call-handing_over_example =
    call-handing_over ((0xAA ∷ [], 2) ∷ []) last_part read_command [] 3
      ((omega arith, omega arith), tt) last_part-IsFinal read_command-IsSendable (omega arith)

abbrev four_bytes : Response
four_bytes = record { data_field = 1 ∷ 2 ∷ 3 ∷ 4 ∷ []; status = success }

-- 6C04, then four bytes and 9000.
call-corrected_example :
    call 1 read_command (scripted ((0x6C ∷ 0x04 ∷ []) ∷ (1 ∷ 2 ∷ 3 ∷ 4 ∷ 0x90 ∷ 0x00 ∷ []) ∷ []) [])
    ≡ (
      ok four_bytes,
      scripted [] (encoding read_command ∷ encoding (with_le 0x00 0xB0 0x00 0x00 4) ∷ []),
    )
call-corrected_example =
    call-corrected read_command [] 4 four_bytes [] [] 0 read_command-IsSendable (omega arith)
      (omega arith) last_part-IsFinal.no_more

abbrev endless : Card MockTransport
endless = scripted ((0x61 ∷ 0x01 ∷ []) ∷ (0x61 ∷ 0x01 ∷ []) ∷ []) []

call-Settled_example : Settled 2 (call 4 read_command endless)
call-Settled_example = call-Settled 4 read_command endless (omega arith)

abbrev zero_left : Response
zero_left = record { data_field = 0xAA ∷ []; status = record { value = 0x6100 } }

call-zero_available_example :
    call 1 read_command (scripted ((0xAA ∷ 0x61 ∷ 0x00 ∷ []) ∷ []) [])
    ≡ (err (expected_length_out_of_range 0), scripted [] (encoding read_command ∷ []))
call-zero_available_example =
    call-zero_available read_command zero_left _ (scripted [] (encoding read_command ∷ [])) 0
      (transmit_once-scripted read_command zero_left [] [] read_command-IsSendable (omega arith))
      refl

-- The header of an object of 2^63 bytes, then answers of one byte.
abbrev vast_object : Card MockTransport
vast_object =
    scripted
      ((0x30 ∷ 0x88 ∷ 0x80 ∷ 0 ∷ 0 ∷ 0 ∷ 0 ∷ 0 ∷ 0 ∷ 0 ∷ 0x90 ∷ 0x00 ∷ [])
        ∷ (0x41 ∷ 0x90 ∷ 0x00 ∷ [])
        ∷ (0x42 ∷ 0x90 ∷ 0x00 ∷ [])
        ∷ [])
      []

read_binary_all-Settled_example :
    Settled 3 (read_binary_all 5 vast_object) ⊎ Panics 5 3 (omega arith) vast_object
read_binary_all-Settled_example =
    read_binary_all-Settled 5 3 (omega arith) vast_object (omega arith)
