-- ===== src/Examples/Signing.antt =====
-- A header of a huge length.
use myna_card.Prelude.{◌-◌, ◌^◌, ◌<◌, ◌≡◌, refl, [], ◌∷◌, ◌++◌, length, take, Bytes, arith}
use myna_card.Error.{ok}
use myna_card.Transport.Mock.{mock_link}
use myna_card.Apdu.Response.{Response}
use myna_card.Card.Exchange
use myna_card.Card.Exchange.{call_ok}
use myna_card.Card.Exchange.Chain.{scripted}
use myna_card.Card.Files.{read_binary_all, read_binary_chunk}
use myna_card.Apdu.Command.{to_bytes}
use myna_card.Apdu.Response
use myna_card.Apdu.Response.{into_data}
use myna_card.Apdu.Status.{correct_le, more_data_available, is_success}
use myna_card.Card.Files.Wrapped.{read_binary_all-wrapped}
use myna_card.Tlv.Ber.{Header, total_len, parse_header, read_tag, read_length}

-- A header that gives 2^64 - 1 bytes.
abbrev huge : Bytes
huge = 0x04 ∷ 0x88 ∷ 0xFF ∷ 0xFF ∷ 0xFF ∷ 0xFF ∷ 0xFF ∷ 0xFF ∷ 0xFF ∷ 0xFF ∷ []

abbrev huge_header : Header
huge_header = record { tag = 0x04; length = 2 ^ 64 - 1; header_len = 10 }

huge_parses : parse_header huge ≡ ok huge_header
unfolding parse_header read_tag read_length
huge_parses = refl

abbrev asked : Bytes
asked = 0x00 ∷ 0xB0 ∷ 0x00 ∷ 0x00 ∷ 0x00 ∷ []

huge_sent :
    read_binary_chunk 1 0 256 (scripted ((huge ++ (0x90 ∷ 0x00 ∷ [])) ∷ []) [])
    ≡ (ok huge, scripted [] (asked ∷ []))
unfolding read_binary_chunk call_ok Exchange.call Exchange.transmit_once to_bytes Response.parse
    Exchange.correct correct_le Exchange.collect more_data_available into_data is_success
huge_sent = refl

read_binary_all-wrapped_example :
    (read_binary_all 1 (scripted ((huge ++ (0x90 ∷ 0x00 ∷ [])) ∷ []) [])
      ≡ (ok (take (total_len huge_header) huge), scripted [] (asked ∷ [])))
    × (length (take (total_len huge_header) huge) < 10)
read_binary_all-wrapped_example =
    read_binary_all-wrapped 1 (scripted ((huge ++ (0x90 ∷ 0x00 ∷ [])) ∷ []) [])
      (scripted [] (asked ∷ [])) huge huge_header huge_sent (omega arith) huge_parses (omega arith)
