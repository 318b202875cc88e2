-- ===== src/Examples/Apdus.antt =====
-- Commands and responses as src/apdu.rs and its tests use them.
use myna_card.Prelude.{◌≡◌, ◌↔◌, some, [], ◌∷◌, Bytes, arith}
use myna_card.Error.{ok, err, expected_length_out_of_range}
use myna_card.Apdu.Command.{Command, with_le, with_data_le, to_bytes}
use myna_card.Apdu.Command.Checks.{Refused, to_bytes-Refused}
use myna_card.Apdu.Command.Decode.{decode}
use myna_card.Apdu.Command.RoundTrip.{decode-to_bytes}

-- Case 4: a challenge with an Le of 256.
abbrev authenticate : Command
authenticate = with_data_le 0x00 0x88 0x00 0x81 (1 ∷ 2 ∷ []) 256

decode-to_bytes_example :
    (bs : Bytes) × (to_bytes authenticate ≡ ok bs) × (decode bs ≡ some authenticate)
decode-to_bytes_example =
    decode-to_bytes authenticate
      (record { data_field = omega arith; le = (omega arith, omega arith) })

to_bytes-Refused_example :
    (to_bytes (with_le 0 0xB0 0 0 65537) ≡ err (expected_length_out_of_range 65537))
    ↔ Refused (with_le 0 0xB0 0 0 65537) (expected_length_out_of_range 65537)
to_bytes-Refused_example =
    to_bytes-Refused (with_le 0 0xB0 0 0 65537) (expected_length_out_of_range 65537)
