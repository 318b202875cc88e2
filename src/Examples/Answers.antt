-- ===== src/Examples/Answers.antt =====
-- Commands for PINs, challenges and data objects over scripts, as in the tests of src/card.rs.
use myna_card.Prelude.{◌++◌, false, ◌≡◌, refl, [], ◌∷◌, Bytes, arith}
use myna_card.Error.{ok, err, bad_signing_input, from_status}
use myna_card.Transport.Mock.{mock_link}
use myna_card.Apdu.Status.{correct_le, more_data_available, is_success}
use myna_card.Apdu.Command.{with_data_le}
use myna_card.Apdu.Command.Checks.{encoding}
use myna_card.Apdu.Response.{Response}
use myna_card.Ap.Scheme.{pre_hashed_digest_info}
use myna_card.Ap.Jpki.{sign}
use myna_card.Ap.Jpki.Signing.{IsAllowed, sign-checked}
use myna_card.Ap.Common.{change_pin}
use myna_card.Ap.Common.Changes.{select_pin, change_pin-refused}
use myna_card.Pin
use myna_card.Pin.{Pin}
use myna_card.Pin.Accepted.{pin_new_iff}
use myna_card.Card.Exchange.Chain.{scripted, IsFinal}
use myna_card.Card.Keys.Answers.{outcome}

abbrev secret : Bytes
secret = b'1' ∷ b'2' ∷ b'3' ∷ b'4' ∷ []

abbrev secret_pin : Pin
secret_pin = record { bytes = secret }

secret-accepted : Pin.new secret ≡ ok secret_pin
secret-accepted = (pin_new_iff secret secret_pin).1 (
  refl,
  omega arith,
  omega arith,
  (
    (omega arith, omega arith),
    ((omega arith, omega arith), ((omega arith, omega arith), ((omega arith, omega arith), tt))),
  ),
)

-- 63C2: two attempts are left.
abbrev wrong : Response
wrong = record { data_field = []; status = record { value = 0x63C2 } }

wrong-IsFinal : IsFinal wrong
unfolding more_data_available correct_le
wrong-IsFinal = record { word = omega arith; no_more = refl; no_retry = refl }

wrong-refused : is_success wrong.status ≡ false
unfolding is_success
wrong-refused = refl

change_pin-refused_example :
    change_pin 1 secret_pin
      (record { bytes = b'9' ∷ [] })
      (scripted ((0x90 ∷ 0x00 ∷ []) ∷ (0x63 ∷ 0xC2 ∷ []) ∷ []) [])
    ≡ (
      err (from_status wrong.status),
      scripted [] (encoding select_pin ∷ (0x00 ∷ 0x20 ∷ 0x00 ∷ 0x80 ∷ 0x04 ∷ secret) ∷ []),
    )
change_pin-refused_example =
    change_pin-refused 0 secret secret_pin (record { bytes = b'9' ∷ [] }) wrong [] []
      secret-accepted wrong-IsFinal wrong-refused

abbrev secret_part : Bytes
secret_part = 1 ∷ 2 ∷ 3 ∷ 4 ∷ 5 ∷ 6 ∷ 7 ∷ 8 ∷ []

-- A digest of 32 bytes.
abbrev digest : Bytes
digest = secret_part ++ (secret_part ++ (secret_part ++ secret_part))

sign-checked_example :
    (IsAllowed pre_hashed_digest_info 32
      → sign 1 0x0002 pre_hashed_digest_info digest (scripted ((0x63 ∷ 0xC2 ∷ []) ∷ []) []) ≡ (
        outcome wrong,
        scripted [] (encoding (with_data_le 0x80 0x2A 0x02 0x82 digest 256) ∷ []),
      ))
    × (¬ IsAllowed pre_hashed_digest_info 32
        → sign 1 0x0002 pre_hashed_digest_info digest (scripted ((0x63 ∷ 0xC2 ∷ []) ∷ []) []) ≡ (
          err (bad_signing_input pre_hashed_digest_info 32),
          scripted ((0x63 ∷ 0xC2 ∷ []) ∷ []) [],
        ))
sign-checked_example =
    sign-checked 0 0x0002 0x02 pre_hashed_digest_info digest wrong [] [] (omega arith) (omega arith)
      wrong-IsFinal refl
