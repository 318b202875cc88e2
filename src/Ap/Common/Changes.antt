-- ===== src/Ap/Common/Changes.antt =====
-- `change_pin` when the card refuses the current PIN.
use myna_card.Prelude.{
  ℕ, suc, ◌≡◌, ap, ◌∙◌, false, List, [], ◌∷◌, ◌++◌, length, append_assoc, Bytes, arith,
}
use myna_card.Error.{ok, err, from_status}
use myna_card.Transport.Mock.{mock_link}
use myna_card.Apdu.Status.{is_success}
use myna_card.Apdu.Command.{Command, user, with_data}
use myna_card.Apdu.Command.Checks.{encoding}
use myna_card.Apdu.Response.{Response}
use myna_card.Apdu.Response.Splitting.{raw_of}
use myna_card.Pin
use myna_card.Pin.{Pin}
use myna_card.Card.Exchange.Chain.{scripted, IsFinal}
use myna_card.Card.Files.{ins_select_file, select_ef}
use myna_card.Card.Keys.{verify}
use myna_card.Card.Keys.Answers.{successful, call_ok-successful, verify-final}
use myna_card.Ap.Common.{ef_pin, change_pin}

-- SELECT FILE for the PIN's file.
abbrev pub select_pin : Command
select_pin = with_data user ins_select_file 0x02 0x0C (0x00 ∷ 0x1C ∷ [])

select_pin-sent :
    (fuel : ℕ) (rs sent : List Bytes)
    → select_ef (suc fuel) ef_pin (scripted (raw_of (successful []) ∷ rs) sent)
      ≡ (ok tt, scripted rs (sent ++ (encoding select_pin ∷ [])))
unfolding select_ef
select_pin-sent fuel rs sent =
    rw
      (call_ok-successful fuel select_pin [] rs sent (record { data_field = omega arith; le = tt }))

-- Where the card selects the PIN's file and refuses the current PIN, `change_pin` fails with the
-- error of that status, and the new PIN is never sent: the commands sent are SELECT FILE and VERIFY.
pub change_pin-refused :
    (fuel : ℕ) (value : Bytes) (current_pin new_pin : Pin) (r : Response) (rs sent : List Bytes)
    → Pin.new value ≡ ok current_pin
    → IsFinal r
    → is_success r.status ≡ false
    → change_pin
        (suc fuel)
        current_pin
        new_pin
        (scripted (raw_of (successful []) ∷ raw_of r ∷ rs) sent)
      ≡ (
        err (from_status r.status),
        scripted rs (
            sent
            ++ (encoding select_pin ∷ (0x00 ∷ 0x20 ∷ 0x00 ∷ 0x80 ∷ length value ∷ value) ∷ [])),
      )
unfolding change_pin
change_pin-refused fuel value current_pin new_pin r rs sent new f bad =
    let verified : verify (suc fuel) current_pin
          (scripted (raw_of r ∷ rs) (sent ++ (encoding select_pin ∷ [])))
        ≡ (
          err (from_status r.status),
          scripted rs (
              (sent ++ (encoding select_pin ∷ []))
              ++ ((0x00 ∷ 0x20 ∷ 0x00 ∷ 0x80 ∷ length value ∷ value) ∷ [])),
        ) =
      verify-final fuel value current_pin r rs (sent ++ (encoding select_pin ∷ [])) new f
      ∙ rw bad in
    rw (select_pin-sent fuel (raw_of r ∷ rs) sent, verified)
      (ap (λ b. (err (from_status r.status), scripted rs b)) (append_assoc sent _ _))
