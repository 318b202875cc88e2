-- ===== src/Card/Keys/Answers.antt =====
-- What the methods for PINs, challenges and data objects send, and what they make of the answer.
use myna_card.Prelude.{
  ℕ, suc, ◌/◌, ◌%◌, ◌^◌, ◌≤◌, ◌<◌, ◌≡◌, refl, ap, ◌∙◌, ◌⊎◌, inl, inr, true, false, Bool-cases, List,
  [], ◌∷◌, ◌++◌, length, append_assoc, Bytes, arith, ◌==◌, ◌||◌, ltb, if◌then◌else◌,
}
use myna_card.Error.{Result, ok, err, from_status, expected_length_out_of_range, malformed}
use myna_card.Transport.Mock.{mock_link}
use myna_card.Apdu.Status.{is_success, success, correct_le, more_data_available}
use myna_card.Apdu.Command.{Command, user, case1, with_le, with_data}
use myna_card.Apdu.Command.Checks.{IsSendable, encoding, encoding-case1, encoding-with_data}
use myna_card.Apdu.Response.{Response, into_data}
use myna_card.Apdu.Response.Splitting.{raw_of}
use myna_card.Pin
use myna_card.Pin.{Pin}
use myna_card.Pin.Accepted.{pin_new_iff}
use myna_card.Card.Exchange.{call, call_ok}
use myna_card.Card.Exchange.Chain.{scripted, IsFinal, transmit_once-scripted, call-once}
use myna_card.Card.Keys.{
  ins_verify, ins_get_challenge, ins_get_data, interpret_retries, get_data, get_challenge, verify,
  pin_retries,
}

-- One exchange that the status word ends.
call-final :
    (fuel : ℕ) (c : Command) (r : Response) (rs sent : List Bytes)
    → IsSendable c
    → IsFinal r
    → call (suc fuel) c (scripted (raw_of r ∷ rs) sent)
      ≡ (ok r, scripted rs (sent ++ (encoding c ∷ [])))
call-final fuel c r rs sent h f =
    call-once fuel c r _ _ f (transmit_once-scripted c r rs sent h f.word)

-- What `call_ok` makes of a final response.
abbrev pub outcome : Response → Result Bytes
outcome r = if is_success r.status then ok r.data_field else err (from_status r.status)

pub call_ok-final :
    (fuel : ℕ) (c : Command) (r : Response) (rs sent : List Bytes)
    → IsSendable c
    → IsFinal r
    → call_ok (suc fuel) c (scripted (raw_of r ∷ rs) sent)
      ≡ (outcome r, scripted rs (sent ++ (encoding c ∷ [])))
unfolding call_ok into_data
call_ok-final fuel c r rs sent h f = rw (call-final fuel c r rs sent h f)

abbrev pub successful : Bytes → Response
successful d = record { data_field = d; status = success }

pub call_ok-successful :
    (fuel : ℕ) (c : Command) (d : Bytes) (rs sent : List Bytes)
    → IsSendable c
    → call_ok (suc fuel) c (scripted (raw_of (successful d) ∷ rs) sent)
      ≡ (ok d, scripted rs (sent ++ (encoding c ∷ [])))
unfolding is_success more_data_available correct_le
call_ok-successful fuel c d rs sent h =
    call_ok-final fuel c (successful d) rs sent h
      (record { word = omega arith; no_more = refl; no_retry = refl })

-- `pin_retries` sends VERIFY without a data field and nothing else; its answer, where it asks for nothing more, is read by `interpret_retries`.
pin_retries-final :
    (fuel : ℕ) (r : Response) (rs sent : List Bytes)
    → IsFinal r
    → pin_retries (suc fuel) (scripted (raw_of r ∷ rs) sent)
      ≡ (interpret_retries r.status, scripted rs (sent ++ ((0x00 ∷ 0x20 ∷ 0x00 ∷ 0x80 ∷ []) ∷ [])))
unfolding pin_retries
pin_retries-final fuel r rs sent f =
    let query : Command = case1 user ins_verify 0x00 0x80 in
    rw (call-final fuel query r rs sent (record { data_field = omega arith; le = tt }) f) (
      ap (λ b. (interpret_retries r.status, scripted rs (sent ++ (b ∷ []))))
        (encoding-case1 user ins_verify 0x00 0x80))

-- The length of a challenge is checked on both sides: a size of zero or above 256 is refused before
-- anything is sent; else GET CHALLENGE asks for that size, and a successful answer of another
-- length is malformed.
get_challenge-answered :
    (fuel size : ℕ) (d : Bytes) (rs sent : List Bytes)
    → ((size ≡ 0) ⊎ (256 < size)
        → get_challenge (suc fuel) size (scripted rs sent)
          ≡ (err (expected_length_out_of_range size), scripted rs sent))
      × (0 < size
          → size ≤ 256
          → get_challenge (suc fuel) size (scripted (raw_of (successful d) ∷ rs) sent) ≡ (
            if length d == size
                then ok d
                else err (
                    malformed "asked for a {len} byte challenge and got {}" (size ∷ length d ∷ [])),
            scripted rs (sent ++ (encoding (with_le user ins_get_challenge 0x00 0x00 size) ∷ [])),
          ))
unfolding get_challenge
get_challenge-answered fuel size d rs sent = (refused, answered)
  where
    refused :
        (size ≡ 0) ⊎ (256 < size)
        → get_challenge (suc fuel) size (scripted rs sent)
          ≡ (err (expected_length_out_of_range size), scripted rs sent)
    refused h = let out : (size == 0 || ltb 256 size) ≡ true = ground arith in rw out

    answered :
        0 < size
        → size ≤ 256
        → get_challenge (suc fuel) size (scripted (raw_of (successful d) ∷ rs) sent) ≡ (
          if length d == size
              then ok d
              else err
                  (malformed "asked for a {len} byte challenge and got {}" (size ∷ length d ∷ [])),
          scripted rs (sent ++ (encoding (with_le user ins_get_challenge 0x00 0x00 size) ∷ [])),
        )
    answered h k =
        let inside : (size == 0 || ltb 256 size) ≡ false = ground arith in
        let c : Command = with_le user ins_get_challenge 0x00 0x00 size in
        let once : call_ok (suc fuel) c (scripted (raw_of (successful d) ∷ rs) sent)
            ≡ (ok d, scripted rs (sent ++ (encoding c ∷ []))) =
          call_ok-successful fuel c d rs sent
            (record { data_field = omega arith; le = (h, omega arith) }) in
        elim (Bool-cases (length d == size)) [
          | inl same ↦ rw (inside, once, same)
          | inr other ↦ rw (inside, once, other)
        ]

-- Where the card answers 6700 to GET DATA with a short Le, the command is sent once more with the
-- greatest extended Le, and the answer to that, where it asks for nothing more, decides.
get_data-wide :
    (fuel tag : ℕ) (d : Bytes) (r : Response) (rs sent : List Bytes)
    → IsFinal r
    → get_data (suc fuel) tag (
        scripted
          (raw_of (record { data_field = d; status = record { value = 0x6700 } }) ∷ raw_of r ∷ rs)
          sent)
      ≡ (
        outcome r,
        scripted rs (
            sent
            ++ (encoding (with_le user ins_get_data (tag / 2 ^ 8 % 2 ^ 8) (tag % 2 ^ 8) 256)
                ∷ encoding (with_le user ins_get_data (tag / 2 ^ 8 % 2 ^ 8) (tag % 2 ^ 8) 65536)
                ∷ [])),
      )
unfolding get_data is_success more_data_available correct_le
get_data-wide fuel tag d r rs sent f =
    let short : Command = with_le user ins_get_data (tag / 2 ^ 8 % 2 ^ 8) (tag % 2 ^ 8) 256 in
    let wide : Command = with_le user ins_get_data (tag / 2 ^ 8 % 2 ^ 8) (tag % 2 ^ 8) 65536 in
    let first : Response = record { data_field = d; status = record { value = 0x6700 } } in
    rw
      (
        call-final fuel short first (raw_of r ∷ rs) sent
            (record { data_field = omega arith; le = (omega arith, omega arith) })
            (record { word = omega arith; no_more = refl; no_retry = refl }),
        call_ok-final fuel wide r rs (sent ++ (encoding short ∷ []))
            (record { data_field = omega arith; le = (omega arith, omega arith) }) f,
      )
      (ap (λ b. (outcome r, scripted rs b))
        (append_assoc sent (encoding short ∷ []) (encoding wide ∷ [])))

-- `verify` sends VERIFY for the current key with the very bytes that `Pin::new` accepted, and
-- succeeds, where the card's answer asks for nothing more, exactly if its status is 9000; any other
-- status becomes the error of `from_status`.
pub verify-final :
    (fuel : ℕ) (value : Bytes) (pin : Pin) (r : Response) (rs sent : List Bytes)
    → Pin.new value ≡ ok pin
    → IsFinal r
    → verify (suc fuel) pin (scripted (raw_of r ∷ rs) sent) ≡ (
      if is_success r.status then ok tt else err (from_status r.status),
      scripted rs (sent ++ ((0x00 ∷ 0x20 ∷ 0x00 ∷ 0x80 ∷ length value ∷ value) ∷ [])),
    )
unfolding verify
verify-final fuel value pin r rs sent new f =
    let (same, filled, short, _) = (pin_new_iff value pin).0 new in
    let c : Command = with_data user ins_verify 0x00 0x80 pin.bytes in
    let sends : encoding c ≡ 0x00 ∷ 0x20 ∷ 0x00 ∷ 0x80 ∷ length value ∷ value =
      encoding-with_data user ins_verify 0x00 0x80 pin.bytes (rw same filled)
        (rw same (omega arith))
      ∙ ap (λ (b : Bytes). 0x00 ∷ 0x20 ∷ 0x00 ∷ 0x80 ∷ length b ∷ b) same in
    let once : call_ok (suc fuel) c (scripted (raw_of r ∷ rs) sent)
        ≡ (outcome r, scripted rs (sent ++ (encoding c ∷ []))) =
      call_ok-final fuel c r rs sent (record { data_field = rw same (omega arith); le = tt }) f in
    elim (Bool-cases (is_success r.status)) [
      | inl good ↦ rw (once, good, sends)
      | inr bad ↦ rw (once, bad, sends)
    ]
