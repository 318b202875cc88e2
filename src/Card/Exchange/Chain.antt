-- ===== src/Card/Exchange/Chain.antt =====
-- What `call` sends and returns over the scripted transport.
use myna_card.Prelude.{
  ℕ, zero, suc, ◌+◌, ◌<◌, ◌≡◌, refl, ◌∙◌, none, some, List, [], ◌∷◌, ◌++◌, length, append_assoc,
  Bytes, inl, arith,
}
use myna_card.Error.{ok, err, expected_length_out_of_range}
use myna_card.Transport.{Transmit}
use myna_card.Transport.Mock.{MockTransport, mock_link}
use myna_card.Apdu.Status.{correct_le, more_data_available}
use myna_card.Apdu.Command.{Command, to_bytes}
use myna_card.Apdu.Command.Checks.{encoding, IsSendable, to_bytes-eq-ok, to_bytes-Refused}
use myna_card.Apdu.Response.{Response}
use myna_card.Apdu.Response.Splitting.{raw_of, parse-raw_of}
use myna_card.Card.{Card}
use myna_card.Card.Exchange.{transmit_once, correct, collect, call}
use myna_card.Card.Exchange.Steps.{
  get_response, with_correct_le, collect-done, collect-more, collect-fails, correct-none,
  correct-some,
}

-- A card over a script, and what it has been sent.
abbrev pub scripted : List Bytes → List Bytes → Card MockTransport
scripted rs sent = record { transport = record { responses = rs; sent = sent } }

-- One exchange: the encoding is sent, and the first response of the script is the answer.
pub transmit_once-scripted :
    (c : Command) (r : Response) (rs sent : List Bytes)
    → IsSendable c
    → r.status.value < 65536
    → transmit_once c (scripted (raw_of r ∷ rs) sent)
      ≡ (ok r, scripted rs (sent ++ (encoding c ∷ [])))
unfolding transmit_once
transmit_once-scripted c r rs sent h w = rw (to_bytes-eq-ok c h, parse-raw_of r w)

-- A part of a response: its bytes, and how many the card says are left.
abbrev Part : Type 0
Part = Bytes × ℕ

-- The response that hands over a part: 61xx.
abbrev pub partial : Part → Response
partial (d, n) = record { data_field = d; status = record { value = 0x6100 + n } }

abbrev pub AllPending : List Part → Type 0
AllPending [] = Unit
AllPending ((d, n) ∷ ps) = ((0 < n) × (n < 256)) × AllPending ps

-- The script that hands over the parts, one for each GET RESPONSE, and then the last response.
abbrev pub handing_over : List Part → Response → List Bytes
handing_over [] last = raw_of last ∷ []
handing_over (p ∷ ps) last = raw_of (partial p) ∷ handing_over ps last

-- The data of the parts and of the last response, in order.
abbrev pub joined : List Part → Response → Bytes
joined [] last = last.data_field
joined ((d, n) ∷ ps) last = d ++ joined ps last

-- A GET RESPONSE for each part, for as many bytes as the part before it announces.
abbrev pub requests : List Part → List Bytes
requests [] = []
requests ((d, n) ∷ ps) = encoding (get_response n) ∷ requests ps

-- The last response asks for nothing more.
pub record IsFinal (r : Response) : Type 0 where
  pub word : r.status.value < 65536
  pub no_more : more_data_available r.status ≡ none
  pub no_retry : correct_le r.status ≡ none

pending : (d : Bytes) (n : ℕ) → n < 256 → more_data_available (partial (d, n)).status ≡ some n
unfolding more_data_available
pending d n h = ground arith

sendable : (n : ℕ) → 0 < n → n < 256 → IsSendable (get_response n)
sendable n h k = record { data_field = omega arith; le = (h, omega arith) }

collect-handing_over :
    (ps : List Part) (d : Bytes) (n : ℕ) (last : Response) (sent : List Bytes) (fuel : ℕ)
    → AllPending ((d, n) ∷ ps)
    → IsFinal last
    → length ps + 1 < fuel
    → collect fuel (partial (d, n)) (scripted (handing_over ps last) sent) ≡ (
      ok (record { data_field = d ++ joined ps last; status = last.status }),
      scripted [] (sent ++ requests ((d, n) ∷ ps)),
    )
collect-handing_over ps d n last sent zero a f h = absurd (omega arith)
collect-handing_over ps d n last sent (suc zero) a f h = absurd (omega arith)
collect-handing_over [] d n last sent (suc (suc fuel)) (a, later) f h =
    collect-more (suc fuel) (partial (d, n)) last _ _ n (pending d n a.1)
      (transmit_once-scripted (get_response n) last [] sent (sendable n a.0 a.1) f.word)
    ∙ collect-done fuel _ _ f.no_more
collect-handing_over ((d', n') ∷ ps) d n last sent (suc (suc fuel)) (a, later) f h =
    let rest : List Bytes = handing_over ps last in
    let sent' : List Bytes = sent ++ (encoding (get_response n) ∷ []) in
    collect-more (suc fuel) (partial (d, n)) (partial (d', n')) _ _ n (pending d n a.1) (
      transmit_once-scripted (get_response n) (partial (d', n')) rest sent (sendable n a.0 a.1)
        (omega (arith, later.0.1)))
    ∙ collect-handing_over ps (d ++ d') n' last sent' (suc fuel) later f (omega arith)
    ∙ simp append_assoc

pub call-steps :
    {T : Type 0} ⦃link : Transmit T⦄ (fuel : ℕ) (c : Command) (r r' : Response)
    (card card' card'' : Card T)
    → transmit_once c card ≡ (ok r, card')
    → correct c r card' ≡ (ok r', card'')
    → call fuel c card ≡ collect fuel r' card''
unfolding call
call-steps fuel c r r' card card' card'' t k = rw (t, k)

-- One exchange whose response asks for nothing more.
pub call-once :
    {T : Type 0} ⦃link : Transmit T⦄ (fuel : ℕ) (c : Command) (r : Response) (card card' : Card T)
    → IsFinal r
    → transmit_once c card ≡ (ok r, card')
    → call (suc fuel) c card ≡ (ok r, card')
call-once fuel c r card card' f t =
    call-steps (suc fuel) c r r card card' card' t (correct-none c r card' f.no_retry)
    ∙ collect-done fuel r card' f.no_more

-- Over the scripted transport, a response that the card hands over in parts, each but the last with
-- 61xx, xx from 1 to 255, and the last with a status that is neither 61xx nor 6Cxx, is put together by
-- `call`, of a command that can be encoded and with fuel for the parts: its data is that of all the parts in order, its status the last one, and what was sent is
-- the command and a GET RESPONSE for each part, asking for as many bytes as that part announced.
pub call-handing_over :
    (ps : List Part) (last : Response) (c : Command) (sent : List Bytes) (fuel : ℕ)
    → AllPending ps
    → IsFinal last
    → IsSendable c
    → length ps + 1 < fuel
    → call fuel c (scripted (handing_over ps last) sent) ≡ (
      ok (record { data_field = joined ps last; status = last.status }),
      scripted [] (sent ++ (encoding c ∷ requests ps)),
    )
call-handing_over ps last c sent zero a f h l = absurd (omega arith)
call-handing_over [] last c sent (suc fuel) a f h l =
    call-steps (suc fuel) c last last _ _ _ (transmit_once-scripted c last [] sent h f.word)
      (correct-none c last _ f.no_retry)
    ∙ collect-done fuel last _ f.no_more
call-handing_over ((d, n) ∷ ps) last c sent (suc fuel) (a, later) f h l =
    call-steps (suc fuel) c (partial (d, n)) (partial (d, n)) _ _ _
      (transmit_once-scripted c (partial (d, n)) (handing_over ps last) sent h (omega (arith, a.1)))
      (correct-none c (partial (d, n)) _ (not_6c d n a.1))
    ∙ collect-handing_over ps d n last (sent ++ (encoding c ∷ [])) (suc fuel) (a, later) f
        (omega arith)
    ∙ simp append_assoc
  where
    not_6c : (d : Bytes) (n : ℕ) → n < 256 → correct_le (partial (d, n)).status ≡ none
    not_6c d n h = unfold correct_le in ground arith

-- After a 6Cxx the command is sent once more, with xx for Le, or 256 where xx is zero, and the answer
-- to that is returned, even if it is a 6Cxx again.
pub call-corrected :
    (c : Command) (d : Bytes) (le : ℕ) (second : Response) (rs sent : List Bytes) (fuel : ℕ)
    → IsSendable c
    → le < 256
    → second.status.value < 65536
    → more_data_available second.status ≡ none
    → call (suc fuel) c (
        scripted
          (raw_of (record { data_field = d; status = record { value = 0x6C00 + le } })
            ∷ raw_of second
            ∷ rs)
          sent)
      ≡ (ok second, scripted rs (sent ++ (encoding c ∷ encoding (with_correct_le c le) ∷ [])))
call-corrected c d le second rs sent fuel h l w k =
    let first : Response = record { data_field = d; status = record { value = 0x6C00 + le } } in
    let asks : correct_le first.status ≡ some le = unfold correct_le in ground arith in
    call-steps (suc fuel) c first second _ _ _
      (transmit_once-scripted c first (raw_of second ∷ rs) sent h (omega arith))
      (correct-some c first _ le asks
        ∙ transmit_once-scripted (with_correct_le c le) second rs _
            (record { data_field = h.data_field; le = ground arith }) w)
    ∙ collect-done fuel second _ k
    ∙ simp append_assoc

-- No APDU can ask for zero bytes.
transmit_once-zero :
    {T : Type 0} ⦃link : Transmit T⦄ (card : Card T)
    → transmit_once (get_response 0) card ≡ (err (expected_length_out_of_range 0), card)
unfolding transmit_once
transmit_once-zero card =
    let refused : to_bytes (get_response 0) ≡ err (expected_length_out_of_range 0) =
      (to_bytes-Refused (get_response 0) (expected_length_out_of_range 0)).1
        (omega arith, refl, inl refl) in
    rw refused

-- Where the first answer is 6100, `call` fails with `ExpectedLengthOutOfRange(0)`, over any
-- transport: nothing more is sent, and the data that came with the 6100 is lost.
pub call-zero_available :
    {T : Type 0} ⦃link : Transmit T⦄ (c : Command) (r : Response) (card card' : Card T) (fuel : ℕ)
    → transmit_once c card ≡ (ok r, card')
    → r.status.value ≡ 0x6100
    → call (suc fuel) c card ≡ (err (expected_length_out_of_range 0), card')
call-zero_available c r card card' fuel t z =
    let asks : more_data_available r.status ≡ some 0 = unfold more_data_available in ground arith in
    let kept : correct_le r.status ≡ none = unfold correct_le in ground arith in
    call-steps (suc fuel) c r r card card' card' t (correct-none c r card' kept)
    ∙ collect-fails fuel r card' card' 0 (expected_length_out_of_range 0) asks
        (transmit_once-zero card')
