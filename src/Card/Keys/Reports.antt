-- ===== src/Card/Keys/Reports.antt =====
-- What `interpret_retries` and `contact_atr` make of the card's answers.
use myna_card.Prelude.{
  ◌∙◌, ℕ, ◌+◌, ◌-◌, ◌/◌, ◌%◌, ◌<◌, ◌≡◌, ◌≢◌, refl, ap, ◌↔◌, ◌⊎◌, [], ◌∷◌, ◌++◌, length, take, drop,
  foldl, bit_xor, Bytes, arith, ◌==◌, if◌then◌else◌, take-append, drop-append, length-append,
}
use myna_card.Prelude.Bits.{bit_and_0xfff0, bit_and_0x0f}
use myna_card.Error.{Result, ok, err, stuck, from_status, malformed}
use myna_card.Apdu.Status.{StatusWord, sw2, retries_remaining}
use myna_card.Card.Keys.{
  Retries, remaining, blocked, unlimited, not_reported, interpret_retries, check_tck, checked_atr,
}

-- The status words behind each report on the counter.
abbrev pub ReportsCounter : StatusWord → Result Retries → Type 0
ReportsCounter sw (ok unlimited) = sw.value ≡ 0x6300
ReportsCounter sw (ok blocked) = (sw.value ≡ 0x63C0) ⊎ (sw.value ≡ 0x6984)
ReportsCounter sw (ok not_reported) = sw.value ≡ 0x9000
ReportsCounter sw (ok (remaining n)) = (sw.value ≡ 0x63C0 + n) × (0 < n) × (n < 16)
ReportsCounter sw (err e) =
    (e ≡ from_status sw)
    × (sw.value ≢ 0x6300)
    × (sw.value ≢ 0x6984)
    × (sw.value ≢ 0x9000)
    × ((sw.value < 0x63C0) ⊎ (0x63CF < sw.value))
ReportsCounter sw stuck = ⊥

interpret_retries-plain :
    (sw : StatusWord)
    → sw.value < 65536
    → interpret_retries sw ≡ (
        if sw.value == 0x6300
        then ok unlimited
        else if sw.value == 0x63C0
        then ok blocked
        else if sw.value == 0x6984
        then ok blocked
        else if sw.value == 0x9000
        then ok not_reported
        else if sw.value / 16 == 0x63C
        then ok (remaining (sw.value % 16))
        else err (from_status sw))
unfolding interpret_retries retries_remaining
interpret_retries-plain sw h = ground (arith, bit_and_0xfff0 sw.value, bit_and_0x0f (sw2 sw))

reports :
    (sw : StatusWord) (r : Result Retries)
    → sw.value < 65536
    → interpret_retries sw ≡ r
    → ReportsCounter sw r
reports sw (ok unlimited) h e = ground (arith, interpret_retries-plain sw h)
reports sw (ok blocked) h e = ground (arith, interpret_retries-plain sw h)
reports sw (ok not_reported) h e = ground (arith, interpret_retries-plain sw h)
reports sw (ok (remaining n)) h e = ground (arith, interpret_retries-plain sw h)
reports sw (err x) h e = ground (arith, interpret_retries-plain sw h)
reports sw stuck h e = ground (arith, interpret_retries-plain sw h)

reported :
    (sw : StatusWord) (r : Result Retries)
    → sw.value < 65536
    → ReportsCounter sw r
    → interpret_retries sw ≡ r
reported sw (ok unlimited) h e = ground (arith, interpret_retries-plain sw h)
reported sw (ok blocked) h e = ground (arith, interpret_retries-plain sw h)
reported sw (ok not_reported) h e = ground (arith, interpret_retries-plain sw h)
reported sw (ok (remaining n)) h e = ground (arith, interpret_retries-plain sw h)
reported sw (err x) h e = ground (arith, interpret_retries-plain sw h)
reported sw stuck h e = absurd e

-- `interpret_retries` sorts every answer to an empty VERIFY: 6300 is a counter without a limit, 63C0
-- and 6984 a blocked PIN, 9000 a counter that is not reported, 63C1 to 63CF that many attempts, and
-- each other word the error of `from_status`.
interpret_retries_iff :
    (sw : StatusWord) (r : Result Retries)
    → sw.value < 65536
    → (interpret_retries sw ≡ r) ↔ ReportsCounter sw r
interpret_retries_iff sw r h = (reports sw r h, reported sw r h)

-- A stored ATR of at least one byte passes exactly if its last byte is the exclusive-or of those
-- before it, and then the initial byte 3B is put before all of it; an empty one is refused.
checked_atr_iff :
    (body : Bytes) (tck : ℕ) (atr : Bytes)
    → (checked_atr [] ≡ err (malformed "contact ATR is empty" []))
      × ((checked_atr (body ++ (tck ∷ [])) ≡ ok atr)
          ↔ (foldl bit_xor 0 body ≡ tck) × (atr ≡ 0x3B ∷ (body ++ (tck ∷ []))))
unfolding checked_atr
checked_atr_iff body tck atr =
    let stored : Bytes = body ++ (tck ∷ []) in
    let last : length stored - 1 ≡ length body = omega (arith, length-append body (tck ∷ [])) in
    let front : take (length stored - 1) stored ≡ body = take-append body (tck ∷ []) _ last in
    let back : drop (length stored - 1) stored ≡ tck ∷ [] = drop-append body (tck ∷ []) _ last in
    let checked : checked_atr stored ≡ check_tck stored body (tck ∷ []) =
      ap (λ x. check_tck stored x (drop (length stored - 1) stored)) front
      ∙ ap (check_tck stored body) back in
    (refl, ground (arith, checked))
