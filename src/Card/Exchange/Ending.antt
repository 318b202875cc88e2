-- ===== src/Card/Exchange/Ending.antt =====
-- `call` over the scripted transport comes to an end.
use myna_card.Prelude.{
  ℕ, subst, Option-cases, zero, suc, ◌+◌, ◌≤◌, ◌<◌, ◌≡◌, ◌≢◌, none, List, [], ◌∷◌, length, Bytes,
  ◌⊎◌, inl, inr, arith,
}
use myna_card.Error.{Result, ok, err, stuck, Result-cases}
use myna_card.Action.{Action, continue, ◌>>=◌, run_cases}
use myna_card.Transport.Mock.{MockTransport, mock_link}
use myna_card.Apdu.Status.{StatusWord, correct_le, more_data_available}
use myna_card.Apdu.Command.{Command, to_bytes}
use myna_card.Apdu.Command.Checks.{to_bytes-ne-stuck}
use myna_card.Apdu.Response.{Response, parse}
use myna_card.Card.{Card}
use myna_card.Card.Exchange.Steps.{
  get_response, extend, collect-done, collect-more, collect-fails, correct-none, correct-some,
}
use myna_card.Card.Exchange.{transmit_once, correct, collect, call}

-- The responses still in the script.
abbrev pub waiting : Card MockTransport → ℕ
waiting card = length card.transport.responses

-- What one exchange leaves: it is answered or refused, and takes a response from the script, if
-- there is one; an empty script answers 6F00.
abbrev Exchanged : ℕ → Result Response × Card MockTransport → Type 0
Exchanged n (ok r, card) = (waiting card < n) ⊎ ((waiting card ≤ n) × (r.status.value ≡ 0x6F00))
Exchanged n (err e, card) = waiting card ≤ n
Exchanged n (stuck, card) = ⊥

parse-ne-stuck : (raw : Bytes) → parse raw ≢ stuck
unfolding parse
parse-ne-stuck raw e = ground arith

script : List Bytes → List Bytes → Card MockTransport
script rs sent = record { transport = record { responses = rs; sent = sent } }

transmit_once-script :
    (c : Command) (rs sent : List Bytes) → Exchanged (length rs) (transmit_once c (script rs sent))
unfolding transmit_once script
transmit_once-script c rs sent = elim (Result-cases (to_bytes c)) [
  | inl (bytes, e) ↦ answered c bytes rs sent e
  | inr (inl (x, e)) ↦ rw e (omega arith)
  | inr (inr e) ↦ absurd (to_bytes-ne-stuck c e)
]
  where
    answered :
        (c : Command) (bytes : Bytes) (rs sent : List Bytes)
        → to_bytes c ≡ ok bytes
        → Exchanged (length rs) (transmit_once c (script rs sent))
    answered c bytes [] sent e = rw e (unfold parse in inr (omega arith))
    answered c bytes (raw ∷ rs) sent e = elim (Result-cases (parse raw)) [
      | inl (r, p) ↦ rw (e, p) (inl (omega arith))
      | inr (inl (x, p)) ↦ rw (e, p) (omega arith)
      | inr (inr p) ↦ absurd (parse-ne-stuck raw p)
    ]

transmit_once-Exchanged :
    (c : Command) (card : Card MockTransport) → Exchanged (waiting card) (transmit_once c card)
transmit_once-Exchanged c card =
    unfold script in transmit_once-script c card.transport.responses card.transport.sent

-- What is left to prove of a state: it is not stuck, and no response was added.
abbrev pub Settled {ℓ} : {A : Type ℓ} → ℕ → Result A × Card MockTransport → Type 0
Settled n (ok a, card) = waiting card ≤ n
Settled n (err e, card) = waiting card ≤ n
Settled n (stuck, card) = ⊥

-- The fuel covers the responses in the script, and the 6F00 behind them.
abbrev Covers : ℕ → Response → Card MockTransport → Type 0
Covers fuel r card = (waiting card + 1 < fuel) ⊎ ((r.status.value ≡ 0x6F00) × (0 < fuel))

no_more : (sw : StatusWord) → sw.value ≡ 0x6F00 → more_data_available sw ≡ none
unfolding more_data_available
no_more sw h = ground arith

pub Settled-le :
    {A : Type 0} (n m : ℕ) (p : Result A × Card MockTransport) → n ≤ m → Settled n p → Settled m p
Settled-le n m (ok a, card) le h = omega arith
Settled-le n m (err e, card) le h = omega arith
Settled-le n m (stuck, card) le h = h

collect-Settled :
    (fuel : ℕ) (r : Response) (card : Card MockTransport)
    → Covers fuel r card
    → Settled (waiting card) (collect fuel r card)
collect-Settled zero r card h = absurd (omega arith)
collect-Settled (suc fuel) r card h = elim (Option-cases (more_data_available r.status)) [
  | inl e ↦ rw (collect-done fuel r card e) (omega arith)
  | inr (n, e) ↦
      let x : Exchanged (waiting card) (transmit_once (get_response n) card) =
        transmit_once-Exchanged (get_response n) card in
      let fits : waiting card + 1 < suc fuel = elim h [
        | inl l ↦ l
        | inr (z, _) ↦ absurd (cc (e, no_more r.status z))
      ] in
      elim (run_cases (transmit_once (get_response n) card)) [
        | inl (more, card', t) ↦
            let left : Exchanged (waiting card) (ok more, card') =
              subst (Exchanged (waiting card)) t x in
            rw (collect-more fuel r more card card' n e t) (
              Settled-le (waiting card') (waiting card) _ (omega arith)
                (collect-Settled fuel (extend r more) card' (covered more card' left fits)))
        | inr (inl (y, card', t)) ↦
            let left : Exchanged (waiting card) (err y, card') =
              subst (Exchanged (waiting card)) t x in
            rw (collect-fails fuel r card card' n y e t) left
        | inr (inr (card', t)) ↦ absurd (subst (Exchanged (waiting card)) t x)
      ]
]
  where
    covered :
        (more : Response) (card' : Card MockTransport)
        → Exchanged (waiting card) (ok more, card')
        → waiting card + 1 < suc fuel
        → Covers fuel (extend r more) card'
    covered more card' (inl l) h = inl (omega arith)
    covered more card' (inr (l, z)) h = inr (z, omega arith)

module _ {A B : Type 0} where
  -- A later step starts from what the earlier one left.
  pub Settled-bind :
      (n : ℕ) (m : Action (Card MockTransport) A) (f : A → Action (Card MockTransport) B)
      (card : Card MockTransport)
      → Settled n (m card)
      → ((a : A) (card' : Card MockTransport) → waiting card' ≤ n → Settled n (f a card'))
      → Settled n ((m >>= f) card)
  Settled-bind n m f card h k = go (m card) h
    where
      go : (p : Result A × Card MockTransport) → Settled n p → Settled n (continue f p.0 p.1)
      go (ok a, card') h = k a card' h
      go (err e, card') h = h
      go (stuck, card') h = h

Settled-of_Exchanged :
    (n : ℕ) (p : Result Response × Card MockTransport) → Exchanged n p → Settled n p
Settled-of_Exchanged n (ok r, card) h = omega arith
Settled-of_Exchanged n (err e, card) h = h
Settled-of_Exchanged n (stuck, card) h = h

transmit_once-Settled :
    (n : ℕ) (c : Command) (card : Card MockTransport)
    → waiting card ≤ n
    → Settled n (transmit_once c card)
transmit_once-Settled n c card h =
    Settled-le (waiting card) n _ h
      (Settled-of_Exchanged _ (transmit_once c card) (transmit_once-Exchanged c card))

correct-Settled :
    (n : ℕ) (c : Command) (r : Response) (card : Card MockTransport)
    → waiting card ≤ n
    → Settled n (correct c r card)
correct-Settled n c r card h = elim (Option-cases (correct_le r.status)) [
  | inl e ↦ rw (correct-none c r card e) h
  | inr (le, e) ↦ rw (correct-some c r card le e) (transmit_once-Settled n _ card h)
]

-- Over the scripted transport a call always returns, with a response or an error, once its fuel
-- exceeds the number of scripted responses by two; it adds no response to the script.
pub call-Settled :
    (fuel : ℕ) (c : Command) (card : Card MockTransport)
    → waiting card + 1 < fuel
    → Settled (waiting card) (call fuel c card)
unfolding call
call-Settled fuel c card h =
    Settled-bind (waiting card) (transmit_once c) _ card
      (transmit_once-Settled _ c card (omega arith))
      (λ first card1 h1.
        Settled-bind (waiting card) (correct c first) (collect fuel) card1
          (correct-Settled _ c first card1 h1)
          (λ r card2 h2.
            Settled-le (waiting card2) (waiting card) _ h2
              (collect-Settled fuel r card2 (inl (omega arith)))))
