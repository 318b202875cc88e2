-- ===== src/Card/Files/Returning.antt =====
-- The reading loops over the scripted transport come to an end.
use myna_card.Prelude.{
  true, false, ◌≡◌, ap, subst, ◌^◌, ◌⊎◌, le→ltb_false, ltb_false→le, ℕ, zero, suc, ◌+◌, ◌-◌, min,
  ◌≤◌, ◌<◌, Bool-cases, [], ◌∷◌, ◌++◌, length, length-append, Bytes, arith, ltb, leb, ltb→lt,
  leb→le, if◌then◌else◌, inl, inr,
}
use myna_card.Error.{Error, Result, ok, err, stuck, status, Result-cases}
use myna_card.Action.{run_cases, Action, pure, attempt}
use myna_card.Transport.Mock.{MockTransport, mock_link}
use myna_card.Apdu.Status.{is_success}
use myna_card.Apdu.Command.{Command}
use myna_card.Apdu.Response.{Response, into_data}
use myna_card.Tlv.Ber.{Header, parse_header, total_len}
use myna_card.Tlv.Ber.Ending.{parse_header-ne-stuck}
use myna_card.Card.{Card}
use myna_card.Card.Exchange.{call, call_ok}
use myna_card.Card.Exchange.Ending.{waiting, Settled, Settled-le, Settled-bind, call-Settled}
use myna_card.Card.Files.{
  read_binary_chunk, on_chunk, read_loop, read_binary, physical_loop, read_rest, read_binary_all,
  is_end_of_file, max_chunk, max_offset, max_capacity,
}

module _ {A B : Type 0} where
  -- A handler starts from what the attempt left.
  Settled-attempt :
      (n : ℕ) (m : Action (Card MockTransport) A) (k : Result A → Action (Card MockTransport) B)
      (card : Card MockTransport)
      → Settled n (m card)
      → ((a : A) (card' : Card MockTransport) → waiting card' ≤ n → Settled n (k (ok a) card'))
      → ((e : Error) (card' : Card MockTransport) → waiting card' ≤ n → Settled n (k (err e) card'))
      → Settled n (attempt m k card)
  Settled-attempt n m k card h good bad = go (m card) h
    where
      go : (p : Result A × Card MockTransport) → Settled n p → Settled n (k p.0 p.1)
      go (ok a, card') h = good a card' h
      go (err e, card') h = bad e card' h
      go (stuck, card') h = absurd h

into_data-Settled :
    (n : ℕ) (r : Response) (card : Card MockTransport)
    → waiting card ≤ n
    → Settled n (into_data r, card)
unfolding into_data
into_data-Settled n r card h = elim (Bool-cases (is_success r.status)) [
  | inl y ↦ rw y h
  | inr y ↦ rw y h
]

module _ (fuel n : ℕ) (covers : n + 1 < fuel) where
  call_ok-Settled :
      (c : Command) (card : Card MockTransport) → waiting card ≤ n → Settled n (call_ok fuel c card)
  unfolding call_ok
  call_ok-Settled c card h =
      Settled-bind n (call fuel c) _ card
        (Settled-le (waiting card) n _ h (call-Settled fuel c card (omega arith)))
        (λ r card' h'. into_data-Settled n r card' h')

  read_binary_chunk-Settled :
      (offset le : ℕ) (card : Card MockTransport)
      → waiting card ≤ n
      → Settled n (read_binary_chunk fuel offset le card)
  unfolding read_binary_chunk
  read_binary_chunk-Settled offset le card h = elim (Bool-cases (ltb max_offset offset)) [
    | inl far ↦ rw far h
    | inr near ↦ rw near (call_ok-Settled _ card h)
  ]

  -- The end of the file ends a loop, and an error ends the method.
  on_chunk-failed :
      (out : Bytes) (go : Bytes → Action (Card MockTransport) Bytes) (e : Error)
      (card' : Card MockTransport)
      → waiting card' ≤ n
      → Settled n (on_chunk out go (err e) card')
  on_chunk-failed out go (status sw) card' h' = elim (Bool-cases (is_end_of_file sw)) [
    | inl y ↦ rw y h'
    | inr y ↦ rw y h'
  ]
  on_chunk-failed out go e card' h' = h'

  -- A chunk takes a loop on.
  chunk-Settled :
      (out : Bytes) (offset le : ℕ) (go : Bytes → Action (Card MockTransport) Bytes)
      (card : Card MockTransport)
      → waiting card ≤ n
      → ((chunk : Bytes) (card' : Card MockTransport)
          → 0 < length chunk
          → waiting card' ≤ n
          → Settled n (go chunk card'))
      → Settled n (attempt (read_binary_chunk fuel offset le) (on_chunk out go) card)
  chunk-Settled out offset le go card h more =
      Settled-attempt n (read_binary_chunk fuel offset le) (on_chunk out go) card
        (read_binary_chunk-Settled offset le card h) some_bytes (on_chunk-failed out go)
    where
      some_bytes :
          (bytes : Bytes) (card' : Card MockTransport)
          → waiting card' ≤ n
          → Settled n (on_chunk out go (ok bytes) card')
      some_bytes [] card' h' = h'
      some_bytes (b ∷ bs) card' h' = more (b ∷ bs) card' (omega arith) h'

  read_loop-Settled :
      (rounds offset size : ℕ) (out : Bytes) (card : Card MockTransport)
      → waiting card ≤ n
      → size < rounds + length out
      → 0 < rounds
      → Settled n (read_loop fuel rounds offset size out card)
  unfolding read_loop
  read_loop-Settled zero offset size out card h k l = absurd (omega arith)
  read_loop-Settled (suc rounds) offset size out card h k l =
      elim (Bool-cases (ltb (length out) size)) [
        | inl y ↦ rw y (
            chunk-Settled out (offset + length out) (min (size - length out) max_chunk)
              (λ chunk. read_loop fuel rounds offset size (out ++ chunk)) card h
              (λ chunk card' some h'.
                read_loop-Settled rounds offset size (out ++ chunk) card' h'
                  (omega (arith, length-append out chunk)) (omega (arith, ltb→lt _ _ y))))
        | inr y ↦ rw y h
      ]

  read_binary-Settled :
      (offset size : ℕ) (card : Card MockTransport)
      → size ≤ max_capacity
      → waiting card ≤ n
      → Settled n (read_binary fuel offset size card)
  unfolding read_binary
  read_binary-Settled offset size card fits h =
      let room : ltb max_capacity size ≡ false = le→ltb_false max_capacity size fits in
      rw room (read_loop-Settled (suc size) offset size [] card h (omega arith) (omega arith))

  physical_loop-Settled :
      (rounds : ℕ) (out : Bytes) (card : Card MockTransport)
      → waiting card ≤ n
      → max_offset + 1 < rounds + length out
      → 0 < rounds
      → Settled n (physical_loop fuel rounds out card)
  unfolding physical_loop
  physical_loop-Settled zero out card h k l = absurd (omega arith)
  physical_loop-Settled (suc rounds) out card h k l =
      elim (Bool-cases (leb (length out) max_offset)) [
        | inl y ↦ rw y (
            chunk-Settled out (length out) max_chunk
              (λ chunk.
                if ltb (length chunk) max_chunk
                then pure (out ++ chunk)
                else physical_loop fuel rounds (out ++ chunk))
              card h
              (λ chunk card' some h'. elim (Bool-cases (ltb (length chunk) max_chunk)) [
                | inl short ↦ rw short h'
                | inr full ↦ rw full (
                    physical_loop-Settled rounds (out ++ chunk) card' h'
                      (omega (arith, length-append out chunk)) (omega (arith, leb→le _ _ y)))
              ]))
        | inr y ↦ rw y h
      ]

  read_rest-Settled :
      (out : Bytes) (card : Card MockTransport)
      → ((head : Header) → parse_header out ≡ ok head → total_len head - length out ≤ max_capacity)
      → waiting card ≤ n
      → Settled n (read_rest fuel out card)
  unfolding read_rest
  read_rest-Settled out card fits h = elim (Result-cases (parse_header out)) [
    | inl (head, e) ↦ elim (Bool-cases (leb (total_len head) (length out))) [
      | inl y ↦ rw (e, y, read_rest) h
      | inr y ↦
          rw (e, y, read_rest)
            (Settled-bind n (read_binary fuel (length out) (total_len head - length out)) _ card
              (read_binary-Settled _ _ card (fits head e) h) (λ rest card' h'. h'))
    ]
    | inr (inl (x, e)) ↦
        rw (e, read_rest)
          (physical_loop-Settled (max_offset + 2) out card h (omega arith) (omega arith))
    | inr (inr e) ↦ absurd (parse_header-ne-stuck out e)
  ]

  -- A header that claims more than a vector can hold.
  read_rest-panics :
      (out : Bytes) (card : Card MockTransport) (head : Header)
      → parse_header out ≡ ok head
      → ltb max_capacity (total_len head - length out) ≡ true
      → read_rest fuel out card ≡ (stuck, card)
  unfolding read_rest read_binary
  read_rest-panics out card head e vast =
      let beyond : leb (total_len head) (length out) ≡ false =
        elim (Bool-cases (leb (total_len head) (length out))) [
          | inl y ↦ absurd (omega (arith, ltb→lt _ _ vast, leb→le _ _ y))
          | inr y ↦ y
        ] in
      rw (e, beyond, vast, read_rest)

  -- The first chunk has a header that claims 2^63 bytes or more behind the chunk, and the program
  -- panics on it.
  pub record Panics (card : Card MockTransport) : Type 0 where
    pub chunk : Bytes
    pub head : Header
    pub left : Card MockTransport
    pub sent : read_binary_chunk fuel 0 max_chunk card ≡ (ok chunk, left)
    pub parsed : parse_header chunk ≡ ok head
    pub vast : 2 ^ 63 ≤ total_len head - length chunk
    pub panics : read_binary_all fuel card ≡ (stuck, left)

  first_chunk :
      (chunk : Bytes) (card left : Card MockTransport)
      → read_binary_chunk fuel 0 max_chunk card ≡ (ok chunk, left)
      → waiting left ≤ n
      → Settled n (read_binary_all fuel card) ⊎ Panics card
  unfolding read_binary_all
  first_chunk [] card left e h = inl (rw e h)
  first_chunk (b ∷ bs) card left e h = elim (Result-cases (parse_header (b ∷ bs))) [
    | inl (head, p) ↦ elim (Bool-cases (ltb max_capacity (total_len head - length (b ∷ bs)))) [
      | inl vast ↦ inr (record {
        chunk = b ∷ bs;
        head = head;
        left = left;
        sent = e;
        parsed = p;
        vast = omega (arith, ltb→lt _ _ vast);
        panics = rw e (read_rest-panics (b ∷ bs) left head p vast);
      })
      | inr fits ↦ inl (
          rw e (
            read_rest-Settled (b ∷ bs) left
              (λ other q.
                let same : other ≡ head = cc in
                omega (arith, ap total_len same, ltb_false→le _ _ fits))
              h))
    ]
    | inr (inl (x, p)) ↦ inl (rw e (read_rest-Settled (b ∷ bs) left (λ other q. absurd (cc)) h))
    | inr (inr p) ↦ absurd (parse_header-ne-stuck (b ∷ bs) p)
  ]

  -- Over the scripted transport, once the fuel of a single call exceeds by two a number that the
  -- scripted responses do not, read_binary_all returns, with content or an error, and adds no
  -- response to the script, whatever the responses are; or the first chunk has a header that claims
  -- 2^63 bytes or more behind the chunk, and the program panics.
  pub read_binary_all-Settled :
      (card : Card MockTransport)
      → waiting card ≤ n
      → Settled n (read_binary_all fuel card) ⊎ Panics card
  unfolding read_binary_all
  read_binary_all-Settled card h =
      let x : Settled n (read_binary_chunk fuel 0 max_chunk card) =
        read_binary_chunk-Settled 0 max_chunk card h in
      elim (run_cases (read_binary_chunk fuel 0 max_chunk card)) [
        | inl (chunk, left, e) ↦ first_chunk chunk card left e (subst (Settled n) e x)
        | inr (inl (y, left, e)) ↦
            inl (rw e (on_chunk-failed [] (read_rest fuel) y left (subst (Settled n) e x)))
        | inr (inr (left, e)) ↦ absurd (subst (Settled n) e x)
      ]
