-- ===== src/Examples/Sessions.antt =====
-- A secure session with a card that decrypts, under a toy cipher.
use myna_card.Prelude.{
  sym, append_assoc, length-append, drop-append, lt→ltb, le→ltb_false, ℕ, ◌+◌, ◌-◌, ◌≡◌, refl, ap,
  ◌∙◌, true, false, [], ◌∷◌, ◌++◌, List, length, drop, Bytes, arith, ltb, if◌then◌else◌, ◌↔◌,
}
use myna_card.Prelude.Words.{big_endian}
use myna_card.Tlv.Ber.Layout.{IsLength}
use myna_card.Error.{Result, ok, err, stuck}
use myna_card.Transport.{Transmit}
use myna_card.Apdu.Status.{success, correct_le, more_data_available}
use myna_card.Pin.{Pin}
use myna_card.Card.{Card}
use myna_card.Card.Exchange.Chain.{IsFinal}
use myna_card.Sm.Padding.{unpad}
use myna_card.Sm.Padding.Removal.{unpad_iff, zeros}
use myna_card.Sm.Cipher.{Cipher, IsCipher}
use myna_card.Sm.Cryptogram.{cryptogram_object, parse_cryptogram, length_field}
use myna_card.Sm.Cryptogram.RoundTrip.{parse_cryptogram-cryptogram_object}
use myna_card.Sm.Session.{SecureSession, with_card, verify, select_ef}
use myna_card.Sm.Session.Life.{
  Kept, selected, verified, by_hand, Reach, here, next, handled, Reach-Kept,
}
use myna_card.Sm.Session.Receiving.{Receiver, CountsAs, Wraps}
use myna_card.Sm.Session.Delivery.{Message, secret, file}

-- Every byte moves up.
abbrev pub up : ℕ → Bytes → Bytes
up n [] = []
up n (b ∷ bs) = (b + n) ∷ up n bs

abbrev pub down : ℕ → Bytes → Bytes
down n [] = []
down n (b ∷ bs) = (b - n) ∷ down n bs

down-up : (n : ℕ) (bs : Bytes) → down n (up n bs) ≡ bs
down-up n [] = refl
down-up n (b ∷ bs) =
    let e : b + n - n ≡ b = omega arith in
    ap (λ x. x ∷ down n (up n bs)) e ∙ ap (λ x. b ∷ x) (down-up n bs)

length-up : (n : ℕ) (bs : Bytes) → length (up n bs) ≡ length bs
length-up n [] = refl
length-up n (b ∷ bs) = omega (arith, length-up n bs)

up_zero : (bs : Bytes) → up 0 bs ≡ bs
up_zero [] = refl
up_zero (b ∷ bs) =
    let e : b + 0 ≡ b = omega arith in ap (λ x. x ∷ up 0 bs) e ∙ ap (λ x. b ∷ x) (up_zero bs)

-- By as much as the initial vector says.
abbrev pub toy : Cipher
toy = record {
  encrypt = λ key start blocks. up (big_endian start) blocks;
  decrypt = λ key start blocks. down (big_endian start) blocks;
  oaep = λ key message. ok message;
}

toy-IsCipher : IsCipher toy
toy-IsCipher = record {
  encrypted_size = λ key start blocks h. length-up (big_endian start) blocks;
  decrypts = λ key start blocks h. down-up (big_endian start) blocks;
}

abbrev pub session_key : Bytes
session_key = 1 ∷ 2 ∷ 3 ∷ 4 ∷ 5 ∷ 6 ∷ 7 ∷ 8 ∷ 9 ∷ 10 ∷ 11 ∷ 12 ∷ 13 ∷ 14 ∷ 15 ∷ 16 ∷ []

-- The card's end: its counter, and what it has taken.
record Peer : Type 0 where
  counter : ℕ
  received : List Bytes

-- The cryptogram within the object of a short command.
abbrev inside : Bytes → Bytes
inside (tag ∷ l ∷ rest) = if ltb l 0x80 then drop 1 rest else drop (l - 0x80 + 1) rest
inside bytes = []

inside-Wraps : (object c : Bytes) → Wraps object c → inside object ≡ c
inside-Wraps object c w = ap inside w.whole ∙ by_field w.length_field c w.is_length
  where
    by_field : (f c : Bytes) → IsLength f → inside (0x86 ∷ (f ++ (0x01 ∷ c))) ≡ c
    by_field [] c h = absurd h
    by_field (n ∷ []) c h = let short : ltb n 0x80 ≡ true = lt→ltb n 0x80 h in rw short refl
    by_field (n ∷ d ∷ ds) c h =
        let long : ltb n 0x80 ≡ false = le→ltb_false n 0x80 (omega (arith, h)) in
        let size : n - 0x80 + 1 ≡ length ((d ∷ ds) ++ (0x01 ∷ [])) =
          omega (arith, h, length-append (d ∷ ds) (0x01 ∷ [])) in
        rw long (
          ap (drop (n - 0x80 + 1)) (sym (append_assoc (d ∷ ds) (0x01 ∷ []) c))
          ∙ drop-append ((d ∷ ds) ++ (0x01 ∷ [])) c (n - 0x80 + 1) size)

abbrev takes_it : Peer → Result Bytes → Result Bytes × Peer
takes_it t (ok plain) = (
  ok (0x90 ∷ 0x00 ∷ []),
  record { counter = t.counter + 1; received = t.received ++ (plain ∷ []) },
)
takes_it t (err e) = (ok (0x69 ∷ 0x88 ∷ []), t)
takes_it t stuck = (ok (0x69 ∷ 0x88 ∷ []), t)

abbrev peer_answer : Peer → Bytes → Result Bytes × Peer
peer_answer t (cla ∷ ins ∷ p1 ∷ p2 ∷ lc ∷ object) =
    takes_it t (unpad (down t.counter (inside object)))
peer_answer t command = (ok (0x67 ∷ 0x00 ∷ []), t)

instance abbrev peer_link : Transmit Peer
peer_link = record { transmit = peer_answer }

success-IsFinal : IsFinal (record { data_field = []; status = success })
unfolding more_data_available correct_le
success-IsFinal = record { word = omega arith; no_more = refl; no_retry = refl }

-- The initial vector of a counter is its block under this cipher.
opens_with :
    (n : ℕ) (block c d : Bytes)
    → CountsAs n block
    → toy.decrypt session_key (toy.encrypt session_key (zeros 16) block) c ≡ d
    → down n c ≡ d
opens_with n block c d b h =
    let same : big_endian (up 0 block) ≡ n = ap big_endian (up_zero block) ∙ b.value in
    ap (λ k. down k c) (sym same) ∙ h

abbrev peer : Receiver peer_link toy session_key
peer = record {
  counter = λ t. t.counter;
  received = λ t. t.received;
  verdict = λ t plain. success;
  after = λ t plain. record { counter = t.counter + 1; received = t.received ++ (plain ∷ []) };
  counts = λ t plain. refl;
  takes = λ t plain. refl;
  is_final = λ t plain. success-IsFinal;
  no_sm_error = λ t plain. omega arith;
  answers = λ t ins p1 p2 block object cryptogram plain fill h w b opens.
      ap (λ x. takes_it t (unpad (down t.counter x))) (inside-Wraps object cryptogram w)
      ∙ ap (takes_it t) (
          (unpad_iff (down t.counter cryptogram) plain).1
            (fill, opens_with t.counter block cryptogram _ b opens));
}

abbrev open_session : SecureSession Peer
open_session = record {
  card = record { transport = record { counter = 1; received = [] } };
  key = session_key;
  counter = 1;
  broken = false;
}

abbrev secret_pin : Pin
secret_pin = record { bytes = b'1' ∷ b'2' ∷ b'3' ∷ b'4' ∷ [] }

abbrev messages : List (Message toy session_key toy-IsCipher peer 3)
messages = secret 0x11 secret_pin ∷ file 0x0001 ∷ []

-- The session behind a broken one: a selection and a verification.
abbrev broken_session : SecureSession Peer
broken_session = record {
  card = record { transport = record { counter = 1; received = [] } };
  key = session_key;
  counter = 7;
  broken = true;
}

abbrev after_selection : SecureSession Peer
after_selection = (select_ef toy 4 0x0001 broken_session).1

abbrev after_verification : SecureSession Peer
after_verification = (verify toy 4 0x11 secret_pin after_selection).1

-- The caller lets the card take a command by itself, and the counter of the card goes on.
abbrev counts_alone : Card Peer → Card Peer
counts_alone card = record {
  transport = record card.transport { counter = card.transport.counter + 1 };
}

abbrev after_use : SecureSession Peer
after_use = with_card counts_alone after_verification

abbrev three_steps : Reach toy 4 broken_session after_use
three_steps =
    next (next (next here (selected 0x0001 refl)) (verified 0x11 secret_pin refl))
      (by_hand counts_alone refl)

Reach-Kept_example : Kept toy 4 broken_session after_use (handled toy 4 three_steps)
Reach-Kept_example = Reach-Kept toy 4 three_steps

unpad_iff_example :
    (unpad (0x41 ∷ 0x80 ∷ 0x00 ∷ []) ≡ ok (0x41 ∷ []))
    ↔ ((n : ℕ) × (0x41 ∷ 0x80 ∷ 0x00 ∷ [] ≡ (0x41 ∷ []) ++ (0x80 ∷ zeros n)))
unpad_iff_example = unpad_iff (0x41 ∷ 0x80 ∷ 0x00 ∷ []) (0x41 ∷ [])

parse_cryptogram-cryptogram_object_example :
    parse_cryptogram (cryptogram_object (0xAA ∷ 0xBB ∷ []) ++ (0xFF ∷ [])) ≡ ok (0xAA ∷ 0xBB ∷ [])
unfolding cryptogram_object length_field
parse_cryptogram-cryptogram_object_example =
    parse_cryptogram-cryptogram_object (0xAA ∷ 0xBB ∷ []) (0xFF ∷ []) (omega arith)
      (omega arith, (omega arith, tt)) (omega arith, tt) (omega arith)
