-- ===== src/Mf/Serving.antt =====
-- A card with a record structured file, and reading all its records.
use myna_card.Prelude.{
  ℕ, zero, suc, ◌+◌, ◌≤◌, ◌<◌, ◌≡◌, refl, sym, ap, ◌∙◌, ◌⊎◌, inl, inr, none, some, false, List, [],
  ◌∷◌, ◌++◌, append_assoc, append-nil, length, length-append, get_elem?, get_elem?-middle,
  get_elem?-end, Bytes, arith, ◌==◌,
}
use myna_card.Error.{ok, err, status, from_status}
use myna_card.Action.{step-ok, attempt}
use myna_card.Transport.{Transmit}
use myna_card.Apdu.Status.{StatusWord, success, correct_le, more_data_available, is_success}
use myna_card.Apdu.Command.{user, with_le, to_bytes}
use myna_card.Apdu.Command.Checks.{encoding-with_le, to_bytes-eq-ok}
use myna_card.Apdu.Response.{Response}
use myna_card.Card.{Card}
use myna_card.Card.Exchange.Steps.{call_ok-success, call_ok-status}
use myna_card.Card.Files.{ins_read_record, read_record, read_records_from, select_ef}
use myna_card.Card.Files.Selecting.{select_apdu, transmit_once-answered, select_ef-selected}
use myna_card.Mf.{records_loop, read_records_one_by_one, read_all_records, or_one_by_one}

-- The records in order, one behind the other.
unfoldable pub joined : List Bytes → Bytes
joined [] = []
joined (r ∷ rs) = r ++ joined rs

abbrev pub NonEmpty : List Bytes → Type 0
NonEmpty [] = Unit {0}
NonEmpty (r ∷ rs) = (0 < length r) × NonEmpty rs

-- The bytes of READ RECORD(S) for a record, and for the records from the first on.
abbrev pub record_apdu : ℕ → Bytes
record_apdu number = 0x00 ∷ 0xB2 ∷ number ∷ 0x04 ∷ 0x00 ∷ []

abbrev pub records_apdu : Bytes
records_apdu = 0x00 ∷ 0xB2 ∷ 0x01 ∷ 0x05 ∷ 0x00 ∷ []

-- What JICSAP 6.4.4 says of a card on which the selection of the file `id` makes a file of these
-- records current: READ RECORD answers with a record, or 6A83 where there is none of the number;
-- READ RECORDS answers with all of them, or 6A81 where the card does not have it.
pub record ServesRecords {T : Type 0} (link : Transmit T) (start t : T) (id : ℕ) (rs : List Bytes)
    : Type 0 where
  pub selects : link.transmit start (select_apdu id) ≡ (ok (0x90 ∷ 0x00 ∷ []), t)
  pub reads :
      (n : ℕ) (r : Bytes)
      → n < 255
      → get_elem? rs n ≡ some r
      → link.transmit t (record_apdu (n + 1)) ≡ (ok (r ++ (0x90 ∷ 0x00 ∷ [])), t)
  pub ends :
      (n : ℕ)
      → n < 255
      → get_elem? rs n ≡ none
      → link.transmit t (record_apdu (n + 1)) ≡ (ok (0x6A ∷ 0x83 ∷ []), t)
  pub several :
      (link.transmit t records_apdu ≡ (ok (joined rs ++ (0x90 ∷ 0x00 ∷ [])), t))
      ⊎ (link.transmit t records_apdu ≡ (ok (0x6A ∷ 0x81 ∷ []), t))

abbrev no_record : StatusWord
no_record = record { value = 0x6A83 }

abbrev no_function : StatusWord
no_function = record { value = 0x6A81 }

read_command-bytes :
    (number p2 : ℕ)
    → to_bytes (with_le user ins_read_record number p2 256)
      ≡ ok (0x00 ∷ 0xB2 ∷ number ∷ p2 ∷ 0x00 ∷ [])
read_command-bytes number p2 =
    to_bytes-eq-ok (with_le user ins_read_record number p2 256)
      (record { data_field = omega arith; le = (omega arith, omega arith) })
    ∙ rw (encoding-with_le user ins_read_record number p2 256 (omega arith)) refl

module _ {T : Type 0} ⦃link : Transmit T⦄ (fuel : ℕ) where
  module _ (start t : T) (id : ℕ) (rs : List Bytes) (s : ServesRecords link start t id rs) where
    abbrev card : Card T
    card = record { transport = t }

    record-reads :
        (n : ℕ) (r : Bytes)
        → n < 255
        → get_elem? rs n ≡ some r
        → read_record (suc fuel) (n + 1) card ≡ (ok r, card)
    unfolding read_record
    record-reads n r h e =
        let c = with_le user ins_read_record (n + 1) 0x04 256 in
        let positive : (n + 1 == 0) ≡ false = ground arith in
        rw (
          positive,
          call_ok-success fuel c r card card (
              transmit_once-answered c (record_apdu (n + 1))
                (record { data_field = r; status = success }) t t (read_command-bytes (n + 1) 0x04)
                (omega arith) (s.reads n r h e)),
        )

    record-ends :
        (n : ℕ)
        → n < 255
        → get_elem? rs n ≡ none
        → read_record (suc fuel) (n + 1) card ≡ (err (status no_record), card)
    unfolding read_record from_status correct_le more_data_available is_success
    record-ends n h e =
        let c = with_le user ins_read_record (n + 1) 0x04 256 in
        let r : Response = record { data_field = []; status = no_record } in
        let positive : (n + 1 == 0) ≡ false = ground arith in
        rw (
          positive,
          call_ok-status fuel c r card card
              (transmit_once-answered c (record_apdu (n + 1)) r t t
                (read_command-bytes (n + 1) 0x04) (omega arith) (s.ends n h e))
              refl refl refl,
        )

    -- A record goes behind those read before it, and the loop goes on.
    records_loop-more :
        (left n : ℕ) (out r : Bytes)
        → n < 255
        → 0 < length r
        → get_elem? rs n ≡ some r
        → records_loop (suc fuel) (suc left) (n + 1) out card
          ≡ records_loop (suc fuel) left (n + 1 + 1) (out ++ r) card
    unfolding records_loop
    records_loop-more left n out [] h k e = absurd (omega arith)
    records_loop-more left n out (b ∷ bs) h k e = rw (record-reads n (b ∷ bs) h e)

    records_loop-end :
        (left n : ℕ) (out : Bytes)
        → n < 255
        → get_elem? rs n ≡ none
        → records_loop (suc fuel) (suc left) (n + 1) out card ≡ (ok out, card)
    unfolding records_loop
    records_loop-end left n out h e = rw (record-ends n h e)

    records_loop-joined :
        (left : ℕ) (out : Bytes) (done rest : List Bytes)
        → NonEmpty rest
        → length done + left ≡ 255
        → length rest ≤ left
        → rs ≡ done ++ rest
        → records_loop (suc fuel) left (length done + 1) out card ≡ (ok (out ++ joined rest), card)
    unfolding records_loop joined
    records_loop-joined zero out done [] k e l w = ap (λ x. (ok x, card)) (sym (append-nil out))
    records_loop-joined (suc left) out done [] k e l w =
        records_loop-end left (length done) out (omega arith)
          (ap (λ x. get_elem? x (length done)) w ∙ get_elem?-end done)
        ∙ ap (λ x. (ok x, card)) (sym (append-nil out))
    records_loop-joined zero out done (r ∷ rest) k e l w = absurd (omega arith)
    records_loop-joined (suc left) out done (r ∷ rest) k e l w =
        let next : length (done ++ (r ∷ [])) ≡ length done + 1 = length-append done (r ∷ []) in
        records_loop-more left (length done) out r (omega arith) k.0
          (ap (λ x. get_elem? x (length done)) w ∙ get_elem?-middle done rest r)
        ∙ (ap (λ x. records_loop (suc fuel) left (x + 1) (out ++ r) card) (sym next)
            ∙ (records_loop-joined left (out ++ r) (done ++ (r ∷ [])) rest k.1 (omega arith)
                  (omega arith) (w ∙ sym (append_assoc done (r ∷ []) rest))
                ∙ ap (λ x. (ok x, card)) (append_assoc out r (joined rest))))

    several-ok :
        link.transmit t records_apdu ≡ (ok (joined rs ++ (0x90 ∷ 0x00 ∷ [])), t)
        → read_records_from (suc fuel) 1 card ≡ (ok (joined rs), card)
    unfolding read_records_from
    several-ok h =
        let c = with_le user ins_read_record 1 0x05 256 in
        call_ok-success fuel c (joined rs) card card (
          transmit_once-answered c records_apdu
            (record { data_field = joined rs; status = success }) t t (read_command-bytes 1 0x05)
            (omega arith) h)

    several-refused :
        link.transmit t records_apdu ≡ (ok (0x6A ∷ 0x81 ∷ []), t)
        → read_records_from (suc fuel) 1 card ≡ (err (status no_function), card)
    unfolding read_records_from from_status correct_le more_data_available is_success
    several-refused h =
        let c = with_le user ins_read_record 1 0x05 256 in
        let r : Response = record { data_field = []; status = no_function } in
        call_ok-status fuel c r card card
          (transmit_once-answered c records_apdu r t t (read_command-bytes 1 0x05) (omega arith) h)
          refl refl refl

    one_by_one :
        NonEmpty rs
        → length rs ≤ 255
        → read_records_one_by_one (suc fuel) card ≡ (ok (joined rs), card)
    unfolding read_records_one_by_one
    one_by_one k l = records_loop-joined 255 [] [] rs k refl l refl

    -- On a card that serves a file of at most 255 records, none of them empty, as READ RECORD(S) is
    -- documented, `read_all_records` returns all the records, one behind the other, whether the
    -- card sends them at once or has to be asked for each.
    pub read_all_records-joined :
        NonEmpty rs
        → length rs ≤ 255
        → read_all_records (suc fuel) id (record { transport = start }) ≡ (ok (joined rs), card)
    unfolding read_all_records
    read_all_records-joined k l =
        let fallback = read_records_one_by_one (suc fuel) in
        step-ok (select_ef (suc fuel) id)
          (λ _. attempt (read_records_from (suc fuel) 1) (or_one_by_one fallback))
          (record { transport = start }) card tt (select_ef-selected fuel start t id s.selects)
        ∙ elim s.several [
          | inl h ↦ ap (λ p. or_one_by_one fallback p.0 p.1) (several-ok h)
          | inr h ↦ ap (λ p. or_one_by_one fallback p.0 p.1) (several-refused h) ∙ one_by_one k l
        ]
