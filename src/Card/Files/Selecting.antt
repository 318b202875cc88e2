-- ===== src/Card/Files/Selecting.antt =====
-- A card that makes a file current.
use myna_card.Prelude.{ℕ, suc, ◌<◌, ◌≡◌, refl, ◌∙◌, [], ◌∷◌, ◌++◌, Bytes, arith}
use myna_card.Prelude.Words.{to_be_bytes}
use myna_card.Error.{ok}
use myna_card.Transport.{Transmit}
use myna_card.Apdu.Status.{success}
use myna_card.Apdu.Command.{Command, user, with_data, to_bytes}
use myna_card.Apdu.Command.Checks.{encoding-with_data, to_bytes-eq-ok}
use myna_card.Apdu.Response.{Response}
use myna_card.Apdu.Response.Splitting.{parse-raw_of}
use myna_card.Card.Exchange.{transmit_once}
use myna_card.Card.Exchange.Steps.{call_ok-success}
use myna_card.Card.Files.{ins_select_file, select_ef}

-- The bytes of SELECT FILE for the EF of an identifier.
abbrev pub select_apdu : ℕ → Bytes
select_apdu id = 0x00 ∷ 0xA4 ∷ 0x02 ∷ 0x0C ∷ 0x02 ∷ to_be_bytes id

module _ {T : Type 0} ⦃link : Transmit T⦄ where
  -- The exchange that a transport answers.
  pub transmit_once-answered :
      (c : Command) (bytes : Bytes) (r : Response) (t t' : T)
      → to_bytes c ≡ ok bytes
      → r.status.value < 65536
      → link.transmit t bytes ≡ (ok (r.data_field ++ to_be_bytes r.status.value), t')
      → transmit_once c (record { transport = t }) ≡ (ok r, record { transport = t' })
  unfolding transmit_once
  transmit_once-answered c bytes r t t' b w h = rw (b, h, parse-raw_of r w)

  -- Where a card answers the selection of a file with 9000, `select_ef` succeeds.
  pub select_ef-selected :
      (fuel : ℕ) (start t : T) (id : ℕ)
      → link.transmit start (select_apdu id) ≡ (ok (0x90 ∷ 0x00 ∷ []), t)
      → select_ef (suc fuel) id (record { transport = start }) ≡ (ok tt, record { transport = t })
  unfolding select_ef
  select_ef-selected fuel start t id h =
      let c = with_data user ins_select_file 0x02 0x0C (to_be_bytes id) in
      let bytes : to_bytes c ≡ ok (select_apdu id) =
        to_bytes-eq-ok c (record { data_field = omega arith; le = tt })
        ∙ rw
            (encoding-with_data user ins_select_file 0x02 0x0C (to_be_bytes id) (omega arith)
              (omega arith))
            refl in
      rw (
        call_ok-success fuel c [] (record { transport = start }) (record { transport = t })
          (transmit_once-answered c (select_apdu id) (record { data_field = []; status = success })
            start t bytes (omega arith) h))
