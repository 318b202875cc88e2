-- ===== src/Card/Exchange/Steps.antt =====
-- The steps of `call`, over any transport.
use myna_card.Prelude.{ℕ, suc, ◌≡◌, refl, none, some, ◌++◌, ◌==◌, if◌then◌else◌, Bytes, false}
use myna_card.Error.{Error, ok, err, from_status}
use myna_card.Transport.{Transmit}
use myna_card.Apdu.Status.{correct_le, more_data_available, is_success, success}
use myna_card.Apdu.Command.{Command, with_le, user}
use myna_card.Apdu.Response.{Response, into_data}
use myna_card.Card.{Card}
use myna_card.Card.Exchange.{ins_get_response, transmit_once, correct, collect, call, call_ok}

-- GET RESPONSE for `n` bytes.
abbrev pub get_response : ℕ → Command
get_response n = with_le user ins_get_response 0x00 0x00 n

-- A response continued by the one to a GET RESPONSE.
abbrev pub extend : Response → Response → Response
extend r more = record { data_field = r.data_field ++ more.data_field; status = more.status }

-- The command with the Le that a 6Cxx asks for.
abbrev pub with_correct_le : Command → ℕ → Command
with_correct_le c le = record c { le = some (if le == 0 then 256 else le) }

module _ {T : Type 0} ⦃link : Transmit T⦄ where
  pub collect-done :
      (fuel : ℕ) (r : Response) (card : Card T)
      → more_data_available r.status ≡ none
      → collect (suc fuel) r card ≡ (ok r, card)
  unfolding collect
  collect-done fuel r card e = rw (e, collect)

  pub collect-more :
      (fuel : ℕ) (r more : Response) (card card' : Card T) (n : ℕ)
      → more_data_available r.status ≡ some n
      → transmit_once (get_response n) card ≡ (ok more, card')
      → collect (suc fuel) r card ≡ collect fuel (extend r more) card'
  unfolding collect
  collect-more fuel r more card card' n e t = rw (e, collect, t)

  pub collect-fails :
      (fuel : ℕ) (r : Response) (card card' : Card T) (n : ℕ) (x : Error)
      → more_data_available r.status ≡ some n
      → transmit_once (get_response n) card ≡ (err x, card')
      → collect (suc fuel) r card ≡ (err x, card')
  unfolding collect
  collect-fails fuel r card card' n x e t = rw (e, collect, t)

  pub correct-none :
      (c : Command) (r : Response) (card : Card T)
      → correct_le r.status ≡ none
      → correct c r card ≡ (ok r, card)
  unfolding correct
  correct-none c r card e = rw (e, correct)

  pub correct-some :
      (c : Command) (r : Response) (card : Card T) (le : ℕ)
      → correct_le r.status ≡ some le
      → correct c r card ≡ transmit_once (with_correct_le c le) card
  unfolding correct
  correct-some c r card le e = rw (e, correct)

  -- One exchange that ends with success.
  pub call_ok-success :
      (fuel : ℕ) (c : Command) (d : Bytes) (card card' : Card T)
      → transmit_once c card ≡ (ok (record { data_field = d; status = success }), card')
      → call_ok (suc fuel) c card ≡ (ok d, card')
  unfolding call_ok call into_data correct_le more_data_available is_success
  call_ok-success fuel c d card card' t =
      let r : Response = record { data_field = d; status = success } in
      rw (t, correct-none c r card' refl, collect-done fuel r card' refl)

  -- One exchange that ends with a status which the card layer does not act on.
  pub call_ok-status :
      (fuel : ℕ) (c : Command) (r : Response) (card card' : Card T)
      → transmit_once c card ≡ (ok r, card')
      → correct_le r.status ≡ none
      → more_data_available r.status ≡ none
      → is_success r.status ≡ false
      → call_ok (suc fuel) c card ≡ (err (from_status r.status), card')
  unfolding call_ok call into_data
  call_ok-status fuel c r card card' t k m f =
      rw (t, correct-none c r card' k, collect-done fuel r card' m, f)
