-- ===== src/Sm/Session/Life.antt =====
-- The life of a session: what any sequence of its methods keeps.
use myna_card.Prelude.{
  ℕ, zero, suc, min, ◌-◌, ◌≡◌, refl, ap, ◌∙◌, true, false, [], ◌∷◌, ◌++◌, length, Bytes, ltb, leb,
  Bool, if◌then◌else◌,
}
use myna_card.Error.{Result, ok, err, stuck, status, offset_out_of_range}
use myna_card.Action.{Action, raise, lift, continue, pure, ◌>>=◌}
use myna_card.Transport.{Transmit}
use myna_card.Apdu.Command.{Command}
use myna_card.Apdu.Response.{Response}
use myna_card.Card.Files.{from_ef_id}
use myna_card.Pin.{Pin}
use myna_card.Tlv.Ber.{Header, parse_header, total_len}
use myna_card.Sm.Cryptogram.{parse_cryptogram}
use myna_card.Card.{Card}
use myna_card.Card.Exchange
use myna_card.Sm.Cipher.{Cipher}
use myna_card.Sm.Session.{
  SecureSession, answered, call, verify, select_ef, opened, read_binary, read_ef_physical, go_on,
  read_more, with_header, up_to_end, read_ef, on_card, with_card,
}

-- What a method must do to a session: it keeps the key, and a broken session as it is.
pub record Keeps {T : Type 0} (s s' : SecureSession T) : Type 0 where
  pub key : s'.key ≡ s.key
  pub once_broken : s.broken ≡ true → s' ≡ s

module _ {T : Type 0} where
  Keeps-refl : (s : SecureSession T) → Keeps s s
  Keeps-refl s = record { key = refl; once_broken = λ b. refl }

  Keeps-trans : (s t u : SecureSession T) → Keeps s t → Keeps t u → Keeps s u
  Keeps-trans s t u a b = record {
    key = b.key ∙ a.key;
    once_broken = λ e.
        b.once_broken (ap (λ (x : SecureSession T). x.broken) (a.once_broken e) ∙ e)
        ∙ a.once_broken e;
  }

  -- A method keeps a session if its steps do.
  abbrev AllKeep {ℓ} : {A : Type ℓ} → Action (SecureSession T) A → Type 0
  AllKeep m = (s : SecureSession T) → Keeps s (m s).1

  if-Keeps {ℓ} :
      {A : Type ℓ} (b : Bool) (m n : Action (SecureSession T) A)
      → AllKeep m
      → AllKeep n
      → AllKeep (if b then m else n)
  if-Keeps true m n h k = h
  if-Keeps false m n h k = k

  bind-Keeps {ℓ κ} :
      {A : Type ℓ} {B : Type κ} (m : Action (SecureSession T) A)
      (f : A → Action (SecureSession T) B) (s : SecureSession T)
      → Keeps s (m s).1
      → ((a : A) → AllKeep (f a))
      → Keeps s ((m >>= f) s).1
  bind-Keeps {A = A} {B = B} m f s h k = go (m s) h
    where
      go : (p : Result A × SecureSession T) → Keeps s p.1 → Keeps s (continue f p.0 p.1).1
      go (ok a, s') h = Keeps-trans s s' _ h (k a s')
      go (err e, s') h = h
      go (stuck, s') h = h

module _ {T : Type 0} ⦃link : Transmit T⦄ (cipher : Cipher) (fuel : ℕ) where
  call-Keeps : (c : Command) → AllKeep {T = T} (call cipher fuel c)
  unfolding call
  call-Keeps c s = sent s.broken refl
    where
      key_kept :
          (p : Result Response × Card T)
          → (continue answered p.0 (record s { card = p.1 })).1.key ≡ s.key
      key_kept (ok r, card) = refl
      key_kept (err e, card) = refl
      key_kept (stuck, card) = refl

      sent :
          (b : Bool)
          → s.broken ≡ b
          → Keeps s
              (if b
                then (err (status (record { value = 0x69FC })), s)
                else (on_card (Exchange.call fuel c) >>= answered) s).1
      sent true e = Keeps-refl s
      sent false e = record {
        key = key_kept (Exchange.call fuel c s.card);
        once_broken = λ t. absurd (cc (t, e));
      }

  verify-Keeps : (key : ℕ) (pin : Pin) → AllKeep {T = T} (verify cipher fuel key pin)
  unfolding verify
  verify-Keeps key pin s =
      bind-Keeps (lift (from_ef_id key)) _ s (Keeps-refl s)
        (λ sfi s'. bind-Keeps (call cipher fuel _) _ s' (call-Keeps _ s') (λ _ s''. Keeps-refl s''))

  select_ef-Keeps : (id : ℕ) → AllKeep {T = T} (select_ef cipher fuel id)
  unfolding select_ef
  select_ef-Keeps id s =
      bind-Keeps (call cipher fuel _) _ s (call-Keeps _ s) (λ _ s'. Keeps-refl s')

  read_binary-Keeps : (offset size : ℕ) → AllKeep {T = T} (read_binary cipher fuel offset size)
  unfolding read_binary
  read_binary-Keeps offset size s =
      bind-Keeps (call cipher fuel _) _ s (call-Keeps _ s) opened-Keeps
    where
      opened-Keeps : (r : Bytes) → AllKeep {T = T} (opened cipher fuel r)
      opened-Keeps r s' =
          bind-Keeps (lift (parse_cryptogram r)) _ s' (Keeps-refl s') (λ _ s''. Keeps-refl s'')

  read_ef_physical-Keeps : (id : ℕ) → AllKeep {T = T} (read_ef_physical cipher fuel id)
  unfolding read_ef_physical
  read_ef_physical-Keeps id s =
      bind-Keeps (select_ef cipher fuel id) _ s (select_ef-Keeps id s) (λ _. read_binary-Keeps 0 0)

  read_more-Keeps :
      (rounds total : ℕ) (out : Bytes) → AllKeep {T = T} (read_more cipher fuel rounds total out)
  unfolding read_more
  read_more-Keeps zero total out s = Keeps-refl s
  read_more-Keeps (suc rounds) total out s =
      let want : ℕ = min (total - length out) 65535 in
      let again : Bytes → Action (SecureSession T) Bytes =
        λ chunk. read_more cipher fuel rounds total (out ++ chunk) in
      let chunks : Action (SecureSession T) Bytes =
        read_binary cipher fuel (length out) want >>= go_on cipher fuel out again in
      let refuse : Action (SecureSession T) Bytes = raise (offset_out_of_range (length out)) in
      if-Keeps (ltb (length out) total) (if ltb 65535 (length out) then refuse else chunks)
        (pure out)
        (if-Keeps (ltb 65535 (length out)) refuse chunks Keeps-refl (λ s'.
          bind-Keeps (read_binary cipher fuel (length out) want) (go_on cipher fuel out again) s'
            (read_binary-Keeps (length out) want s')
            (λ chunk. go_on-Keeps again chunk (λ c. read_more-Keeps rounds total (out ++ c)))))
        Keeps-refl s
    where
      go_on-Keeps :
          (go : Bytes → Action (SecureSession T) Bytes) (chunk : Bytes)
          → ((c : Bytes) → AllKeep {T = T} (go c))
          → AllKeep {T = T} (go_on cipher fuel out go chunk)
      go_on-Keeps go [] h s' = Keeps-refl s'
      go_on-Keeps go (b ∷ bs) h s' = h (b ∷ bs) s'

  up_to_end-Keeps : (out : Bytes) → AllKeep {T = T} (up_to_end cipher fuel out)
  unfolding up_to_end
  up_to_end-Keeps [] s = Keeps-refl s
  up_to_end-Keeps (b ∷ bs) s = go (parse_header (b ∷ bs))
    where
      go : (r : Result Header) → Keeps s (with_header cipher fuel (b ∷ bs) r s).1
      go (ok h) =
          if-Keeps (leb (total_len h) (length (b ∷ bs))) _ _ Keeps-refl
            (read_more-Keeps (suc (total_len h)) (total_len h) (b ∷ bs)) s
      go (err e) = Keeps-refl s
      go stuck = Keeps-refl s

  read_ef-Keeps : (id : ℕ) → AllKeep {T = T} (read_ef cipher fuel id)
  unfolding read_ef
  read_ef-Keeps id s =
      bind-Keeps (read_ef_physical cipher fuel id) _ s (read_ef_physical-Keeps id s) up_to_end-Keeps

  -- One call of a method, whatever it returns, or one use of the card that `card` hands out.
  pub data Step (s s' : SecureSession T) : Type 0 where
    verified : (key : ℕ) (pin : Pin) → s' ≡ (verify cipher fuel key pin s).1 → Step s s'
    selected : (id : ℕ) → s' ≡ (select_ef cipher fuel id s).1 → Step s s'
    read : (offset size : ℕ) → s' ≡ (read_binary cipher fuel offset size s).1 → Step s s'
    read_file : (id : ℕ) → s' ≡ (read_ef cipher fuel id s).1 → Step s s'
    read_physical : (id : ℕ) → s' ≡ (read_ef_physical cipher fuel id s).1 → Step s s'
    by_hand : (handle : Card T → Card T) → s' ≡ with_card handle s → Step s s'

  -- Any number of calls, in any order.
  pub data Reach (s : SecureSession T) : SecureSession T → Type 0 where
    here : Reach s s
    next : {t u : SecureSession T} → Reach s t → Step t u → Reach s u

  -- What the uses of the card by hand make of it, in their order, as if nothing else were done.
  abbrev pub handled_once : {s s' : SecureSession T} → Step s s' → Card T → Card T
  handled_once (by_hand handle e) card = handle card
  handled_once _ card = card

  abbrev pub handled : {s s' : SecureSession T} → Reach s s' → Card T → Card T
  handled here card = card
  handled (next r step) card = handled_once step (handled r card)

  -- What a run leaves of the session that it starts from.
  pub record Kept (s s' : SecureSession T) (by_hand_alone : Card T → Card T) : Type 0 where
    pub key_kept : s'.key ≡ s.key
    pub shut : s.broken ≡ true → s' ≡ with_card by_hand_alone s

  of_Keeps : {s s' : SecureSession T} → Keeps s s' → Kept s s' (λ card. card)
  of_Keeps k = record { key_kept = k.key; shut = k.once_broken }

  Step-Kept : {s s' : SecureSession T} (step : Step s s') → Kept s s' (handled_once step)
  Step-Kept {s} (verified key pin e) = of_Keeps (rw e (verify-Keeps key pin s))
  Step-Kept {s} (selected id e) = of_Keeps (rw e (select_ef-Keeps id s))
  Step-Kept {s} (read offset size e) = of_Keeps (rw e (read_binary-Keeps offset size s))
  Step-Kept {s} (read_file id e) = of_Keeps (rw e (read_ef-Keeps id s))
  Step-Kept {s} (read_physical id e) = of_Keeps (rw e (read_ef_physical-Keeps id s))
  Step-Kept {s} (by_hand handle e) = record {
    key_kept = ap (λ (x : SecureSession T). x.key) e;
    shut = λ b. e;
  }

  -- Whatever is called on a session, in any order and with any outcome, its key stays. Once it is
  -- broken, nothing that is called on it changes it or touches its card any more: the card is changed
  -- only by what the caller does by hand with the card that the method card hands out, and the rest
  -- of the session stays as it is.
  pub Reach-Kept : {s s' : SecureSession T} (r : Reach s s') → Kept s s' (handled r)
  Reach-Kept here = record { key_kept = refl; shut = λ b. refl }
  Reach-Kept {s} (next {t} {u} r step) =
      let before : Kept s t (handled r) = Reach-Kept r in
      let last : Kept t u (handled_once step) = Step-Kept step in
      record {
        key_kept = last.key_kept ∙ before.key_kept;
        shut = λ b.
            let same : t ≡ with_card (handled r) s = before.shut b in
            last.shut (ap (λ (x : SecureSession T). x.broken) same ∙ b)
            ∙ ap (with_card (handled_once step)) same;
      }
