-- ===== src/Transport/Pcsc/Reservation.antt =====
-- How long a connection keeps the mode in which it was opened.
use myna_card.Prelude.{ℕ, ◌≡◌, refl, ap, ◌∙◌, subst, Bytes, get_elem?}
use myna_card.Error.{Result, ok, ok_or, no_reader, reader_not_found}
use myna_card.Action.{lift, step-eq-ok}
use myna_card.Card.{Card}
use myna_card.Transport.Pcsc.{
  Pcsc, Outcome, done, failed, cycled, serviced, from_pcsc, Sharing, shared, exclusive, mode,
  PcscTransport, new_transport, open_card, connect, connect_any, find_reader, transmit, power_cycle,
}

serviced-eq-ok :
    {S A : Type 0} (f : S → Outcome A × S) (s : S) {a : A} {s' : S}
    → serviced f s ≡ (ok a, s')
    → f s ≡ (done a, s')
serviced-eq-ok f s h = from_outcome (f s).0 (f s).1 h
  where
    from_outcome :
        {S A : Type 0} (o : Outcome A) (t : S) {a : A} {s' : S}
        → ◌≡◌ {A = Result A × S} (from_pcsc o, t) (ok a, s')
        → ◌≡◌ {A = Outcome A × S} (o, t) (done a, s')
    from_outcome (done a) t h = cc
    from_outcome (failed code) t h = cc

module _ (p : Pcsc) where
  -- A connection has a mode, which only a reconnection that succeeds changes.
  pub record HasModes : Type 0 where
    pub mode_of : p.Handle → p.ShareMode
    pub connected :
        (context : p.Context) (reader : Bytes) (m : p.ShareMode) (protocols : p.Protocols)
        (s s' : p.Service) (h : p.Handle)
        → p.connect_reader context reader m protocols s ≡ (done h, s')
        → mode_of h ≡ m
    pub reconnected :
        (h : p.Handle) (m : p.ShareMode) (protocols : p.Protocols) (d : p.Disposition)
        (h' : p.Handle)
        → p.reconnect h m protocols d ≡ (done tt, h')
        → mode_of h' ≡ m
    pub not_reconnected :
        (h : p.Handle) (m : p.ShareMode) (protocols : p.Protocols) (d : p.Disposition) {code : ℕ}
        (h' : p.Handle)
        → p.reconnect h m protocols d ≡ (failed code, h')
        → mode_of h' ≡ mode_of h
    pub exchanged :
        (size : ℕ) (h : p.Handle) (command : Bytes)
        → mode_of (p.exchange size h command).1 ≡ mode_of h

  -- Opened by one of the two functions, in a mode that was asked for.
  pub data Opened (sharing : Sharing) (card : Card (PcscTransport p)) : Type 0 where
    named :
        (reader : Bytes) (s s' : p.Service)
        → connect p reader sharing s ≡ (ok card, s')
        → Opened sharing card
    first : (s s' : p.Service) → connect_any p sharing s ≡ (ok card, s') → Opened sharing card

  -- What commands and power cycles make of a transport, whether they succeed or not.
  pub data Later (t : PcscTransport p) : PcscTransport p → Type 0 where
    here : Later t t
    transmits :
        {u : PcscTransport p} (command : Bytes) → Later t u → Later t (transmit p u command).1
    power_cycles : {u : PcscTransport p} → Later t u → Later t (power_cycle p u).1

  module _ (modes : HasModes) where
    -- The connection is in the mode that the transport says, which is that asked for.
    record InMode (sharing : Sharing) (t : PcscTransport p) : Type 0 where
      said : t.sharing ≡ sharing
      kept : modes.mode_of t.card ≡ mode p sharing

    transmit-InMode :
        (sharing : Sharing) (t : PcscTransport p) (command : Bytes)
        → InMode sharing t
        → InMode sharing (transmit p t command).1
    unfolding transmit
    transmit-InMode sharing t command w = record {
      said = w.said;
      kept = modes.exchanged t.buffer_size t.card command ∙ w.kept;
    }

    cycled-InMode :
        (sharing : Sharing) (t : PcscTransport p) (r : Outcome (Unit {0}) × p.Handle)
        → p.reconnect t.card (mode p t.sharing) p.protocols_any p.unpower_card ≡ r
        → InMode sharing t
        → InMode sharing (cycled p t r).1
    unfolding cycled
    cycled-InMode sharing t (done tt, card) e w =
        transmit-InMode sharing (record t { card = card }) _
          (record { said = w.said; kept = modes.reconnected _ _ _ _ card e ∙ ap (mode p) w.said })
    cycled-InMode sharing t (failed code, card) e w = record {
      said = w.said;
      kept = modes.not_reconnected _ _ _ _ card e ∙ w.kept;
    }

    power_cycle-InMode :
        (sharing : Sharing) (t : PcscTransport p)
        → InMode sharing t
        → InMode sharing (power_cycle p t).1
    unfolding power_cycle
    power_cycle-InMode sharing t w = cycled-InMode sharing t _ refl w

    open_card-InMode :
        (context : p.Context) (reader : Bytes) (sharing : Sharing) (s s' : p.Service)
        (card : Card (PcscTransport p))
        → open_card p context reader sharing s ≡ (ok card, s')
        → InMode sharing card.transport
    unfolding open_card new_transport
    open_card-InMode context reader sharing s s' card h =
        let (handle, s1, e, k) =
          step-eq-ok (serviced (p.connect_reader context reader (mode p sharing) p.protocols_any)) _
            s h in
        let opened =
          serviced-eq-ok (p.connect_reader context reader (mode p sharing) p.protocols_any) s e in
        let same : record { transport = new_transport p handle sharing } ≡ card = cc in
        subst (λ (x : Card (PcscTransport p)). InMode sharing x.transport) same
          (record { said = refl; kept = modes.connected context reader _ _ s s1 handle opened })

    Opened-InMode :
        (sharing : Sharing) (card : Card (PcscTransport p))
        → Opened sharing card
        → InMode sharing card.transport
    unfolding connect connect_any
    Opened-InMode sharing card (named reader s s' h) =
        let (context, s1, _, h1) = step-eq-ok (serviced p.establish) _ s h in
        let (names, s2, _, h2) = step-eq-ok (serviced (p.list_readers_owned context)) _ s1 h1 in
        let (name, s3, _, h3) =
          step-eq-ok (lift (ok_or (find_reader reader names) (reader_not_found reader))) _ s2 h2 in
        open_card-InMode context name sharing s3 s' card h3
    Opened-InMode sharing card (first s s' h) =
        let (context, s1, _, h1) = step-eq-ok (serviced p.establish) _ s h in
        let (names, s2, _, h2) = step-eq-ok (serviced (p.list_readers_owned context)) _ s1 h1 in
        let (name, s3, _, h3) = step-eq-ok (lift (ok_or (get_elem? names 0) no_reader)) _ s2 h2 in
        open_card-InMode context name sharing s3 s' card h3

    -- The connection is in the mode of the service that was asked for, and the transport says so.
    pub record Reserved (sharing : Sharing) (t : PcscTransport p) : Type 0 where
      pub said : t.sharing ≡ sharing
      pub when_shared : sharing ≡ shared → modes.mode_of t.card ≡ p.mode_shared
      pub when_exclusive : sharing ≡ exclusive → modes.mode_of t.card ≡ p.mode_exclusive

    InMode-Reserved :
        (sharing : Sharing) (t : PcscTransport p) → InMode sharing t → Reserved sharing t
    unfolding mode
    InMode-Reserved sharing t w = record {
      said = w.said;
      when_shared = λ e. w.kept ∙ ap (mode p) e;
      when_exclusive = λ e. w.kept ∙ ap (mode p) e;
    }

    Later-InMode :
        {sharing : Sharing} {card : Card (PcscTransport p)} {u : PcscTransport p}
        → Opened sharing card
        → Later card.transport u
        → InMode sharing u
    Later-InMode {sharing} {card} o here = Opened-InMode sharing card o
    Later-InMode {sharing} o (transmits {u} command r) =
        transmit-InMode sharing u command (Later-InMode o r)
    Later-InMode {sharing} o (power_cycles {u} r) = power_cycle-InMode sharing u (Later-InMode o r)

    -- A reservation is never handed back in silence. Where only a reconnection that succeeds changes
    -- the mode of a connection, and to the mode it is given, a card that connect or connect_any has
    -- opened stays in the mode that was asked for, the service's shared mode for shared and its
    -- exclusive mode for exclusive, and its transport says so, after any commands and power cycles,
    -- whether they succeed or fail.
    pub Later-Reserved :
        {sharing : Sharing} {card : Card (PcscTransport p)} {u : PcscTransport p}
        → Opened sharing card
        → Later card.transport u
        → Reserved sharing u
    Later-Reserved {sharing} {u = u} o r = InMode-Reserved sharing u (Later-InMode o r)
