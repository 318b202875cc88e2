-- ===== src/Examples/Readers.antt =====
-- A service with two readers, of which the second has a card.
use myna_card.Prelude.{ℕ, ◌≡◌, refl, [], ◌∷◌, List, Bytes}
use myna_card.Prelude.Compare.{same_bytes}
use myna_card.Prelude.Utf8.{utf8_lossy}
use myna_card.Error.{ok}
use myna_card.Card.{Card}
use myna_card.Transport.Pcsc.{
  Pcsc, done, failed, exclusive, mode, PcscTransport, new_transport, find_reader, open_card,
  connect, power_cycle, transmit,
}
use myna_card.Transport.Pcsc.Reservation.{
  HasModes, named, here, transmits, power_cycles, Reserved, Later-Reserved,
}

abbrev reader_names : List Bytes
reader_names = (b'A' ∷ []) ∷ (b'B' ∷ []) ∷ []

-- A connection is its mode: 1 where others may hold the card too, 2 where not.
abbrev toy_service : Pcsc
toy_service = record {
  Service = Unit {0};
  Context = Unit {0};
  Handle = ℕ;
  ShareMode = ℕ;
  Protocols = Unit {0};
  Disposition = Unit {0};
  mode_shared = 1;
  mode_exclusive = 2;
  protocols_any = tt;
  unpower_card = tt;
  max_buffer_size_extended = 65556;
  establish = λ s. (done tt, s);
  list_readers_owned = λ context s. (done reader_names, s);
  connect_reader = λ context reader m protocols s. (done m, s);
  reconnect = λ h m protocols d. (done tt, m);
  exchange = λ size h command. (failed 7, h);
}

toy_modes : HasModes toy_service
toy_modes = record {
  mode_of = λ h. h;
  connected = λ context reader m protocols s s' h e. cc;
  reconnected = λ h m protocols d h' e. cc;
  not_reconnected = λ h m protocols d h' e. cc;
  exchanged = λ size h command. refl;
}

abbrev opened : Card (PcscTransport toy_service)
opened = record { transport = record { card = 2; buffer_size = 65556; sharing = exclusive } }

opens_second : connect toy_service (b'B' ∷ []) exclusive tt ≡ (ok opened, tt)
unfolding connect find_reader open_card new_transport mode same_bytes utf8_lossy
opens_second = refl

Later-Reserved_example :
    Reserved toy_service toy_modes exclusive
      (power_cycle toy_service (transmit toy_service opened.transport (0x00 ∷ [])).1).1
Later-Reserved_example =
    Later-Reserved toy_service toy_modes (named (b'B' ∷ []) tt tt opens_second)
      (power_cycles (transmits (0x00 ∷ []) here))
