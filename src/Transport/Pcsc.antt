-- ===== src/Transport/Pcsc.antt =====
-- src/transport/pcsc.rs: the PC/SC backend, over the crate `pcsc`.
pub mod Reservation
pub mod Readers
use myna_card.Prelude.{ℕ, Option, none, some, List, [], ◌∷◌, get_elem?, Bytes, if◌then◌else◌}
use mathlib.Core.List.{map}
use myna_card.Prelude.Compare.{same_bytes}
use myna_card.Prelude.Utf8.{utf8_lossy}
use myna_card.Error.{Error, Result, ok, err, pcsc, no_reader, reader_not_found, ok_or}
use myna_card.Action.{Action, pure, lift, ◌>>=◌}
use myna_card.Transport.{Transmit}
use myna_card.Card.{Card}

-- What a function of the service gives: a value, or the code of an error.
pub data Outcome (A : Type 0) : Type 0 where
  done : A → Outcome A
  failed : ℕ → Outcome A

-- The functions of the crate `pcsc`. The service and a connection are states that they change. The
-- name of a reader is its bytes, without the zero at its end.
pub record Pcsc : Type 1 where
  pub Service : Type 0
  pub Context : Type 0
  pub Handle : Type 0
  pub ShareMode : Type 0
  pub Protocols : Type 0
  pub Disposition : Type 0
  pub mode_shared : ShareMode
  pub mode_exclusive : ShareMode
  pub protocols_any : Protocols
  pub unpower_card : Disposition
  pub max_buffer_size_extended : ℕ
  pub establish : Service → Outcome Context × Service
  pub list_readers_owned : Context → Service → Outcome (List Bytes) × Service
  pub connect_reader : Context → Bytes → ShareMode → Protocols → Service → Outcome Handle × Service
  pub reconnect : Handle → ShareMode → Protocols → Disposition → Outcome (Unit {0}) × Handle
  -- With the size of the buffer that takes the answer.
  pub exchange : ℕ → Handle → Bytes → Outcome Bytes × Handle

-- `From<pcsc::Error>`
abbrev pub from_pcsc : {A : Type 0} → Outcome A → Result A
from_pcsc (done a) = ok a
from_pcsc (failed code) = err (pcsc code)

-- A function of the service, whose error is handed on by `?`.
abbrev pub serviced : {S A : Type 0} → (S → Outcome A × S) → Action S A
serviced f s = (from_pcsc (f s).0, (f s).1)

pub data Sharing : Type 0 where
  shared exclusive : Sharing

-- The closure of `find`: the first name that reads as the given one.
unfoldable pub find_reader : Bytes → List Bytes → Option Bytes
find_reader reader [] = none
find_reader reader (name ∷ names) =
    if same_bytes (utf8_lossy name) reader then some name else find_reader reader names

module _ (p : Pcsc) where
  unfoldable pub list_readers : Action p.Service (List Bytes)
  list_readers = do
    context ← serviced p.establish
    names ← serviced (p.list_readers_owned context)
    pure (map utf8_lossy names)

  -- `Sharing::mode`
  unfoldable pub mode : Sharing → p.ShareMode
  mode shared = p.mode_shared
  mode exclusive = p.mode_exclusive

  -- The buffer's content is overwritten by each answer, so its size is kept.
  pub record PcscTransport : Type 0 where
    pub card : p.Handle
    pub buffer_size : ℕ
    pub sharing : Sharing

  -- `PcscTransport::new`
  unfoldable pub new_transport : p.Handle → Sharing → PcscTransport
  new_transport card sharing = record {
    card = card;
    buffer_size = p.max_buffer_size_extended;
    sharing = sharing;
  }

  -- `open`
  unfoldable pub open_card : p.Context → Bytes → Sharing → Action p.Service (Card PcscTransport)
  unfolding mode new_transport
  open_card context reader sharing = do
    card ← serviced (p.connect_reader context reader (mode sharing) p.protocols_any)
    pure (record { transport = new_transport card sharing })

  unfoldable pub connect_any : Sharing → Action p.Service (Card PcscTransport)
  unfolding open_card
  connect_any sharing = do
    context ← serviced p.establish
    names ← serviced (p.list_readers_owned context)
    reader ← lift (ok_or (get_elem? names 0) no_reader)
    open_card context reader sharing

  unfoldable pub connect : Bytes → Sharing → Action p.Service (Card PcscTransport)
  unfolding find_reader open_card
  connect reader sharing = do
    context ← serviced p.establish
    names ← serviced (p.list_readers_owned context)
    name ← lift (ok_or (find_reader reader names) (reader_not_found reader))
    open_card context name sharing

  -- `Transmit::transmit`
  unfoldable pub transmit : PcscTransport → Bytes → Result Bytes × PcscTransport
  transmit t command =
      let (answer, card) = p.exchange t.buffer_size t.card command in
      (from_pcsc answer, record t { card = card })

  instance abbrev pub pcsc_link : Transmit PcscTransport
  unfolding transmit
  pcsc_link = record { transmit = transmit }

  -- What follows the reconnection: where it succeeds, a command whose answer is thrown away.
  unfoldable pub cycled :
      PcscTransport → Outcome (Unit {0}) × p.Handle → Result (Unit {0}) × PcscTransport
  unfolding transmit
  cycled t (done _, card) =
      (ok tt, (transmit (record t { card = card }) (0x00 ∷ 0xA4 ∷ 0x00 ∷ 0x00 ∷ [])).1)
  cycled t (failed code, card) = (err (pcsc code), record t { card = card })

  unfoldable pub power_cycle : Action PcscTransport (Unit {0})
  unfolding mode cycled
  power_cycle t = cycled t (p.reconnect t.card (mode t.sharing) p.protocols_any p.unpower_card)
