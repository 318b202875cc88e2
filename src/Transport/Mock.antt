-- ===== src/Transport/Mock.antt =====
-- src/transport/mock.rs: a transport that replays a script of responses.
use myna_card.Prelude.{Bool, true, false, List, [], ◌∷◌, ◌++◌, Bytes}
use myna_card.Error.{Result, ok}
use myna_card.Transport.{Transmit}

pub record MockTransport : Type 0 where
  pub responses : List Bytes
  pub sent : List Bytes

unfoldable pub new : List Bytes → MockTransport
new responses = record { responses = responses; sent = [] }

unfoldable pub push : MockTransport → Bytes → MockTransport
push m response = record m { responses = m.responses ++ (response ∷ []) }

unfoldable pub is_drained : MockTransport → Bool
is_drained m = elim m.responses [ [] ↦ true | _ ∷ _ ↦ false ]

-- `pop_front`, and 6F00 for an exhausted script.
abbrev pub front : List Bytes → Bytes
front [] = 0x6F ∷ 0x00 ∷ []
front (r ∷ rs) = r

abbrev pub behind_front : List Bytes → List Bytes
behind_front [] = []
behind_front (r ∷ rs) = rs

abbrev pub transmit : MockTransport → Bytes → Result Bytes × MockTransport
transmit m command = (
  ok (front m.responses),
  record { responses = behind_front m.responses; sent = m.sent ++ (command ∷ []) },
)

instance abbrev pub mock_link : Transmit MockTransport
mock_link = record { transmit = transmit }
