-- ===== src/Transport.antt =====
-- src/transport: the link that carries APDUs.
pub mod Mock
pub mod Pcsc
use myna_card.Prelude.{Bytes}
use myna_card.Error.{Result}

-- `trait Transmit`: the answer to the bytes of a command, and the transport after it.
pub record Transmit (T : Type 0) : Type 0 where
  pub transmit : T → Bytes → Result Bytes × T
