-- ===== src/Card.antt =====
-- src/card.rs: operations on a connected card.
pub mod Exchange
pub mod Files
pub mod Keys
use myna_card.Prelude.{ℕ}

-- `Card<T>`: all that it keeps is the transport.
pub record Card (T : Type 0) : Type 0 where
  pub transport : T
