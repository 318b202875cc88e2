-- ===== src/Data/KeyId.antt =====
-- src/data.rs, `KeyId`: the sixteen byte name of a key. Its parser is in KeyId/Reading.antt,
-- its texts are in KeyId/Text.antt.
pub mod Reading
pub mod Text
use myna_card.Prelude.{Bytes}

pub record KeyId : Type 0 where
  pub bytes : Bytes
