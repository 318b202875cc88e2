-- ===== src/Apdu.antt =====
-- src/apdu.rs: command and response APDUs and the status word, with no link to a card.
pub mod Status
pub mod Command
pub mod Response
