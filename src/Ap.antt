-- ===== src/Ap.antt =====
-- src/ap: the applications on the card.
pub mod Scheme
pub mod Token
pub mod Jpki
pub mod CardInfo
pub mod Common
pub mod Surface
pub mod Text
pub mod Juki
