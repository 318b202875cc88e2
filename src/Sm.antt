-- ===== src/Sm.antt =====
-- src/sm.rs: secure messaging with the application for the entry of card face information.
pub mod Padding
pub mod Cryptogram
pub mod Cipher
pub mod Session
