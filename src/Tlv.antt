-- ===== src/Tlv.antt =====
-- src/tlv: the two TLV encodings of the card.
pub mod Simple
pub mod Ber
