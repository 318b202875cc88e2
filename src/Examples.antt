-- ===== src/Examples.antt =====
-- Concrete commands, responses, objects and cards, on which the theorems are used.
pub mod Apdus
pub mod Objects
pub mod Secrets
pub mod Exchanges
pub mod FileCards
pub mod Answers
pub mod Sessions
pub mod Files
pub mod Dates
pub mod Roots
pub mod Signed
pub mod Readers
pub mod Signing
pub mod Ages
