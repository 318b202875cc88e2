-- ===== src/Data.antt =====
-- src/data.rs, src/ca.rs: the values that the card stores.
pub mod KeyId
pub mod RsaKey
pub mod Date
pub mod Person
pub mod ApIdentification
pub mod Image
pub mod Signature
pub mod Authority
pub mod Certificate
pub mod Fields
