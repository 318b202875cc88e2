-- ===== src/Sm/Cipher.antt =====
-- The third-party code behind src/sm.rs: AES-128 in CBC mode of the crates `aes` and `cbc`, and
-- RSAES-OAEP of the crate `rsa`, whose random source picks one of its results.
use myna_card.Prelude.{◌%◌, ◌≡◌, length, Bytes}
use myna_card.Error.{Result}
use myna_card.Data.RsaKey.{RsaPublicKey}

-- The key, the initial vector, and whole blocks.
pub record Cipher : Type 0 where
  pub encrypt : Bytes → Bytes → Bytes → Bytes
  pub decrypt : Bytes → Bytes → Bytes → Bytes
  pub oaep : RsaPublicKey → Bytes → Result Bytes

-- What the documentation of a block cipher in CBC mode gives: whole blocks stay as many, and are
-- given back by decryption under the same key and initial vector.
pub record IsCipher (c : Cipher) : Type 0 where
  pub encrypted_size :
      (key iv blocks : Bytes)
      → length blocks % 16 ≡ 0
      → length (c.encrypt key iv blocks) ≡ length blocks
  pub decrypts :
      (key iv blocks : Bytes)
      → length blocks % 16 ≡ 0
      → c.decrypt key iv (c.encrypt key iv blocks) ≡ blocks
