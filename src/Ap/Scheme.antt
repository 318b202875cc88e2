-- ===== src/Ap/Scheme.antt =====
-- src/ap/jpki.rs, `SignatureScheme`: what P1 of COMPUTE DIGITAL SIGNATURE selects.
use myna_card.Prelude.{ℕ, Bool, true, false, ◌&&◌, leb}

pub data SignatureScheme : Type 0 where
  verbatim sha256_bare pre_hashed_digest_info : SignatureScheme
  sha256_digest_info pre_hashed_pss sha256_pss : SignatureScheme

unfoldable pub p1 : SignatureScheme → ℕ
p1 verbatim = 0x00
p1 sha256_bare = 0x01
p1 pre_hashed_digest_info = 0x02
p1 sha256_digest_info = 0x03
p1 pre_hashed_pss = 0x04
p1 sha256_pss = 0x05

unfoldable pub hashes_on_card : SignatureScheme → Bool
hashes_on_card sha256_bare = true
hashes_on_card sha256_digest_info = true
hashes_on_card sha256_pss = true
hashes_on_card _ = false

-- The sizes of `data` that the scheme allows: at least, and at most.
abbrev allowed : SignatureScheme → ℕ × ℕ
allowed pre_hashed_digest_info = (32, 32)
allowed pre_hashed_pss = (32, 32)
allowed verbatim = (1, 245)
allowed _ = (1, 255)

-- `allowed.contains(&data.len())` of `check_input`.
unfoldable pub allows : SignatureScheme → ℕ → Bool
allows scheme size = leb (allowed scheme).0 size && leb size (allowed scheme).1
