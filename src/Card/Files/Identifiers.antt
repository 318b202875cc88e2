-- ===== src/Card/Files/Identifiers.antt =====
-- Which file identifiers have a short form.
use myna_card.Prelude.{ℕ, ◌≤◌, ◌≡◌, arith}
use myna_card.Error.{ok}
use myna_card.Card.Files.{from_ef_id}

-- From 1 to 30 an identifier is its own short form.
pub from_ef_id-short :
    (key : ℕ) → 1 ≤ key → key ≤ 0x1E → from_ef_id key ≡ ok (record { value = key })
unfolding from_ef_id
from_ef_id-short key lo hi = ground arith
