-- ===== src/Apdu/Command/Checks.antt =====
-- Which commands `to_bytes` encodes, and what it writes for them.
use myna_card.Prelude.{
  ℕ, ◌≤◌, ◌<◌, ◌%◌, [], ◌≡◌, ◌≢◌, refl, Option, none, some, ◌∷◌, ◌++◌, length, append-nil, Bytes,
  ◌⊎◌, ◌↔◌, arith,
}
use myna_card.Error.{Error, ok, err, stuck, data_too_long, expected_length_out_of_range}
use myna_card.Apdu.Command.{
  Command, case1, with_data, with_le, is_extended, lc_and_data, le_field, check_le, to_bytes,
}

-- Le is absent or within its limits.
abbrev pub LeFits : Option ℕ → Type 0
LeFits none = Unit
LeFits (some le) = (0 < le) × (le ≤ 65536)

-- What an APDU can carry.
pub record IsSendable (c : Command) : Type 0 where
  pub data_field : length c.data_field ≤ 65535
  pub le : LeFits c.le

-- The bytes that `to_bytes` writes when its checks pass.
abbrev pub encoding : Command → Bytes
encoding c =
    c.cla
    ∷ c.ins
    ∷ c.p1
    ∷ c.p2
    ∷ (lc_and_data (is_extended c) c.data_field ++ le_field (is_extended c) c.data_field c.le)

check_le-LeFits : (le : Option ℕ) → LeFits le → check_le le ≡ ok tt
unfolding check_le
check_le-LeFits none h = refl
check_le-LeFits (some le) h = ground arith

pub to_bytes-eq-ok : (c : Command) → IsSendable c → to_bytes c ≡ ok (encoding c)
unfolding to_bytes
to_bytes-eq-ok c h = ground (arith, check_le-LeFits c.le h.le, h.data_field)

-- Why a command is refused, and with which error.
abbrev pub Refused : Command → Error → Type 0
Refused c (data_too_long n) = (n ≡ length c.data_field) × (65535 < n)
Refused c (expected_length_out_of_range n) =
    (length c.data_field ≤ 65535) × (c.le ≡ some n) × ((n ≡ 0) ⊎ (65536 < n))
Refused c _ = ⊥

refuses : (c : Command) (e : Error) → to_bytes c ≡ err e → Refused c e
unfolding to_bytes check_le
refuses c (data_too_long n) h = ground arith
refuses c (expected_length_out_of_range n) h = ground arith
refuses c _ h = ground arith

refused : (c : Command) (e : Error) → Refused c e → to_bytes c ≡ err e
unfolding to_bytes check_le
refused c (data_too_long n) r = ground arith
refused c (expected_length_out_of_range n) r = ground arith
refused c _ r = absurd r

-- An encoding fails exactly in two cases: with `DataTooLong` and the length of a data field above
-- 65535 bytes, or, the data field being in order, with `ExpectedLengthOutOfRange` and an Le that is
-- zero or above 65536.
pub to_bytes-Refused : (c : Command) (e : Error) → (to_bytes c ≡ err e) ↔ Refused c e
to_bytes-Refused c e = (refuses c e, refused c e)

pub to_bytes-ne-stuck : (c : Command) → to_bytes c ≢ stuck
unfolding to_bytes check_le
to_bytes-ne-stuck c e = ground arith

pub encoding-with_le :
    (cla ins p1 p2 le : ℕ)
    → le ≤ 256
    → encoding (with_le cla ins p1 p2 le) ≡ cla ∷ ins ∷ p1 ∷ p2 ∷ (le % 256) ∷ []
unfolding is_extended lc_and_data le_field
encoding-with_le cla ins p1 p2 le h = ground arith

pub encoding-case1 : (cla ins p1 p2 : ℕ) → encoding (case1 cla ins p1 p2) ≡ cla ∷ ins ∷ p1 ∷ p2 ∷ []
unfolding is_extended lc_and_data le_field
encoding-case1 cla ins p1 p2 = refl

-- The short form of a command with a data field and no Le.
pub encoding-with_data :
    (cla ins p1 p2 : ℕ) (d : Bytes)
    → 0 < length d
    → length d ≤ 255
    → encoding (with_data cla ins p1 p2 d) ≡ cla ∷ ins ∷ p1 ∷ p2 ∷ length d ∷ d
unfolding is_extended lc_and_data le_field
encoding-with_data cla ins p1 p2 [] h k = absurd (omega arith)
encoding-with_data cla ins p1 p2 (b ∷ bs) h k = ground (arith, append-nil bs)
