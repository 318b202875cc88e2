-- ===== src/Apdu/Command/RoundTrip.antt =====
-- A command that `to_bytes` writes is read back by the standard's rules.
use myna_card.Prelude.{
  ℕ, ◌≤◌, ◌<◌, ◌%◌, ◌^◌, ◌≡◌, ◌≢◌, refl, ap, Option, none, some, [], ◌∷◌, ◌++◌, length,
  length-append, take-append, drop-append, append-nil, Bytes, ◌||◌, ltb, arith,
}
use myna_card.Prelude.Words.{to_be_bytes, from_be_bytes}
use myna_card.Error.{ok}
use myna_card.Apdu.Command.{Command, lc_and_data, le_field, to_bytes, wide_le, is_extended}
use myna_card.Apdu.Command.Checks.{LeFits, IsSendable, to_bytes-eq-ok}
use myna_card.Apdu.Command.Decode.{body, with_body, decode}

-- The body that a data field and an Le give in the form that `to_bytes` picks.
abbrev body_of : Bytes → Option ℕ → Bytes
body_of d le =
    let extended = ltb 255 (length d) || wide_le le in
    lc_and_data extended d ++ le_field extended d le

body-no_le :
    (b : ℕ) (bs : Bytes) → length bs < 65535 → body (body_of (b ∷ bs) none) ≡ some (b ∷ bs, none)
unfolding lc_and_data le_field body
body-no_le b bs h = ground (arith, append-nil bs)

-- The short form: one byte Lc, the data, one byte Le.
short_case :
    (bs : Bytes) (le : ℕ)
    → length bs ≢ 0
    → length bs ≤ 255
    → 0 < le
    → le ≤ 256
    → body ((length bs % 2 ^ 8) ∷ (bs ++ (le % 2 ^ 8) ∷ [])) ≡ some (bs, some le)
unfolding body
short_case [] le ne h l u = absurd (ne refl)
short_case (b ∷ bs) le ne h l u =
    let tail : Bytes = (le % 2 ^ 8) ∷ [] in
    let n : ℕ = length (b ∷ bs) in
    ground
      (arith, length-append (b ∷ bs) tail, take-append (b ∷ bs) tail n, drop-append (b ∷ bs) tail n)

-- The extended form: a zero, two bytes Lc, the data, two bytes Le.
extended_case :
    (bs : Bytes) (le : ℕ)
    → length bs ≢ 0
    → length bs ≤ 65535
    → 0 < le
    → le ≤ 65536
    → body (0 ∷ (to_be_bytes (length bs) ++ (bs ++ to_be_bytes le))) ≡ some (bs, some le)
unfolding body
extended_case [] le ne h l u = absurd (ne refl)
extended_case (b ∷ bs) le ne h l u =
    let n : ℕ = from_be_bytes (to_be_bytes (length (b ∷ bs))) in
    let tail : Bytes = to_be_bytes le in
    ground
      (arith, length-append (b ∷ bs) tail, take-append (b ∷ bs) tail n, drop-append (b ∷ bs) tail n)

body-le :
    (b : ℕ) (bs : Bytes) (le : ℕ)
    → length bs < 65535
    → 0 < le
    → le ≤ 65536
    → body (body_of (b ∷ bs) (some le)) ≡ some (b ∷ bs, some le)
unfolding lc_and_data le_field
body-le b bs le h l u = ground (arith, short_case (b ∷ bs) le, extended_case (b ∷ bs) le)

body-body_of :
    (d : Bytes) (le : Option ℕ) → length d ≤ 65535 → LeFits le → body (body_of d le) ≡ some (d, le)
body-body_of [] none h f = unfold body lc_and_data le_field in refl
body-body_of [] (some le) h f = unfold body lc_and_data le_field in ground arith
body-body_of (b ∷ bs) none h f = body-no_le b bs h
body-body_of (b ∷ bs) (some le) h f = body-le b bs le h f.0 f.1

-- Every command whose data field has at most 65535 bytes and whose Le is absent or from 1 to 65536
-- is encoded, and the standard's reader gets the very same command back from the bytes, its data
-- field and Le included, in each of the seven forms.
pub decode-to_bytes :
    (c : Command) → IsSendable c → (bs : Bytes) × (to_bytes c ≡ ok bs) × (decode bs ≡ some c)
decode-to_bytes c h = (
  _,
  to_bytes-eq-ok c h,
  unfold decode is_extended in
      ap (with_body c.cla c.ins c.p1 c.p2) (body-body_of c.data_field c.le h.data_field h.le),
)
