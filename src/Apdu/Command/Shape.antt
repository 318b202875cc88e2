-- ===== src/Apdu/Command/Shape.antt =====
-- The size and the contents of an encoded command.
use myna_card.Prelude.{
  ℕ, ◌+◌, ◌≤◌, ◌≡◌, Bool, true, false, Option, none, some, [], ◌∷◌, length, length-append,
  All-append, Bytes, IsByte, All, arith,
}
use myna_card.Error.{ok}
use myna_card.Apdu.Command.{Command, is_extended, lc_and_data, le_field, check_le, to_bytes}
use myna_card.Apdu.Command.Checks.{encoding}

pub record HasBytes (c : Command) : Type 0 where
  pub cla : IsByte c.cla
  pub ins : IsByte c.ins
  pub p1 : IsByte c.p1
  pub p2 : IsByte c.p2
  pub data_field : All IsByte c.data_field

lc_and_data-IsByte :
    (extended : Bool) (d : Bytes) → All IsByte d → All IsByte (lc_and_data extended d)
unfolding lc_and_data
lc_and_data-IsByte extended [] h = h
lc_and_data-IsByte true (b ∷ bs) h = (omega arith, (omega arith, (omega arith, h)))
lc_and_data-IsByte false (b ∷ bs) h = (omega arith, h)

le_field-IsByte :
    (extended : Bool) (d : Bytes) (le : Option ℕ) → All IsByte (le_field extended d le)
unfolding le_field
le_field-IsByte extended d none = tt
le_field-IsByte true [] (some le) = omega arith
le_field-IsByte true (b ∷ bs) (some le) = omega arith
le_field-IsByte false d (some le) = omega arith

length-lc_and_data : (extended : Bool) (d : Bytes) → length (lc_and_data extended d) ≤ length d + 3
unfolding lc_and_data
length-lc_and_data extended [] = omega arith
length-lc_and_data true (b ∷ bs) = omega arith
length-lc_and_data false (b ∷ bs) = omega arith

length-le_field :
    (extended : Bool) (d : Bytes) (le : Option ℕ)
    → length (lc_and_data extended d) + length (le_field extended d le) ≤ length d + 5
unfolding lc_and_data le_field
length-le_field extended [] none = omega arith
length-le_field extended (b ∷ bs) none = ground arith
length-le_field true [] (some le) = omega arith
length-le_field true (b ∷ bs) (some le) = omega arith
length-le_field false [] (some le) = omega arith
length-le_field false (b ∷ bs) (some le) = omega arith

to_bytes-encoding : (c : Command) {bs : Bytes} → to_bytes c ≡ ok bs → bs ≡ encoding c
unfolding to_bytes check_le
to_bytes-encoding c h = ground arith

-- The bytes of a command whose header and data field are bytes are bytes again: no length is cut
-- into a value that does not fit. They are at most nine more than the data field has.
to_bytes_shape :
    (c : Command) (bs : Bytes)
    → HasBytes c
    → to_bytes c ≡ ok bs
    → All IsByte bs × (length bs ≤ length c.data_field + 9)
to_bytes_shape c bs h e =
    let lc : Bytes = lc_and_data (is_extended c) c.data_field in
    let le : Bytes = le_field (is_extended c) c.data_field c.le in
    rw (to_bytes-encoding c e) (
      (
        h.cla,
        (
          h.ins,
          (
            h.p1,
            (
              h.p2,
              All-append IsByte lc le (lc_and_data-IsByte _ _ h.data_field)
                  (le_field-IsByte _ _ c.le),
            ),
          ),
        ),
      ),
      omega (arith, length-append lc le, length-le_field (is_extended c) c.data_field c.le),
    )
