-- ===== src/Apdu/Command.antt =====
-- src/apdu.rs, `Command` and the class bytes: command APDUs and their encoding.
pub mod Decode
pub mod Checks
pub mod Shape
pub mod RoundTrip
use myna_card.Prelude.{
  ℕ, ◌%◌, ◌^◌, Bool, true, false, not, ◌||◌, Option, none, some, [], ◌∷◌, ◌++◌, length, Bytes, ltb,
  leb, ◌==◌, if◌then◌else◌, bit_and, bit_or,
}
use myna_card.Prelude.Words.{to_be_bytes}
use myna_card.Error.{Result, ok, ◌>>◌, guard, data_too_long, expected_length_out_of_range}

-- `mod cla`
abbrev pub user : ℕ
user = 0x00

abbrev pub system : ℕ
system = 0x80

abbrev pub sm_without_integrity : ℕ
sm_without_integrity = 0x08

abbrev pub sm_with_integrity : ℕ
sm_with_integrity = 0x0C

unfoldable pub with_channel : ℕ → ℕ → ℕ
with_channel cla channel = bit_or (bit_and cla 0xFC) (bit_and channel 0x03)

-- `data_field` is the source's `data`.
pub record Command : Type 0 where
  pub cla : ℕ
  pub ins : ℕ
  pub p1 : ℕ
  pub p2 : ℕ
  pub data_field : Bytes
  pub le : Option ℕ

-- `Command::new`
abbrev pub case1 : ℕ → ℕ → ℕ → ℕ → Command
case1 cla ins p1 p2 = record { cla = cla; ins = ins; p1 = p1; p2 = p2; data_field = []; le = none }

abbrev pub with_le : ℕ → ℕ → ℕ → ℕ → ℕ → Command
with_le cla ins p1 p2 le = record {
  cla = cla;
  ins = ins;
  p1 = p1;
  p2 = p2;
  data_field = [];
  le = some le;
}

abbrev pub with_data : ℕ → ℕ → ℕ → ℕ → Bytes → Command
with_data cla ins p1 p2 bytes = record {
  cla = cla;
  ins = ins;
  p1 = p1;
  p2 = p2;
  data_field = bytes;
  le = none;
}

abbrev pub with_data_le : ℕ → ℕ → ℕ → ℕ → Bytes → ℕ → Command
with_data_le cla ins p1 p2 bytes le = record {
  cla = cla;
  ins = ins;
  p1 = p1;
  p2 = p2;
  data_field = bytes;
  le = some le;
}

-- `if let Some(le) = self.le { if le == 0 || le > 65536 { return Err(..) } }`
pub check_le : Option ℕ → Result (Unit {0})
check_le none = ok tt
check_le (some le) = guard (not (le == 0 || ltb 65536 le)) (expected_length_out_of_range le)

-- `self.le.is_some_and(|le| le > 256)`
abbrev wide_le : Option ℕ → Bool
wide_le none = false
wide_le (some le) = ltb 256 le

pub is_extended : Command → Bool
is_extended c = ltb 255 (length c.data_field) || wide_le c.le

-- Lc and the data field: nothing for an empty data field.
pub lc_and_data : Bool → Bytes → Bytes
lc_and_data extended [] = []
lc_and_data extended (b ∷ bs) =
    let n = length (b ∷ bs) in
    if extended then 0x00 ∷ (to_be_bytes n ++ b ∷ bs) else (n % 2 ^ 8) ∷ b ∷ bs

-- In the extended form a zero stands before Le where no Lc does.
pub le_field : Bool → Bytes → Option ℕ → Bytes
le_field extended bytes none = []
le_field true [] (some le) = 0x00 ∷ to_be_bytes le
le_field true (b ∷ bs) (some le) = to_be_bytes le
le_field false bytes (some le) = (le % 2 ^ 8) ∷ []

unfoldable pub to_bytes : Command → Result Bytes
unfolding check_le is_extended lc_and_data le_field
to_bytes c = do
  guard (leb (length c.data_field) 0xFFFF) (data_too_long (length c.data_field))
  check_le c.le
  let extended = is_extended c
  ok (
      c.cla
      ∷ c.ins
      ∷ c.p1
      ∷ c.p2
      ∷ (lc_and_data extended c.data_field ++ le_field extended c.data_field c.le))
