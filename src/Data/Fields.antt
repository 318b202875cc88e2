-- ===== src/Data/Fields.antt =====
-- src/data.rs, `check_offsets` and `TlvFields`: the objects of one of the data files.
pub mod Rounds
pub mod Signed
pub mod Placed
pub mod Tables
pub mod Written
pub mod Anywhere
pub mod Covered
use myna_card.Prelude.{
  ℕ, zero, suc, ◌+◌, ◌*◌, ◌||◌, Bool, true, false, Option, none, some, List, [], ◌∷◌, ◌++◌, length,
  get_elem?, take, drop, get_range?, Bytes, ◌==◌, if◌then◌else◌,
}
use myna_card.Prelude.Words.{from_be_bytes}
use myna_card.Error.{Result, ok, err, stuck, ◌>>=◌, ◌>>◌, guard, ok_or, malformed}
use myna_card.Tlv.Ber.{Header, total_len, parse_header}
use myna_card.Tlv.Ber

-- The loop of `check_offsets`, from the `i`th object on. A last single byte is no chunk.
unfoldable pub compare_offsets : ℕ → Bytes → List ℕ → Result (Unit {0})
compare_offsets i (hi ∷ lo ∷ table) (start ∷ starts) =
    guard (from_be_bytes (hi ∷ lo ∷ []) == start) (
      malformed "offset {i} says {declared:#06X} but the object starts at {start:#06X}"
        (i ∷ from_be_bytes (hi ∷ lo ∷ []) ∷ start ∷ []))
    >> compare_offsets (i + 1) table starts
compare_offsets i table starts = ok tt

unfoldable pub check_offsets : Bytes → List ℕ → Result (Unit {0})
unfolding compare_offsets
check_offsets table starts =
    guard (length table == length starts * 2)
      (malformed "offset table is {} bytes for {} objects" (length table ∷ length starts ∷ []))
    >> compare_offsets 0 table starts

-- An object of the file: its tag, its value, and its own bytes with the header.
pub record Field : Type 0 where
  pub tag : ℕ
  pub value : Bytes
  pub raw : Bytes

-- What the loop of `parse` has found: the offset table, the fields, and where each begins.
pub record Found : Type 0 where
  pub offsets : Option Bytes
  pub fields : List Field
  pub starts : List ℕ

-- `Some(tag) == offset_table`
abbrev pub is_table : ℕ → Option ℕ → Bool
is_table tag none = false
is_table tag (some t) = tag == t

-- A field in front of the others, and a table, which a later one replaces.
abbrev pub in_front : Bool → Field → ℕ → Found → Found
in_front true f pos found = record {
  offsets = elim found.offsets [ none ↦ some f.value | some later ↦ some later ];
  fields = found.fields;
  starts = found.starts;
}
in_front false f pos found = record {
  offsets = found.offsets;
  fields = f ∷ found.fields;
  starts = pos ∷ found.starts;
}

abbrev pub nothing_found : Found
nothing_found = record { offsets = none; fields = []; starts = [] }

-- The object behind a header at the beginning of `rest`, and how many bytes the two take.
abbrev pub field_behind : Bytes → Header → Result (ℕ × Field)
field_behind rest header = do
  value ←
      ok_or (get_range? rest header.header_len (total_len header))
        (malformed "a field runs past the end of the file" [])
  ok (
    total_len header,
    record { tag = header.tag; value = value; raw = take (total_len header) rest },
  )

unfoldable pub read_field : Bytes → Result (ℕ × Field)
read_field rest = parse_header rest >>= field_behind rest

-- The loop of `parse` over `rest`, which begins at `pos` of the file. It stops at filler.
unfoldable pub field_loop : ℕ → Option ℕ → Bytes → ℕ → Result Found
unfolding read_field
field_loop zero table rest pos = stuck
field_loop (suc fuel) table [] pos = ok nothing_found
field_loop (suc fuel) table (first ∷ bytes) pos =
    if first == 0x00 || first == 0xFF then ok nothing_found else do
      read ← read_field (first ∷ bytes)
      found ← field_loop fuel table (drop read.0 (first ∷ bytes)) (pos + read.0)
      ok (in_front (is_table read.1.tag table) read.1 pos found)

abbrev pub checked_fields : Found → Result (List Field)
checked_fields found = elim found.offsets [
  | none ↦ ok found.fields
  | some table ↦ check_offsets table found.starts >> ok found.fields
]

-- Each object takes two bytes at least, so as many rounds as bytes and one more are enough.
unfoldable pub parse_fields : Bytes → ℕ → Option ℕ → Result (List Field)
unfolding field_loop
parse_fields raw expected_tag table = do
  outer ← Ber.parse raw
  guard (outer.tag == expected_tag)
      (malformed "expected tag {expected_tag:04X}, got {:04X}" (expected_tag ∷ outer.tag ∷ []))
  header ← parse_header raw
  found ← field_loop (suc (length outer.value)) table outer.value header.header_len
  checked_fields found

-- `iter().find(..)`: the first field of a tag.
unfoldable pub find_field : List Field → ℕ → Result Field
find_field [] tag = err (malformed "no field with tag {tag:04X}" (tag ∷ []))
find_field (f ∷ fs) tag = if f.tag == tag then ok f else find_field fs tag

unfoldable pub get : List Field → ℕ → Result Bytes
unfolding find_field
get fs tag = do f ← find_field fs tag; ok f.value

-- The bytes of every field before the first of a tag.
unfoldable pub bytes_before : List Field → ℕ → Result Bytes
bytes_before [] tag = err (malformed "no field with tag {tag:04X}" (tag ∷ []))
bytes_before (f ∷ fs) tag =
    if f.tag == tag then ok [] else do out ← bytes_before fs tag; ok (f.raw ++ out)

-- The bytes of the fields of the given tags, one after the other.
unfoldable pub bytes_of : List Field → List ℕ → Result Bytes
unfolding find_field
bytes_of fs [] = ok []
bytes_of fs (tag ∷ tags) = do f ← find_field fs tag; out ← bytes_of fs tags; ok (f.raw ++ out)
