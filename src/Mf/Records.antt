-- ===== src/Mf/Records.antt =====
-- src/mf.rs: the records of the master file's files.
use myna_card.Prelude.{
  ℕ, not, Bool, Option, none, some, List, [], ◌∷◌, ◌++◌, length, take, Bytes, String, ◌==◌,
  if◌then◌else◌, bit_and,
}
use myna_card.Prelude.Words.{from_be_bytes}
use myna_card.Prelude.Utf8.{is_utf8}
use myna_card.Error.{Result, ok, err, stuck, ◌>>=◌, ◌>>◌, guard, ok_or, malformed}
use myna_card.Tlv.Simple.{Tlv, items, find, tag_unused}

-- `(self.0 & mask) != 0`
abbrev pub has_bit : ℕ → ℕ → Bool
has_bit flags mask = not (bit_and flags mask == 0)

pub record Algorithms : Type 0 where
  pub flags : ℕ

unfoldable pub des : Algorithms → Bool
des a = has_bit a.flags 0x01

unfoldable pub rsa : Algorithms → Bool
rsa a = has_bit a.flags 0x02

unfoldable pub feal : Algorithms → Bool
feal a = has_bit a.flags 0x04

unfoldable pub triple_des : Algorithms → Bool
triple_des a = has_bit a.flags 0x08

pub record OptionalFunctions : Type 0 where
  pub flags : ℕ

unfoldable pub delete_df : OptionalFunctions → Bool
delete_df o = has_bit o.flags 0x01

unfoldable pub check_ief_creation : OptionalFunctions → Bool
check_ief_creation o = has_bit o.flags 0x02

unfoldable pub unused_df_memory_size_check : OptionalFunctions → Bool
unused_df_memory_size_check o = has_bit o.flags 0x04

unfoldable pub secure_messaging_confidentiality : OptionalFunctions → Bool
secure_messaging_confidentiality o = has_bit o.flags 0x08

unfoldable pub secure_messaging_integrity : OptionalFunctions → Bool
secure_messaging_integrity o = has_bit o.flags 0x10

unfoldable pub secure_messaging_both : OptionalFunctions → Bool
secure_messaging_both o = has_bit o.flags 0x20

unfoldable pub ecb_mode : OptionalFunctions → Bool
ecb_mode o = has_bit o.flags 0x40

unfoldable pub cbc_mode : OptionalFunctions → Bool
cbc_mode o = has_bit o.flags 0x80

pub record SpecVersion : Type 0 where
  pub code : ℕ

-- `SpecVersion::name`
unfoldable pub version_name : SpecVersion → Option String
version_name v = if v.code == 0x01 then some "1.0" else if v.code == 0x02 then some "1.1" else none

pub record CardIdentifier : Type 0 where
  pub manufacturer : ℕ
  pub algorithms : Algorithms
  pub version : SpecVersion
  pub optional_functions : Option OptionalFunctions
  pub proprietary : Option Bytes

-- `<[u8; 3]>::try_from`
abbrev pub three_bytes : String → Bytes → Result (ℕ × ℕ × ℕ)
three_bytes message (a ∷ b ∷ c ∷ []) = ok (a, b, c)
three_bytes message bytes = err (malformed message (length bytes ∷ []))

-- The first byte of a record, where there is one.
abbrev pub first_flags : Option Bytes → Option OptionalFunctions
first_flags (some (b ∷ bs)) = some (record { flags = b })
first_flags found = none

-- `CardIdentifier::parse`
unfoldable pub parse_card_identifier : Bytes → Result CardIdentifier
parse_card_identifier bytes = do
  found ← find bytes 0x00
  manufacturer_record ←
      ok_or found (malformed "card identifier has no manufacturer record (tag 00)" [])
  (manufacturer, algorithms, version) ←
      three_bytes "manufacturer record must be 3 bytes, got {}" manufacturer_record
  optional_functions ← find bytes 0x01
  proprietary ← find bytes 0x02
  ok (record {
    manufacturer = manufacturer;
    algorithms = record { flags = algorithms };
    version = record { code = version };
    optional_functions = first_flags optional_functions;
    proprietary = proprietary;
  })

pub record ApplicationFolders : Type 0 where
  pub own_name : Bytes
  pub children : List Bytes

abbrev pub tag_self : ℕ
tag_self = 0x01

abbrev pub tag_child : ℕ
tag_child = 0x02

-- `ApplicationFolders::TAG_INVALID`
abbrev pub tag_invalidated : ℕ
tag_invalidated = 0xFE

-- What a record of the list adds.
unfoldable pub add_folder : Tlv → ApplicationFolders → Result ApplicationFolders
add_folder t folders =
    if t.tag == tag_self
    then ok (record { own_name = t.value; children = folders.children })
    else if t.tag == tag_child
    then ok (record { own_name = folders.own_name; children = folders.children ++ (t.value ∷ []) })
    else if t.tag == tag_invalidated
    then ok folders
    else if t.tag == tag_unused
    then ok folders
    else err (malformed "unexpected tag {other:02X} in an application folder list" (t.tag ∷ []))

-- The loop of `ApplicationFolders::parse`.
unfoldable pub folder_loop : List (Result Tlv) → ApplicationFolders → Result ApplicationFolders
unfolding add_folder
folder_loop [] folders = ok folders
folder_loop (ok t ∷ rest) folders = do more ← add_folder t folders; folder_loop rest more
folder_loop (err e ∷ rest) folders = err e
folder_loop (stuck ∷ rest) folders = stuck

-- `ApplicationFolders::parse`
unfoldable pub parse_folders : Bytes → Result ApplicationFolders
unfolding folder_loop
parse_folders bytes = folder_loop (items bytes) (record { own_name = []; children = [] })

pub record IcManufacturerId : Type 0 where
  pub embedder : Bytes
  pub ic_manufacturer : ℕ
  pub ic_type : ℕ

-- `IcManufacturerId::parse`
unfoldable pub parse_manufacturer : Bytes → Result IcManufacturerId
parse_manufacturer bytes = do
  found ← find bytes 0x45
  embedder ← ok_or found (malformed "no embedder record (tag 45)" [])
  guard (length embedder == 5)
      (malformed "embedder record must be 5 bytes, got {}" (length embedder ∷ []))
  found' ← find bytes 0x46
  manufacturer ← ok_or found' (malformed "no IC manufacturer record (tag 46)" [])
  (ic_manufacturer, type_hi, type_lo) ←
      three_bytes "IC manufacturer record must be 3 bytes, got {}" manufacturer
  ok (record {
    embedder = embedder;
    ic_manufacturer = ic_manufacturer;
    ic_type = from_be_bytes (type_hi ∷ type_lo ∷ []);
  })

-- `IcManufacturerId::country`
unfoldable pub country : IcManufacturerId → Option Bytes
country id = if is_utf8 (take 2 id.embedder) then some (take 2 id.embedder) else none
