-- ===== src/Ap/Token.antt =====
-- src/ap/jpki.rs: what answers as the JPKI application, and which certificates it has.
use myna_card.Prelude.{
  ℕ, ◌+◌, ◌*◌, Bool, true, false, none, some, [], ◌∷◌, length, take, drop, get_range?, foldl, Bytes,
  String, ◌==◌, if◌then◌else◌, bit_and,
}
use myna_card.Prelude.Compare.{same_bytes}
use myna_card.Prelude.Utf8.{is_utf8}
use myna_card.Error.{Result, ok, err, ◌>>=◌, ◌>>◌, guard, malformed}

pub data TokenType : Type 0 where
  card android iphone : TokenType
  other : Bytes → TokenType
  absent : TokenType

-- `JPKIAPICCTOKEN2` and spaces.
abbrev pub card_name : Bytes
card_name =
    0x4A ∷ 0x50 ∷ 0x4B ∷ 0x49 ∷ 0x41 ∷ 0x50 ∷ 0x49 ∷ 0x43 ∷ 0x43 ∷ 0x54 ∷ 0x4F ∷ 0x4B ∷ 0x45 ∷ 0x4E
    ∷ 0x32 ∷ 0x20 ∷ 0x20 ∷ 0x20 ∷ 0x20 ∷ 0x20 ∷ 0x20 ∷ 0x20 ∷ 0x20 ∷ 0x20 ∷ 0x20 ∷ 0x20 ∷ 0x20
    ∷ 0x20 ∷ 0x20 ∷ 0x20 ∷ 0x20 ∷ 0x20 ∷ []

-- `JPKIAPGPSETOKEN` and spaces.
abbrev pub android_name : Bytes
android_name =
    0x4A ∷ 0x50 ∷ 0x4B ∷ 0x49 ∷ 0x41 ∷ 0x50 ∷ 0x47 ∷ 0x50 ∷ 0x53 ∷ 0x45 ∷ 0x54 ∷ 0x4F ∷ 0x4B ∷ 0x45
    ∷ 0x4E ∷ 0x20 ∷ 0x20 ∷ 0x20 ∷ 0x20 ∷ 0x20 ∷ 0x20 ∷ 0x20 ∷ 0x20 ∷ 0x20 ∷ 0x20 ∷ 0x20 ∷ 0x20
    ∷ 0x20 ∷ 0x20 ∷ 0x20 ∷ 0x20 ∷ 0x20 ∷ []

-- `JPKIAPIOSTOKEN` and spaces.
abbrev pub iphone_name : Bytes
iphone_name =
    0x4A ∷ 0x50 ∷ 0x4B ∷ 0x49 ∷ 0x41 ∷ 0x50 ∷ 0x49 ∷ 0x4F ∷ 0x53 ∷ 0x54 ∷ 0x4F ∷ 0x4B ∷ 0x45 ∷ 0x4E
    ∷ 0x20 ∷ 0x20 ∷ 0x20 ∷ 0x20 ∷ 0x20 ∷ 0x20 ∷ 0x20 ∷ 0x20 ∷ 0x20 ∷ 0x20 ∷ 0x20 ∷ 0x20 ∷ 0x20
    ∷ 0x20 ∷ 0x20 ∷ 0x20 ∷ 0x20 ∷ 0x20 ∷ []

-- `TokenType::from_bytes`
unfoldable pub token_type_of : Bytes → TokenType
token_type_of token_info = elim (get_range? token_info 0 32) [
  | none ↦ absent
  | some label ↦
      if same_bytes label card_name
      then card
      else if same_bytes label android_name
      then android
      else if same_bytes label iphone_name
      then iphone
      else other label
]

unfoldable pub is_physical_card : TokenType → Bool
is_physical_card card = true
is_physical_card kind = false

-- The fields of text are the bytes of their UTF-8.
pub record TokenInfo : Type 0 where
  pub token_type : TokenType
  pub manufacturer_id : Bytes
  pub model : Bytes
  pub serial_number : Bytes
  pub flags : ℕ
  pub max_session_count : ℕ
  pub session_count : ℕ
  pub max_rw_session_count : ℕ
  pub rw_session_count : ℕ
  pub max_pin_len : ℕ
  pub min_pin_len : ℕ
  pub total_public_memory : ℕ
  pub free_public_memory : ℕ
  pub total_private_memory : ℕ
  pub free_private_memory : ℕ
  pub hardware_version : Bytes
  pub firmware_version : Bytes
  pub utc_time : Bytes

-- `TokenInfo::LEN`
abbrev pub token_info_len : ℕ
token_info_len = 160

-- `&raw[from..from + size]`
abbrev pub part : Bytes → ℕ → ℕ → Bytes
part raw from size = take size (drop from raw)

-- A byte in front of a string without spaces at its end: dropped if it is a space at the end.
abbrev pub trimmed_cons : ℕ → Bytes → Bytes
trimmed_cons b [] = if b == 0x20 then [] else b ∷ []
trimmed_cons b (c ∷ cs) = b ∷ c ∷ cs

-- `trim_end_matches(' ')`
unfoldable pub trim_end_spaces : Bytes → Bytes
trim_end_spaces [] = []
trim_end_spaces (b ∷ bs) = trimmed_cons b (trim_end_spaces bs)

-- `text`
unfoldable pub text : Bytes → String → Result Bytes
unfolding trim_end_spaces
text raw message = guard (is_utf8 raw) (malformed message []) >> ok (trim_end_spaces raw)

-- `word`
unfoldable pub word : Bytes → ℕ → ℕ
word raw offset = foldl (λ n b. n * 256 + b) 0 (part raw offset 4)

-- `TokenInfo::parse`
unfoldable pub parse_token_info : Bytes → Result TokenInfo
unfolding text word token_type_of
parse_token_info raw = do
  guard (length raw == token_info_len)
      (malformed "EF 0006 is {} bytes, not {}" (length raw ∷ token_info_len ∷ []))
  manufacturer_id ← text (part raw 32 32) "EF 0006 manufacturer ID is not valid UTF-8"
  model ← text (part raw 64 16) "EF 0006 model is not valid UTF-8"
  serial_number ← text (part raw 80 16) "EF 0006 serial number is not valid UTF-8"
  ok (record {
    token_type = token_type_of raw;
    manufacturer_id = manufacturer_id;
    model = model;
    serial_number = serial_number;
    flags = word raw 96;
    max_session_count = word raw 100;
    session_count = word raw 104;
    max_rw_session_count = word raw 108;
    rw_session_count = word raw 112;
    max_pin_len = word raw 116;
    min_pin_len = word raw 120;
    total_public_memory = word raw 124;
    free_public_memory = word raw 128;
    total_private_memory = word raw 132;
    free_private_memory = word raw 136;
    hardware_version = part raw 140 2;
    firmware_version = part raw 142 2;
    utc_time = part raw 144 16;
  })

-- `TokenInfo::has_flag`
unfoldable pub has_flag : TokenInfo → ℕ → Bool
has_flag info flag = bit_and info.flags flag == flag

pub record CertificateAvailability : Type 0 where
  pub sign : ℕ
  pub auth : ℕ
  pub raw : Bytes

-- `CertificateAvailability::PRESENT`
abbrev pub present : ℕ
present = 0x8F

-- `CertificateAvailability::parse`
unfoldable pub parse_availability : Bytes → Result CertificateAvailability
parse_availability (a ∷ b ∷ c ∷ []) = ok (record { sign = a; auth = b; raw = a ∷ b ∷ c ∷ [] })
parse_availability raw = err (malformed "EF 0008 is three bytes, not {len}" (length raw ∷ []))

unfoldable pub has_sign_certificate : CertificateAvailability → Bool
has_sign_certificate a = a.sign == present

unfoldable pub has_auth_certificate : CertificateAvailability → Bool
has_auth_certificate a = a.auth == present
