-- ===== src/Examples/FileCards.antt =====
-- A card that serves a file, and the reading of files from it.
use myna_card.Prelude.{
  ℕ, ◌+◌, ◌*◌, ◌%◌, ◌/◌, ◌≤◌, ◌<◌, ◌≡◌, refl, ap, [], ◌∷◌, ◌++◌, length, take, drop, Bytes, IsByte,
  All, inl, arith, ltb, ◌==◌, if◌then◌else◌,
}
use myna_card.Error.{ok, err, malformed}
use myna_card.Transport.{Transmit}
use myna_card.Tlv.Ber
use myna_card.Tlv.Ber.{parse_header, read_tag, read_length}
use myna_card.Tlv.Ber.Objects.{IsObject}
use myna_card.Card.{Card}
use myna_card.Card.Files.{read_binary, read_binary_all, read_binary_physical}
use myna_card.Card.Files.Serving.{Serves}
use myna_card.Card.Files.Reading.{slice, read_binary-file, read_binary_physical-file}
use myna_card.Card.Files.Whole.{read_binary_all-object, read_binary_all-plain}

-- The answer to a READ BINARY.
abbrev reply : Bytes → ℕ → ℕ → Bytes
reply file offset le =
    if ltb offset (length file)
    then take (if le == 0 then 256 else le) (drop offset file) ++ (0x90 ∷ 0x00 ∷ [])
    else 0x6B ∷ 0x00 ∷ []

-- The state of this transport is the file.
abbrev pub serve : Bytes → Bytes → Bytes
serve file (_ ∷ _ ∷ hi ∷ lo ∷ le ∷ []) = reply file (hi * 256 + lo) le
serve file _ = 0x67 ∷ 0x00 ∷ []

instance abbrev file_link : Transmit Bytes
file_link = record { transmit = λ file command. (ok (serve file command), file) }

pub reply-reads :
    (file : Bytes) (offset le : ℕ)
    → offset < length file
    → 0 < le
    → le ≤ 256
    → reply file (offset / 256 * 256 + offset % 256) (le % 256)
      ≡ take le (drop offset file) ++ (0x90 ∷ 0x00 ∷ [])
reply-reads file offset le h l u =
    let same : offset / 256 * 256 + offset % 256 ≡ offset = omega arith in rw same (ground arith)

pub reply-ends :
    (file : Bytes) (offset le : ℕ)
    → length file ≤ offset
    → reply file (offset / 256 * 256 + offset % 256) le ≡ 0x6B ∷ 0x00 ∷ []
reply-ends file offset le h =
    let same : offset / 256 * 256 + offset % 256 ≡ offset = omega arith in rw same (ground arith)

file_link-Serves : (file : Bytes) → Serves file_link file file
file_link-Serves file = record {
  reads = λ offset le h k l u. ap (λ r. (ok r, file)) (reply-reads file offset le h l u);
  ends = λ offset le h k l u. ap (λ r. (ok r, file)) (reply-ends file offset (le % 256) h);
}

-- An object of four bytes of value, and filler.
abbrev tlv_file : Bytes
tlv_file = 0x30 ∷ 0x04 ∷ 1 ∷ 2 ∷ 3 ∷ 4 ∷ 0xFF ∷ 0xFF ∷ []

abbrev tlv_card : Card Bytes
tlv_card = record { transport = tlv_file }

abbrev tlv_object : Ber.Tlv
tlv_object = record { tag = 0x30; value = 1 ∷ 2 ∷ 3 ∷ 4 ∷ [] }

tlv_file-IsByte : All IsByte tlv_file
tlv_file-IsByte = (
  omega arith,
  (
    omega arith,
    (omega arith, (omega arith, (omega arith, (omega arith, (omega arith, (omega arith, tt)))))),
  ),
)

abbrev tlv_file-IsObject : IsObject tlv_file tlv_object
tlv_file-IsObject = record {
  tag_field = 0x30 ∷ [];
  length_field = 0x04 ∷ [];
  rest = 0xFF ∷ 0xFF ∷ [];
  is_tag = omega arith;
  is_length = omega arith;
  tag_value = refl;
  size = refl;
  whole = refl;
}

read_binary-file_example :
    read_binary 1 2 100 tlv_card ≡ (ok (1 ∷ 2 ∷ 3 ∷ 4 ∷ 0xFF ∷ 0xFF ∷ []), tlv_card)
read_binary-file_example =
    read_binary-file 0 tlv_file tlv_file (file_link-Serves tlv_file) 2 100 (inl (omega arith))

read_binary_physical-file_example :
    read_binary_physical 1 tlv_card ≡ (ok (slice tlv_file 0 0x8000), tlv_card)
read_binary_physical-file_example =
    read_binary_physical-file 0 tlv_file tlv_file (file_link-Serves tlv_file)

read_binary_all-object_example :
    read_binary_all 1 tlv_card ≡ (ok (0x30 ∷ 0x04 ∷ 1 ∷ 2 ∷ 3 ∷ 4 ∷ []), tlv_card)
read_binary_all-object_example =
    read_binary_all-object 0 tlv_file tlv_file (file_link-Serves tlv_file) tlv_object
      tlv_file-IsObject tlv_file-IsByte (omega arith)

-- No header: its length field says that eight bytes follow, and they do not.
abbrev text_file : Bytes
text_file = 0x41 ∷ 0x88 ∷ 0x43 ∷ []

abbrev text_card : Card Bytes
text_card = record { transport = text_file }

text_file-parse_header :
    parse_header (slice text_file 0 256) ≡ err (malformed "truncated TLV length" [])
unfolding parse_header read_tag read_length
text_file-parse_header = refl

read_binary_all-plain_example :
    read_binary_all 1 text_card ≡ (ok (slice text_file 0 0x8000), text_card)
read_binary_all-plain_example =
    read_binary_all-plain 0 text_file text_file (file_link-Serves text_file)
      (malformed "truncated TLV length" []) text_file-parse_header
