-- ===== src/Data/Image.antt =====
-- src/data.rs, `ImageFormat` and `Image`: images, known by their first bytes.
use myna_card.Prelude.{◌&&◌, [], ◌∷◌, length, take, drop, Bytes, leb, if◌then◌else◌, Bool, String}
use myna_card.Prelude.Compare.{same_bytes}

pub data ImageFormat : Type 0 where
  png jpeg2000 unknown : ImageFormat

abbrev pub png_signature : Bytes
png_signature = 0x89 ∷ b'P' ∷ b'N' ∷ b'G' ∷ 0x0D ∷ 0x0A ∷ 0x1A ∷ 0x0A ∷ []

abbrev pub jp2_signature : Bytes
jp2_signature = b'j' ∷ b'P' ∷ 0x20 ∷ 0x20 ∷ []

-- `slice::starts_with`
unfoldable pub starts_with : Bytes → Bytes → Bool
starts_with bytes needle =
    leb (length needle) (length bytes) && same_bytes (take (length needle) bytes) needle

unfoldable pub detect : Bytes → ImageFormat
detect bytes =
    if starts_with bytes png_signature
    then png
    else if leb 8 (length bytes) && same_bytes (take 4 (drop 4 bytes)) jp2_signature
    then jpeg2000
    else unknown

unfoldable pub extension : ImageFormat → String
extension png = "png"
extension jpeg2000 = "jp2"
extension unknown = "bin"

pub record Image : Type 0 where
  pub bytes : Bytes
  pub format : ImageFormat

-- `Image::new`
unfoldable pub image : Bytes → Image
image bytes = record { bytes = bytes; format = detect bytes }
