-- ===== src/Examples/Ages.antt =====
-- An age record with a signature over its date of birth and its key.
use myna_card.Prelude.{◌≡◌, ◌%◌, refl, ap, none, [], ◌∷◌, Bytes, arith}
use myna_card.Error.{Result, ok}
use myna_card.Transport.{Transmit}
use myna_card.Card.{Card}
use myna_card.Card.Files.Serving.{Serves}
use myna_card.Ap.Surface.{read_age_record}
use myna_card.Ap.Surface.Served.{read_age_record-file}
use myna_card.Examples.FileCards.{serve, reply-reads, reply-ends}
use myna_card.Tlv.Ber.Iteration.{encode_all}
use myna_card.Data.RsaKey
use myna_card.Data.Date
use myna_card.Data.Date.{Date}
use myna_card.Data.Fields.{parse_fields, get, find_field, bytes_before}
use myna_card.Data.Fields.Written.{df, File, IsFile, file_bytes, fields_of, parse_fields-file_bytes}
use myna_card.Ap.Surface.Records.{AgeRecord, parse_age_record}
use myna_card.Ap.Surface.Authentic.{parse_age_record-signed}
use myna_card.Examples.Signed.{any_key, foreign_key, any_key_parses}

abbrev born : Bytes
born = b'1' ∷ b'9' ∷ b'8' ∷ b'0' ∷ b'0' ∷ b'2' ∷ b'1' ∷ b'7' ∷ []

abbrev age_file : File
age_file = record {
  tag_field = 0xFF ∷ 0x10 ∷ [];
  length_field = 0x18 ∷ [];
  objects =
      df 0x11 (0x08 ∷ []) born ∷ df 0x12 (0x06 ∷ []) any_key ∷ df 0x13 (0x01 ∷ []) (0x44 ∷ []) ∷ [];
  filler = [];
  trailing = 0xFF ∷ [];
}

age_file-IsFile : IsFile age_file
age_file-IsFile = omega arith

abbrev signed_part : Bytes
signed_part = encode_all (df 0x11 (0x08 ∷ []) born ∷ df 0x12 (0x06 ∷ []) any_key ∷ [])

abbrev age_record : AgeRecord
age_record = record {
  birth_date = record { year = 1980; month = 2; day = 17 };
  public_key = foreign_key;
  signature = 0x44 ∷ [];
  signed_data = signed_part;
}

age_file_fields : parse_fields (file_bytes age_file) 0xFF10 none ≡ ok (fields_of age_file.objects)
age_file_fields = parse_fields-file_bytes age_file age_file-IsFile

age_file_parses : parse_age_record (file_bytes age_file) ≡ ok age_record
unfolding parse_age_record get find_field bytes_before Date.parse
age_file_parses = rw (age_file_fields, any_key_parses) refl

parse_age_record-signed_example :
    (Date.parse born ≡ ok age_record.birth_date) × (RsaKey.parse any_key ≡ ok foreign_key)
parse_age_record-signed_example =
    parse_age_record-signed (file_bytes age_file) age_record (0x08 ∷ []) born (0x06 ∷ []) any_key
      (omega arith) (omega arith) (omega arith) (omega arith) age_file_parses refl

-- A card on which any selection makes the file of the age record current.
abbrev on_command : Bytes → Bytes → Result Bytes × Bytes
on_command file (_ ∷ _ ∷ _ ∷ _ ∷ _ ∷ _ ∷ _ ∷ []) = (ok (0x90 ∷ 0x00 ∷ []), file_bytes age_file)
on_command file command = (ok (serve file command), file)

instance abbrev age_link : Transmit Bytes
age_link = record { transmit = on_command }

age_link-Serves : (file : Bytes) → Serves age_link file file
age_link-Serves file = record {
  reads = λ offset le h k l u. ap (λ r. (ok r, file)) (reply-reads file offset le h l u);
  ends = λ offset le h k l u. ap (λ r. (ok r, file)) (reply-ends file offset (le % 256) h);
}

-- With nothing selected.
abbrev powered_up : Card Bytes
powered_up = record { transport = [] }

abbrev selected : Card Bytes
selected = record { transport = file_bytes age_file }

born_parses : Date.parse born ≡ ok age_record.birth_date
unfolding Date.parse
born_parses = refl

read_age_record-file_example : read_age_record 1 powered_up ≡ (ok age_record, selected)
read_age_record-file_example =
    read_age_record-file 0 [] (file_bytes age_file) age_file (0x08 ∷ []) born (0x06 ∷ []) any_key
      (0x01 ∷ []) (0x44 ∷ []) age_record.birth_date foreign_key refl
      (age_link-Serves (file_bytes age_file)) age_file-IsFile (omega arith) refl refl born_parses
      any_key_parses
