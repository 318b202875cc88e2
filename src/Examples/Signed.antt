-- ===== src/Examples/Signed.antt =====
-- An integrity record, a signed public key that borrows its signature, and two files of the same
-- attributes.
use myna_card.Prelude.{
  ◌≡◌, ◌≢◌, ◌++◌, refl, sym, ◌∙◌, true, none, some, [], ◌∷◌, Bytes, List, drop, take, arith,
}
use myna_card.Prelude.Compare.{same_bytes}
use myna_card.Prelude.Utf8.{is_utf8}
use myna_card.Error.{ok}
use myna_card.Tlv.Ber
use myna_card.Tlv.Ber.{parse_header, read_tag, read_length, items}
use myna_card.Tlv.Ber.Iteration.{Object, ber_items-encode_all}
use myna_card.Data.RsaKey.{RsaPublicKey, last_values}
use myna_card.Data.RsaKey
use myna_card.Data.Signature.{Rsa, verify_pkcs1_sha256}
use myna_card.Data.Fields.{parse_fields, field_loop, read_field, get, find_field, bytes_before}
use myna_card.Data.Fields.Written.{df, File, IsFile, file_bytes, fields_of, parse_fields-file_bytes}
use myna_card.Ap.Text.Records.{
  IntegrityRecord, SignedPublicKey, parse_integrity_record, parse_signed_key,
  verify_integrity_record, verify_signed_key,
}
use myna_card.Data.Date.{Date}
use myna_card.Data.Date
use myna_card.Data.Person.{from_byte, male}
use myna_card.Data.Fields.{check_offsets, compare_offsets}
use myna_card.Ap.Text.Records.{
  Attributes, decode_text, parse_attributes, digest_source, matches_attributes_file,
}
use myna_card.Ap.Text.Binding.{parse_attributes-matched}
use myna_card.Ap.Text.Filler.{parse_attributes-filler}
use myna_card.Ap.Text.Unsigned.{parse_signed_key-unsigned}

-- A toy signature: the digest itself, which is the first byte.
abbrev digest_rsa : Rsa
digest_rsa = record {
  Key = Bytes;
  new_key = λ modulus exponent. some modulus;
  verify_pkcs1v15 = λ key payload signature. same_bytes (drop 19 payload) signature;
  verify_pss = λ key payload signature. same_bytes payload signature;
  sha256 = λ message. take 1 message;
}

abbrev digest : Bytes
digest =
    1 ∷ 2 ∷ 3 ∷ 4 ∷ 5 ∷ 6 ∷ 7 ∷ 8 ∷ 1 ∷ 2 ∷ 3 ∷ 4 ∷ 5 ∷ 6 ∷ 7 ∷ 8 ∷ 1 ∷ 2 ∷ 3 ∷ 4 ∷ 5 ∷ 6 ∷ 7 ∷ 8
    ∷ 1 ∷ 2 ∷ 3 ∷ 4 ∷ 5 ∷ 6 ∷ 7 ∷ 8 ∷ []

abbrev digests : List Object → List Object
digests rest = df 0x31 (0x20 ∷ []) digest ∷ df 0x32 (0x20 ∷ []) digest ∷ rest

abbrev genuine : File
genuine = record {
  tag_field = 0xFF ∷ 0x30 ∷ [];
  length_field = 0x4A ∷ [];
  objects = digests (df 0x33 (0x01 ∷ []) (0xDF ∷ []) ∷ []);
  filler = [];
  trailing = [];
}

abbrev pub any_key : Bytes
any_key = 0x90 ∷ 0x01 ∷ 0x03 ∷ 0x91 ∷ 0x01 ∷ 0x55 ∷ []

abbrev borrowed : File
borrowed = record {
  tag_field = 0xFF ∷ 0x50 ∷ [];
  length_field = 0x53 ∷ [];
  objects = digests (df 0x52 (0x01 ∷ []) (0xDF ∷ []) ∷ df 0x51 (0x06 ∷ []) any_key ∷ []);
  filler = [];
  trailing = [];
}

genuine-IsFile : IsFile genuine
genuine-IsFile = omega arith

borrowed-IsFile : IsFile borrowed
borrowed-IsFile = omega arith

parse_fields-file_bytes_example :
    parse_fields (file_bytes borrowed) 0xFF50 none ≡ ok (fields_of borrowed.objects)
parse_fields-file_bytes_example = parse_fields-file_bytes borrowed borrowed-IsFile

abbrev integrity : IntegrityRecord
integrity = record {
  my_number_digest = digest;
  attributes_digest = digest;
  signature = 0xDF ∷ [];
  signed_data = take 70 (drop 3 (file_bytes genuine));
}

genuine_parses : parse_integrity_record (file_bytes genuine) ≡ ok integrity
unfolding parse_integrity_record parse_fields field_loop read_field Ber.parse parse_header read_tag
    read_length get find_field bytes_before
genuine_parses = refl

abbrev issuer_key : RsaPublicKey
issuer_key = record { exponent = 0x03 ∷ []; modulus = 0x77 ∷ [] }

genuine_verifies : verify_integrity_record digest_rsa integrity issuer_key ≡ ok tt
unfolding verify_integrity_record verify_pkcs1_sha256 same_bytes
genuine_verifies = refl

abbrev pub foreign_key : RsaPublicKey
foreign_key = record { exponent = 0x03 ∷ []; modulus = 0x55 ∷ [] }

key_objects :
    items any_key
    ≡ ok (record { tag = 0x90; value = 0x03 ∷ [] })
      ∷ ok (record { tag = 0x91; value = 0x55 ∷ [] })
      ∷ []
key_objects =
    ber_items-encode_all
      (record { first = 0x90; tag_rest = []; length_field = 0x01 ∷ []; value = 0x03 ∷ [] }
        ∷ record { first = 0x91; tag_rest = []; length_field = 0x01 ∷ []; value = 0x55 ∷ [] }
        ∷ [])
      [] (omega arith) tt (omega arith) (omega arith)

pub any_key_parses : RsaKey.parse any_key ≡ ok foreign_key
unfolding RsaKey.parse
any_key_parses = rw key_objects refl

parse_signed_key-unsigned_example :
    (x : SignedPublicKey) × (parse_signed_key (file_bytes borrowed) ≡ ok x)
    × (x.public_key ≡ foreign_key)
    × (verify_signed_key digest_rsa x issuer_key ≡ ok tt)
parse_signed_key-unsigned_example =
    parse_signed_key-unsigned digest_rsa issuer_key foreign_key genuine borrowed (0x20 ∷ []) digest
      (0x20 ∷ []) digest (0x01 ∷ []) (0xDF ∷ []) (0x06 ∷ []) any_key integrity genuine-IsFile refl
      refl genuine_parses genuine_verifies borrowed-IsFile refl refl any_key_parses

-- The fields behind the table, from the name on.
abbrev behind : Bytes
behind =
    0xDF ∷ 0x22 ∷ 0x01 ∷ b'A' ∷ 0xDF ∷ 0x23 ∷ 0x01 ∷ b'B' ∷ 0xDF ∷ 0x24 ∷ 0x08 ∷ b'1' ∷ b'9' ∷ b'8'
    ∷ b'0' ∷ b'0' ∷ b'2' ∷ b'1' ∷ b'7' ∷ 0xDF ∷ 0x25 ∷ 0x01 ∷ b'1' ∷ []

-- The same file with its length in one byte, and in two, which moves the fields.
abbrev short_file : Bytes
short_file = 0xFF ∷ 0x20 ∷ 0x22 ∷ 0xDF ∷ 0x21 ∷ 0x08 ∷ 0 ∷ 14 ∷ 0 ∷ 18 ∷ 0 ∷ 22 ∷ 0 ∷ 33 ∷ behind

abbrev long_file : Bytes
long_file =
    0xFF ∷ 0x20 ∷ 0x81 ∷ 0x22 ∷ 0xDF ∷ 0x21 ∷ 0x08 ∷ 0 ∷ 15 ∷ 0 ∷ 19 ∷ 0 ∷ 23 ∷ 0 ∷ 34 ∷ behind

abbrev attributes : Attributes
attributes = record {
  name = b'A' ∷ [];
  address = b'B' ∷ [];
  birth_date = record { year = 1980; month = 2; day = 17 };
  sex = male;
}

-- The record of both.
abbrev matching : IntegrityRecord
matching = record integrity { attributes_digest = 0xDF ∷ [] }

short_file_parses : parse_attributes short_file ≡ ok attributes
unfolding parse_attributes decode_text Ber.parse parse_header read_tag read_length field_loop
    read_field get find_field check_offsets compare_offsets is_utf8 Date.parse from_byte
short_file_parses = refl

short_file_matches : matches_attributes_file digest_rsa matching short_file ≡ ok true
unfolding matches_attributes_file digest_source Ber.parse parse_header read_tag read_length
    same_bytes
short_file_matches = refl

long_file_parses : parse_attributes long_file ≡ ok attributes
unfolding parse_attributes decode_text Ber.parse parse_header read_tag read_length field_loop
    read_field get find_field check_offsets compare_offsets is_utf8 Date.parse from_byte
long_file_parses = refl

long_file_matches : matches_attributes_file digest_rsa matching long_file ≡ ok true
unfolding matches_attributes_file digest_source Ber.parse parse_header read_tag read_length
    same_bytes
long_file_matches = refl

sources_apart :
    (s s' : Bytes)
    → digest_source short_file ≡ ok s
    → digest_source long_file ≡ ok s'
    → digest_rsa.sha256 s ≡ digest_rsa.sha256 s'
    → s ≡ s'
unfolding digest_source Ber.parse parse_header read_tag read_length
sources_apart s s' h k same = let e : behind ≡ s = cc in let e' : behind ≡ s' = cc in sym e ∙ e'

parse_attributes-matched_example : attributes ≡ attributes
parse_attributes-matched_example =
    parse_attributes-matched digest_rsa matching short_file long_file attributes attributes
      sources_apart short_file_matches long_file_matches short_file_parses long_file_parses

short_file_source : digest_source short_file ≡ ok behind
unfolding digest_source Ber.parse parse_header read_tag read_length
short_file_source = refl

parse_attributes-filler_example : parse_attributes (short_file ++ (0xFF ∷ [])) ≢ ok attributes
parse_attributes-filler_example =
    parse_attributes-filler short_file (0xFF ∷ []) behind attributes attributes (omega arith)
      (omega arith) (omega arith) short_file_parses short_file_source
