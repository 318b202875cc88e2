-- ===== src/Examples/Files.antt =====
-- Data files, certificates, and a card with a file of records.
use myna_card.Prelude.{
  ℕ, ◌+◌, ◌-◌, ◌≡◌, refl, ap, ◌∙◌, true, Option, none, some, inr, [], ◌∷◌, ◌++◌, List, get_elem?,
  take, Bytes, arith, ◌==◌, if◌then◌else◌, ◌↔◌,
}
use myna_card.Error.{ok}
use myna_card.Transport.{Transmit}
use myna_card.Tlv.Simple.Format.{Form, short, long}
use myna_card.Tlv.Simple.Iteration.{encode_all}
use myna_card.Data.KeyId.{KeyId}
use myna_card.Data.Signature.{Rsa}
use myna_card.Data.Certificate.{CardVerifiableCertificate, verify_chain}
use myna_card.Data.Certificate.Linked.{Rooted, verify_chain_iff}
use myna_card.Data.Fields.{Field}
use myna_card.Mf.{read_all_records}
use myna_card.Mf.Serving.{ServesRecords, joined, read_all_records-joined}
use myna_card.Mf.Folders.{
  Slot, own, child, invalidated, unused, objects, folders, parse_folders-objects,
}
use myna_card.Mf.Records.{parse_folders}

abbrev field : ℕ → ℕ → Field
field tag b = record { tag = tag; value = b ∷ []; raw = tag ∷ 0x01 ∷ b ∷ [] }

-- A file with an offset table, of one field that begins at its sixth byte.
abbrev table_file : Bytes
table_file = 0x30 ∷ 0x07 ∷ 0x80 ∷ 0x02 ∷ 0x00 ∷ 0x06 ∷ 0x81 ∷ 0x01 ∷ 0x41 ∷ []

abbrev table_fields : List Field
table_fields = field 0x81 0x41 ∷ []

-- A toy signature: the payload itself, under a key that is its modulus.
abbrev toy_rsa : Rsa
toy_rsa = record {
  Key = Bytes;
  new_key = λ modulus exponent. some modulus;
  verify_pkcs1v15 = λ key payload signature. true;
  verify_pss = λ key payload signature. true;
  sha256 = λ message. take 1 message;
}

abbrev ca_id : KeyId
ca_id = record {
  bytes =
      0x35 ∷ 0x30 ∷ 0x30 ∷ 0x30 ∷ 0x30 ∷ 0x32 ∷ 0x33 ∷ 0x08 ∷ 0x05 ∷ 0x30 ∷ 0x30 ∷ 0x31 ∷ 0x00
      ∷ 0x00 ∷ 0x00 ∷ 0x00 ∷ [];
}

abbrev toy_certificate : KeyId → CardVerifiableCertificate
toy_certificate issuer = record {
  issuer_key_id = issuer;
  subject_key_id = record { bytes = 0x31 ∷ [] };
  public_key = record { exponent = 0x03 ∷ []; modulus = 0x55 ∷ [] };
  signature = 0x99 ∷ [];
  signed_data = 0x01 ∷ 0x02 ∷ [];
}

abbrev toy_chain : List CardVerifiableCertificate
toy_chain = toy_certificate ca_id ∷ toy_certificate (record { bytes = 0x31 ∷ [] }) ∷ []

verify_chain_iff_example : (verify_chain toy_rsa toy_chain ≡ ok tt) ↔ Rooted toy_rsa toy_chain
verify_chain_iff_example = verify_chain_iff toy_rsa toy_chain

-- A card on which a selection has no effect but on what is current, and which refuses to send
-- several records at once.
abbrev card_records : List Bytes
card_records = (0x01 ∷ 0x01 ∷ 0xAA ∷ []) ∷ (0x02 ∷ 0x00 ∷ []) ∷ []

abbrev record_answer : Option Bytes → Bytes
record_answer none = 0x6A ∷ 0x83 ∷ []
record_answer (some r) = r ++ (0x90 ∷ 0x00 ∷ [])

abbrev record_reply : Bytes → Bytes
record_reply (cla ∷ ins ∷ p1 ∷ p2 ∷ rest) =
    if ins == 0xA4
    then 0x90 ∷ 0x00 ∷ []
    else if p2 == 0x04
    then record_answer (get_elem? card_records (p1 - 1))
    else 0x6A ∷ 0x81 ∷ []
record_reply command = 0x67 ∷ 0x00 ∷ []

instance abbrev record_link : Transmit (Unit {0})
record_link = record { transmit = λ t command. (ok (record_reply command), tt) }

record_card : ServesRecords record_link tt tt 0x2F10 card_records
record_card = record {
  selects = refl;
  reads = λ n r h e.
      let same : n + 1 - 1 ≡ n = omega arith in
      ap (λ x. (ok (record_answer x), tt)) (ap (get_elem? card_records) same ∙ e);
  ends = λ n h e.
      let same : n + 1 - 1 ≡ n = omega arith in
      ap (λ x. (ok (record_answer x), tt)) (ap (get_elem? card_records) same ∙ e);
  several = inr refl;
}

read_all_records-joined_example :
    read_all_records 1 0x2F10 (record { transport = tt })
    ≡ (ok (joined card_records), record { transport = tt })
read_all_records-joined_example =
    read_all_records-joined 0 tt tt 0x2F10 card_records record_card (omega arith, (omega arith, tt))
      (omega arith)

abbrev slots : List (Form × Slot)
slots =
    (short, own (0xA0 ∷ []))
    ∷ (long, child (0xD3 ∷ 0x92 ∷ []))
    ∷ (short, invalidated [])
    ∷ (short, child (0xD3 ∷ []))
    ∷ (short, unused (0x00 ∷ []))
    ∷ []

parse_folders-objects_example :
    parse_folders (encode_all (objects slots) ++ (0xFF ∷ []))
    ≡ ok (folders (0xA0 ∷ []) ((0xD3 ∷ 0x92 ∷ []) ∷ (0xD3 ∷ []) ∷ []))
parse_folders-objects_example =
    parse_folders-objects slots (0xFF ∷ [])
      (
        (omega arith, omega arith),
        (
          (omega arith, omega arith),
          (
            (omega arith, omega arith),
            ((omega arith, omega arith), ((omega arith, omega arith), tt)),
          ),
        ),
      )
      refl
