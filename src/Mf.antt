-- ===== src/Mf.antt =====
-- src/mf.rs: the files and data objects of the master file.
pub mod Records
pub mod Serving
pub mod Folders
use myna_card.Prelude.{
  ℕ, zero, suc, ◌+◌, ◌||◌, Bool, true, false, List, [], ◌∷◌, ◌++◌, Bytes, ◌==◌, if◌then◌else◌,
}
use myna_card.Error.{Error, Result, ok, err, stuck, status}
use myna_card.Action.{Action, pure, raise, exhausted, lift, attempt, ◌>>=◌, ◌>>◌}
use myna_card.Transport.{Transmit}
use myna_card.Card.{Card}
use myna_card.Card.Files.{select_df, select_ef, read_record, read_records_from}
use myna_card.Card.Keys.{get_data}
use myna_card.Data.Certificate
use myna_card.Data.Certificate.{CardVerifiableCertificate}
use myna_card.Mf.Records.{
  CardIdentifier, ApplicationFolders, IcManufacturerId, parse_card_identifier, parse_folders,
  parse_manufacturer,
}

-- `ap::DEFAULT_DF`, the Issuer Security Domain.
abbrev pub default_df : Bytes
default_df = 0xA0 ∷ 0x00 ∷ 0x00 ∷ 0x01 ∷ 0x51 ∷ 0x00 ∷ 0x00 ∷ []

abbrev pub ef_card_identifier : ℕ
ef_card_identifier = 0x001E

abbrev pub ef_application_folder_list : ℕ
ef_application_folder_list = 0x2F10

abbrev pub ef_ic_manufacturer_id : ℕ
ef_ic_manufacturer_id = 0x2F11

-- `tag::CHAIN_UPPER`
abbrev pub tag_chain_upper : ℕ
tag_chain_upper = 0x00F8

-- `tag::CHAIN_LOWER`
abbrev pub tag_chain_lower : ℕ
tag_chain_lower = 0x7F21

module _ {T : Type 0} where
  -- The `match` of `certificate_chain`: an object the card does not have ends the loop.
  abbrev pub on_object :
      List CardVerifiableCertificate
      → (CardVerifiableCertificate → Action (Card T) (List CardVerifiableCertificate))
      → Result Bytes
      → Action (Card T) (List CardVerifiableCertificate)
  on_object chain go (ok raw) = lift (Certificate.parse raw) >>= go
  on_object chain go (err (status sw)) =
      if sw.value == 0x6A88 || sw.value == 0x6A82 then pure chain else raise (status sw)
  on_object chain go (err e) = raise e
  on_object chain go stuck = exhausted

  -- The `match` of `read_records_one_by_one`: an empty record, or none, ends the loop.
  abbrev pub on_record :
      Bytes → (Bytes → Action (Card T) Bytes) → Result Bytes → Action (Card T) Bytes
  on_record out go (ok []) = pure out
  on_record out go (ok (b ∷ bs)) = go (b ∷ bs)
  on_record out go (err (status sw)) = if sw.value == 0x6A83 then pure out else raise (status sw)
  on_record out go (err e) = raise e
  on_record out go stuck = exhausted

  -- The `match` of `read_all_records`: the card refuses to send several records at once.
  abbrev pub or_one_by_one : Action (Card T) Bytes → Result Bytes → Action (Card T) Bytes
  or_one_by_one fallback (ok bytes) = pure bytes
  or_one_by_one fallback (err (status sw)) =
      if sw.value == 0x6A81 then fallback else raise (status sw)
  or_one_by_one fallback (err e) = raise e
  or_one_by_one fallback stuck = exhausted

module _ {T : Type 0} ⦃link : Transmit T⦄ (fuel : ℕ) where
  unfoldable pub select : Action (Card T) (Unit {0})
  select = select_df fuel default_df

  unfoldable pub data_object : ℕ → Action (Card T) Bytes
  data_object tag = get_data fuel tag

  -- The loop of `certificate_chain` over the tags.
  unfoldable pub chain_loop :
      List ℕ → List CardVerifiableCertificate → Action (Card T) (List CardVerifiableCertificate)
  chain_loop [] chain = pure chain
  chain_loop (tag ∷ tags) chain =
      attempt (data_object tag) (on_object chain (λ cert. chain_loop tags (chain ++ (cert ∷ []))))

  unfoldable pub certificate_chain : Action (Card T) (List CardVerifiableCertificate)
  certificate_chain = chain_loop (tag_chain_upper ∷ tag_chain_lower ∷ []) []

  -- The loop of `read_records_one_by_one`, of as many rounds as there are numbers left.
  unfoldable pub records_loop : ℕ → ℕ → Bytes → Action (Card T) Bytes
  records_loop zero number out = pure out
  records_loop (suc left) number out =
      attempt (read_record fuel number)
        (on_record out (λ bytes. records_loop left (number + 1) (out ++ bytes)))

  -- `1..=u8::MAX`
  unfoldable pub read_records_one_by_one : Action (Card T) Bytes
  unfolding records_loop
  read_records_one_by_one = records_loop 255 1 []

  unfoldable pub read_all_records : ℕ → Action (Card T) Bytes
  read_all_records id =
      select_ef fuel id
      >> attempt (read_records_from fuel 1) (or_one_by_one read_records_one_by_one)

  unfoldable pub card_identifier : Action (Card T) CardIdentifier
  card_identifier = do raw ← read_all_records ef_card_identifier; lift (parse_card_identifier raw)

  unfoldable pub application_folders : Action (Card T) ApplicationFolders
  application_folders = do
    raw ← read_all_records ef_application_folder_list
    lift (parse_folders raw)

  unfoldable pub ic_manufacturer_id : Action (Card T) IcManufacturerId
  ic_manufacturer_id = do
    raw ← read_all_records ef_ic_manufacturer_id
    lift (parse_manufacturer raw)
