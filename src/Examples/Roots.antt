-- ===== src/Examples/Roots.antt =====
-- A certificate, the root above it, and a toy decoder.
use myna_card.Prelude.{◌≡◌, refl, none, some, true, List, [], ◌∷◌, Bytes, take, drop}
use myna_card.Prelude.Compare.{same_bytes}
use myna_card.Error.{ok}
use myna_card.Data.Date.{
  calendar_date, from_unix_seconds, from_days, year_of_era, day_of_year, shifted_month,
  day_of_month, calendar_month,
}
use myna_card.Data.Signature.{Rsa, to_rsa, verify_pkcs1, verify_pkcs1_sha256}
use myna_card.X509.{
  Decoder, Root, production, test, production_only, user_authentication, sha256_with_rsa,
  X509Certificate, allows_root, parse, public_key, subject, issuer, validity, is_valid_on,
  signature_algorithm, verify_signature, verify_above, verify_chain, issuer_in, verify_to_root,
}
use myna_card.X509.Chain.{Carries, Anchors, verify_to_root-Carries}

-- The first byte is the subject's name, the second the issuer's, and the third the key.
abbrev pub toy_decoder : Decoder
toy_decoder = record {
  Inner = Bytes;
  from_der = λ der. some der;
  key_bits = λ inner. some (drop 2 inner);
  from_pkcs1_der = λ bits. some (record { exponent = 0x03 ∷ []; modulus = bits });
  subject_name = λ inner. take 1 inner;
  issuer_name = λ inner. take 1 (drop 1 inner);
  serial = λ inner. [];
  not_before = λ inner. 0;
  not_after = λ inner. 2000000000;
  algorithm_oid = λ inner. sha256_with_rsa;
  tbs_der = λ inner. some inner;
  signature_bits = λ inner. some inner;
}

abbrev pub yes_rsa : Rsa
yes_rsa = record {
  Key = Bytes;
  new_key = λ modulus exponent. some modulus;
  verify_pkcs1v15 = λ key payload signature. true;
  verify_pss = λ key payload signature. true;
  sha256 = λ message. take 1 message;
}

abbrev root_of : Bytes → Root
root_of der = record {
  purpose = user_authentication;
  hierarchy = production;
  generation = none;
  der = der;
}

abbrev test_root : Root
test_root = record {
  purpose = user_authentication;
  hierarchy = test;
  generation = none;
  der = 0x41 ∷ 0x41 ∷ 0x01 ∷ [];
}

abbrev roots : List Root
roots = test_root ∷ root_of (0x42 ∷ 0x42 ∷ 0x02 ∷ []) ∷ root_of (0x41 ∷ 0x41 ∷ 0x03 ∷ []) ∷ []

abbrev leaf : X509Certificate toy_decoder
leaf = record { der = []; inner = 0x61 ∷ 0x41 ∷ 0x04 ∷ [] }

leaf_verifies :
    verify_to_root toy_decoder yes_rsa roots leaf (calendar_date 2024 2 29) production_only ≡ ok tt
unfolding same_bytes verify_to_root issuer_in verify_chain verify_above verify_signature is_valid_on
    validity subject issuer parse public_key signature_algorithm allows_root verify_pkcs1_sha256
    verify_pkcs1 to_rsa from_unix_seconds from_days year_of_era day_of_year shifted_month
    day_of_month calendar_month
leaf_verifies = refl

verify_to_root-Carries_example :
    Carries (Anchors toy_decoder yes_rsa leaf (calendar_date 2024 2 29) production_only) roots
verify_to_root-Carries_example =
    verify_to_root-Carries toy_decoder yes_rsa roots leaf (calendar_date 2024 2 29) production_only
      leaf_verifies
