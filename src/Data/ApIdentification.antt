-- ===== src/Data/ApIdentification.antt =====
-- src/data.rs, `ApIdentification`: the four bytes that identify an application.
use myna_card.Prelude.{ℕ, [], ◌∷◌, length, Bytes}
use myna_card.Error.{Result, ok, err, malformed}

pub record ApIdentification : Type 0 where
  pub specification_version : ℕ
  pub extended_lc_le_support : ℕ
  pub vendor_id : ℕ
  pub vendor_specific : ℕ

unfoldable pub parse : Bytes → Result ApIdentification
parse (a ∷ b ∷ c ∷ d ∷ []) = ok (record {
  specification_version = a;
  extended_lc_le_support = b;
  vendor_id = c;
  vendor_specific = d;
})
parse bytes = err (malformed "AP identification must be 4 bytes, got {}" (length bytes ∷ []))

unfoldable pub to_bytes : ApIdentification → Bytes
to_bytes i =
    i.specification_version ∷ i.extended_lc_le_support ∷ i.vendor_id ∷ i.vendor_specific ∷ []
