-- ===== src/Data/Fields/Tables.antt =====
-- The objects of a data file, those that are offset tables among them.
use myna_card.Prelude.{
  ℕ, ◌+◌, ◌≡◌, ◌⊎◌, Option, none, some, List, [], ◌∷◌, ◌++◌, length, Bytes, All, ◌==◌,
  if◌then◌else◌,
}
use myna_card.Error.{ok}
use myna_card.Tlv.Ber.{Header, parse_header, Tlv}
use myna_card.Tlv.Ber
use myna_card.Tlv.Ber.Iteration.{IsFiller}
use myna_card.Data.Fields.{Field, Found}
use myna_card.Data.Fields.Placed.{entries, Placed}

-- The bytes of all the objects, offset tables too, one behind the other.
abbrev pub joined : List Field → Bytes
joined [] = []
joined (f ∷ fs) = f.raw ++ joined fs

abbrev pub IsTable : Option ℕ → Field → Type 0
IsTable none f = ⊥
IsTable (some t) f = f.tag ≡ t

-- The objects that are no offset table.
abbrev pub others : Option ℕ → List Field → List Field
others table [] = []
others none (f ∷ fs) = f ∷ others none fs
others (some t) (f ∷ fs) = if f.tag == t then others (some t) fs else f ∷ others (some t) fs

-- Where those begin, if the first object of all begins at a position.
abbrev pub places : Option ℕ → ℕ → List Field → List ℕ
places table pos [] = []
places none pos (f ∷ fs) = pos ∷ places none (pos + length f.raw) fs
places (some t) pos (f ∷ fs) =
    let later = places (some t) (pos + length f.raw) fs in if f.tag == t then later else pos ∷ later

-- The last offset table among the objects.
abbrev pub LastTable : Option ℕ → List Field → Field → Type 0
LastTable table [] x = ⊥
LastTable table (f ∷ fs) x =
    LastTable table fs x ⊎ ((f ≡ x) × IsTable table x × All (λ g. ¬ IsTable table g) fs)

-- What the loop has found in the bytes of objects with filler behind them.
record Sorted (table : Option ℕ) (rest : Bytes) (pos : ℕ) (found : Found) : Type 0 where
  objects : List Field
  filler : Bytes
  split : rest ≡ joined objects ++ filler
  ends : IsFiller filler
  fields_are : found.fields ≡ others table objects
  starts_are : found.starts ≡ places table pos objects
  last_one : (x : Field) → LastTable table objects x → found.offsets ≡ some x.value
  none_there : All (λ g. ¬ IsTable table g) objects → found.offsets ≡ none

-- What a file that parses looks like: its outer object, the objects in it with filler behind them,
-- and where they begin.
pub record Laid (raw : Bytes) (tag : ℕ) (table : Option ℕ) (fs : List Field) : Type 0 where
  pub outer : Tlv
  pub header : Header
  pub objects : List Field
  pub filler : Bytes
  pub is_outer : Ber.parse raw ≡ ok outer
  pub is_header : parse_header raw ≡ ok header
  pub split : outer.value ≡ joined objects ++ filler
  pub ends : IsFiller filler
  pub are_others : fs ≡ others table objects
  pub placed : Placed raw fs (places table header.header_len objects)
  pub listed :
      (x : Field)
      → LastTable table objects x
      → entries x.value ≡ places table header.header_len objects
