-- ===== src/Tlv/Simple.antt =====
-- src/tlv/simple.rs: the simple encoded TLV of record structured files.
pub mod Format
pub mod Iteration
pub mod Ending
use myna_card.Prelude.{
  ℕ, zero, suc, ◌+◌, Bool, true, false, Option, none, some, List, [], ◌∷◌, length, get_elem?, drop,
  get_range?, Bytes, ◌==◌, if◌then◌else◌,
}
use myna_card.Prelude.Words.{from_be_bytes}
use myna_card.Error.{Result, ok, err, stuck, ◌>>=◌, ok_or, malformed}

abbrev pub tag_unused : ℕ
tag_unused = 0x00

abbrev pub tag_invalid : ℕ
tag_invalid = 0xFF

pub record Header : Type 0 where
  pub tag : ℕ
  pub length : ℕ
  pub header_len : ℕ

-- `Header::total_len`. At most 4 + 65535, so the sum does not wrap.
abbrev pub total_len : Header → ℕ
total_len h = h.header_len + h.length

pub record Tlv : Type 0 where
  pub tag : ℕ
  pub value : Bytes

-- The rest of `parse_header` behind a first length byte of FF.
long_header : ℕ → Bytes → Result Header
long_header tag bytes = do
  long ← ok_or (get_range? bytes 2 4) (malformed "truncated long-form TLV length" [])
  ok (record { tag = tag; length = from_be_bytes long; header_len = 4 })

pub parse_header : Bytes → Result Header
unfolding long_header
parse_header bytes = do
  tag ← ok_or (get_elem? bytes 0) (malformed "empty TLV" [])
  if tag == tag_invalid then err (malformed "tag 'FF' is not a valid simple TLV tag" []) else do
    first_len ← ok_or (get_elem? bytes 1) (malformed "truncated TLV length" [])
    if first_len == 0xFF
        then long_header tag bytes
        else ok (record { tag = tag; length = first_len; header_len = 2 })

pub parse : Bytes → Result Tlv
unfolding parse_header
parse bytes = do
  header ← parse_header bytes
  value ←
      ok_or (get_range? bytes header.header_len (total_len header))
        (malformed "TLV value is truncated" [])
  ok (record { tag = header.tag; value = value })

pub record Iter : Type 0 where
  pub rest : Bytes

pub iter : Bytes → Iter
iter bytes = record { rest = bytes }

-- The closure of `next`: the first object of `rest`, and how many bytes it takes.
pub read_object : Bytes → Result (ℕ × Tlv)
unfolding parse_header
read_object rest = do
  header ← parse_header rest
  value ←
      ok_or (get_range? rest header.header_len (total_len header))
        (malformed "TLV value is truncated" [])
  ok (total_len header, record { tag = header.tag; value = value })

-- `match result`: past the object, or to the end after an error.
advance : Result (ℕ × Tlv) → Iter → Option (Result Tlv) × Iter
advance (ok (consumed, tlv)) it = (some (ok tlv), record { rest = drop consumed it.rest })
advance (err e) it = (some (err e), record { rest = [] })
advance stuck it = (some stuck, record { rest = [] })

pub next : Iter → Option (Result Tlv) × Iter
unfolding read_object advance
next it = elim (get_elem? it.rest 0) [
  | none ↦ (none, it)
  | some first ↦ if first == tag_invalid then (none, it) else advance (read_object it.rest) it
]

-- What the iterator yields, in order: a `for` loop over it runs over this list.
pub item_list : ℕ → Iter → List (Result Tlv)
unfolding next
item_list zero it = stuck ∷ []
item_list (suc fuel) it =
    let (item, it') = next it in
    let rest = item_list fuel it' in elim item [ none ↦ [] | some r ↦ r ∷ rest ]

-- Each object takes two bytes at least, so as many rounds as bytes and one more are enough.
pub items : Bytes → List (Result Tlv)
unfolding item_list iter
items bytes = item_list (suc (length bytes)) (iter bytes)

-- The loop of `find`: `tlv?` ends it by an error, a matching tag by the value.
pub find_in : List (Result Tlv) → ℕ → Result (Option Bytes)
find_in [] tag = ok none
find_in (ok tlv ∷ rest) tag = if tlv.tag == tag then ok (some tlv.value) else find_in rest tag
find_in (err e ∷ rest) tag = err e
find_in (stuck ∷ rest) tag = stuck

pub find : Bytes → ℕ → Result (Option Bytes)
unfolding find_in items
find bytes tag = find_in (items bytes) tag
