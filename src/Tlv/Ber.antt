-- ===== src/Tlv/Ber.antt =====
-- src/tlv/ber.rs: the BER-TLV of transparent files. `usize` has 64 bits.
pub mod Layout
pub mod Tag
pub mod Length
pub mod Reading
pub mod Bounds
pub mod Objects
pub mod Iteration
pub mod Ending
pub mod Value
use myna_card.Prelude.{
  ℕ, zero, suc, ◌+◌, ◌%◌, ◌^◌, ◌||◌, Option, none, some, List, [], ◌∷◌, length, get_elem?, drop,
  get_range?, foldl, Bytes, ltb, ◌==◌, if◌then◌else◌, bit_and,
}
use myna_card.Prelude.Words.{push_byte}
use myna_card.Error.{Result, ok, err, stuck, ◌>>=◌, ok_or, malformed}

-- `size_of::<usize>()`
abbrev pub usize_bytes : ℕ
usize_bytes = 8

pub record Header : Type 0 where
  pub tag : ℕ
  pub length : ℕ
  pub header_len : ℕ

-- `Header::total_len`. A length near 2 ^ 64 makes the sum wrap in a release build.
abbrev pub total_len : Header → ℕ
total_len h = (h.header_len + h.length) % 2 ^ 64

pub record Tlv : Type 0 where
  pub tag : ℕ
  pub value : Bytes

-- The `loop` for the bytes of a tag behind the first. It ends at the fifth byte at the latest, so
-- four rounds are enough.
pub tag_loop : ℕ → Bytes → ℕ → ℕ → Result (ℕ × ℕ)
tag_loop zero bytes pos tag = stuck
tag_loop (suc fuel) bytes pos tag = do
  byte ← ok_or (get_elem? bytes pos) (malformed "truncated TLV tag" [])
  let pos' = pos + 1
  let tag' = push_byte (2 ^ 32) tag byte
  let more = tag_loop fuel bytes pos' tag'
  if ltb 4 pos'
      then err (malformed "TLV tag longer than 4 bytes" [])
      else if bit_and byte 0x80 == 0
      then ok (tag', pos')
      else more

-- The first half of `parse_header`: the tag, and the position behind it.
unfoldable pub read_tag : Bytes → Result (ℕ × ℕ)
unfolding tag_loop
read_tag bytes = do
  first ← ok_or (get_elem? bytes 0) (malformed "empty TLV" [])
  if bit_and first 0x1F == 0x1F then tag_loop 4 bytes 1 first else ok (first, 1)

-- The `count` bytes of a long length from `pos` on.
pub long_length : ℕ → Bytes → ℕ → Result (ℕ × ℕ)
long_length count bytes pos =
    if count == 0
    then err (malformed "indefinite TLV length is not supported" [])
    else if ltb usize_bytes count
    then err (malformed "TLV length does not fit in usize" [])
    else do
      digits ← ok_or (get_range? bytes pos (pos + count)) (malformed "truncated TLV length" [])
      ok (foldl (push_byte (2 ^ 64)) 0 digits, pos + count)

-- The second half: the length, and the position behind it.
unfoldable pub read_length : Bytes → ℕ → Result (ℕ × ℕ)
unfolding long_length
read_length bytes pos = do
  first_len ← ok_or (get_elem? bytes pos) (malformed "truncated TLV length" [])
  if ltb first_len 0x80
      then ok (first_len, pos + 1)
      else long_length (bit_and first_len 0x7F) bytes (pos + 1)

unfoldable pub parse_header : Bytes → Result Header
parse_header bytes = do
  (tag, pos) ← read_tag bytes
  (size, pos') ← read_length bytes pos
  ok (record { tag = tag; length = size; header_len = pos' })

unfoldable pub parse : Bytes → Result Tlv
parse bytes = do
  header ← parse_header bytes
  value ←
      ok_or (get_range? bytes header.header_len (total_len header))
        (malformed "TLV value is truncated" [])
  ok (record { tag = header.tag; value = value })

pub record Iter : Type 0 where
  pub rest : Bytes

pub iter : Bytes → Iter
iter bytes = record { rest = bytes }

-- The closure of `next`: the first object of `rest`, and how many bytes it takes.
pub read_object : Bytes → Result (ℕ × Tlv)
read_object rest = do
  header ← parse_header rest
  value ←
      ok_or (get_range? rest header.header_len (total_len header))
        (malformed "TLV value is truncated" [])
  ok (total_len header, record { tag = header.tag; value = value })

-- `match result`: past the object, or to the end after an error.
advance : Result (ℕ × Tlv) → Iter → Option (Result Tlv) × Iter
advance (ok (consumed, tlv)) it = (some (ok tlv), record { rest = drop consumed it.rest })
advance (err e) it = (some (err e), record { rest = [] })
advance stuck it = (some stuck, record { rest = [] })

pub next : Iter → Option (Result Tlv) × Iter
unfolding advance
next it = elim (get_elem? it.rest 0) [
  | none ↦ (none, it)
  | some first ↦
      if first == 0x00 || first == 0xFF then (none, it) else advance (read_object it.rest) it
]

-- What the iterator yields, in order: a `for` loop over it runs over this list.
pub item_list : ℕ → Iter → List (Result Tlv)
unfolding next
item_list zero it = stuck ∷ []
item_list (suc fuel) it =
    let (item, it') = next it in
    let rest = item_list fuel it' in elim item [ none ↦ [] | some r ↦ r ∷ rest ]

-- Each object takes two bytes at least, so as many rounds as bytes and one more are enough.
pub items : Bytes → List (Result Tlv)
unfolding item_list iter
items bytes = item_list (suc (length bytes)) (iter bytes)
