-- ===== src/Tlv/Ber/Iteration.antt =====
-- The iterator on the objects of a transparent file, and on any bytes.
use myna_card.Prelude.{
  ℕ, subst, zero, suc, ◌+◌, ◌<◌, ◌≡◌, ◌≢◌, refl, ap, ◌∙◌, List, [], ◌∷◌, ◌++◌, length,
  length-append, drop, drop-append, append_assoc, Bytes, IsByte, All, All-of_append, ◌⊎◌, arith,
}
use myna_card.Prelude.Words.{big_endian}
use myna_card.Error.{Error, Result, ok, err}
use myna_card.Tlv.Ber.{Tlv, read_object, next, item_list, items}
use myna_card.Tlv.Ber.Layout.{IsTag, IsLength, length_value}
use myna_card.Tlv.Ber.Objects.{IsObject, InMemory, extent, IsObject-read_object}

-- An object as it is written; `first` is the first byte of its tag.
pub record Object : Type 0 where
  pub first : ℕ
  pub tag_rest : Bytes
  pub length_field : Bytes
  pub value : Bytes

abbrev pub encode : Object → Bytes
encode o = o.first ∷ (o.tag_rest ++ (o.length_field ++ o.value))

abbrev pub tlv_of : Object → Tlv
tlv_of o = record { tag = big_endian (o.first ∷ o.tag_rest); value = o.value }

-- The fields are a tag and a length, and the first byte is no filler byte.
pub record IsWritten (o : Object) : Type 0 where
  pub is_tag : IsTag (o.first ∷ o.tag_rest)
  pub is_length : IsLength o.length_field
  pub size : length_value o.length_field ≡ length o.value
  pub not_zero : o.first ≢ 0x00
  pub not_erased : o.first ≢ 0xFF

abbrev pub encode_all : List Object → Bytes
encode_all [] = []
encode_all (o ∷ os) = encode o ++ encode_all os

abbrev pub yields : List Object → List (Result Tlv)
yields [] = []
yields (o ∷ os) = ok (tlv_of o) ∷ yields os

-- What may follow the last object: the end, or a filler byte and anything.
abbrev pub IsFiller : Bytes → Type 0
IsFiller [] = Unit
IsFiller (b ∷ _) = (b ≡ 0x00) ⊎ (b ≡ 0xFF)

pub item_list-ok :
    (fuel b : ℕ) (bs : Bytes) {n : ℕ} {t : Tlv}
    → b ≢ 0x00
    → b ≢ 0xFF
    → read_object (b ∷ bs) ≡ ok (n, t)
    → item_list (suc fuel) (record { rest = b ∷ bs })
      ≡ ok t ∷ item_list fuel (record { rest = drop n (b ∷ bs) })
unfolding item_list next
item_list-ok fuel b bs h k e = ground arith

pub item_list-err :
    (fuel b : ℕ) (bs : Bytes) {x : Error}
    → b ≢ 0x00
    → b ≢ 0xFF
    → read_object (b ∷ bs) ≡ err x
    → item_list (suc fuel) (record { rest = b ∷ bs })
      ≡ err x ∷ item_list fuel (record { rest = [] })
unfolding item_list next
item_list-err fuel b bs h k e = ground arith

pub item_list-filler :
    (fuel : ℕ) (bytes : Bytes)
    → IsFiller bytes
    → item_list (suc fuel) (record { rest = bytes }) ≡ []
unfolding item_list next
item_list-filler fuel [] h = refl
item_list-filler fuel (b ∷ bs) h = ground arith

-- A written object stands in front, in full.
pub encode-IsObject :
    (o : Object) (rest : Bytes)
    → IsWritten o
    → (obj : IsObject (encode o ++ rest) (tlv_of o)) × (extent obj ≡ length (encode o))
encode-IsObject o rest w = (
  record {
    tag_field = o.first ∷ o.tag_rest;
    length_field = o.length_field;
    rest = rest;
    is_tag = w.is_tag;
    is_length = w.is_length;
    tag_value = refl;
    size = w.size;
    whole =
        ap (λ r. o.first ∷ r)
          (append_assoc o.tag_rest (o.length_field ++ o.value) rest
            ∙ ap (λ r. o.tag_rest ++ r) (append_assoc o.length_field o.value rest));
  },
  omega (
    arith,
    length-append o.tag_rest (o.length_field ++ o.value),
    length-append o.length_field o.value,
  ),
)

item_list-encode :
    (fuel : ℕ) (o : Object) (rest : Bytes)
    → IsWritten o
    → All IsByte (encode o ++ rest)
    → InMemory (encode o ++ rest)
    → item_list (suc fuel) (record { rest = encode o ++ rest })
      ≡ ok (tlv_of o) ∷ item_list fuel (record { rest = rest })
item_list-encode fuel o rest w bs mem =
    let (obj, size) = encode-IsObject o rest w in
    item_list-ok fuel o.first _ w.not_zero w.not_erased (IsObject-read_object _ bs mem obj)
    ∙ ap (λ r. ok (tlv_of o) ∷ item_list fuel (record { rest = r }))
        (drop-append (encode o) rest (extent obj) size)

abbrev pub AllWritten : List Object → Type 0
AllWritten [] = Unit
AllWritten (o ∷ os) = IsWritten o × AllWritten os

item_list-encode_all :
    (os : List Object) (filler : Bytes) (fuel : ℕ)
    → AllWritten os
    → IsFiller filler
    → All IsByte (encode_all os ++ filler)
    → InMemory (encode_all os ++ filler)
    → length (encode_all os ++ filler) < fuel
    → item_list fuel (record { rest = encode_all os ++ filler }) ≡ yields os
item_list-encode_all os filler zero w hf bs mem l = absurd (omega arith)
item_list-encode_all [] filler (suc fuel) w hf bs mem l = item_list-filler fuel filler hf
item_list-encode_all (o ∷ os) filler (suc fuel) (w, ws) hf bs mem l =
    let more : Bytes = encode_all os ++ filler in
    let same : encode_all (o ∷ os) ++ filler ≡ encode o ++ more =
      append_assoc (encode o) (encode_all os) filler in
    let shorter : length (encode_all (o ∷ os) ++ filler) ≡ length (encode o) + length more =
      ap length same ∙ length-append (encode o) more in
    let bytes : All IsByte (encode o ++ more) = subst (All IsByte) same bs in
    rw same (
      item_list-encode fuel o more w bytes (omega (arith, length-append (encode o) more))
      ∙ ap (λ r. ok (tlv_of o) ∷ r)
          (item_list-encode_all os filler fuel ws hf (All-of_append IsByte (encode o) more bytes).1
            (omega arith) (omega arith)))

-- Over a sequence of objects none of which begins with a filler byte, followed by nothing or by a
-- filler byte and anything, the iterator yields each of the objects once, in order, and ends.
pub ber_items-encode_all :
    (os : List Object) (filler : Bytes)
    → AllWritten os
    → IsFiller filler
    → All IsByte (encode_all os ++ filler)
    → InMemory (encode_all os ++ filler)
    → items (encode_all os ++ filler) ≡ yields os
unfolding items
ber_items-encode_all os filler w hf bs mem =
    item_list-encode_all os filler (suc (length (encode_all os ++ filler))) w hf bs mem
      (omega arith)
