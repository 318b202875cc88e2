-- ===== src/Tlv/Simple/Iteration.antt =====
-- The iterator and `find` on the bytes of a record structured file.
use myna_card.Prelude.{
  ℕ, zero, suc, ◌≤◌, ◌<◌, ◌≡◌, ◌≢◌, refl, ap, ◌∙◌, none, some, List, [], ◌∷◌, ◌++◌, length,
  length-append, drop-append, append_assoc, append-nil, Bytes, arith, ==_refl, ne→==_false,
}
use myna_card.Error.{Result, ok}
use myna_card.Tlv.Simple.{Tlv, next, item_list, items, find_in, find}
use myna_card.Tlv.Simple.Format.{Form, short, long, Fits, encode, read_object-encode}

-- Objects one behind the other, each in a form of its own.
abbrev pub encode_all : List (Form × Tlv) → Bytes
encode_all [] = []
encode_all ((f, t) ∷ os) = encode f t ++ encode_all os

abbrev pub AllFit : List (Form × Tlv) → Type 0
AllFit [] = Unit
AllFit ((f, t) ∷ os) = Fits f t × AllFit os

-- What may follow the last object: the end, or erased bytes.
abbrev pub IsFiller : Bytes → Type 0
IsFiller [] = Unit
IsFiller (b ∷ _) = b ≡ 0xFF

item_list-encode :
    (fuel : ℕ) (f : Form) (t : Tlv) (rest : Bytes)
    → Fits f t
    → item_list (suc fuel) (record { rest = encode f t ++ rest })
      ≡ ok t ∷ item_list fuel (record { rest = rest })
unfolding item_list next
item_list-encode fuel short t rest h =
    ground (arith, read_object-encode short t rest h, drop-append t.value rest (length t.value))
item_list-encode fuel long t rest h =
    ground (arith, read_object-encode long t rest h, drop-append t.value rest (length t.value))

item_list-filler :
    (fuel : ℕ) (bytes : Bytes)
    → IsFiller bytes
    → item_list (suc fuel) (record { rest = bytes }) ≡ []
unfolding item_list next
item_list-filler fuel [] h = refl
item_list-filler fuel (b ∷ bs) h = ground arith

-- The objects as the iterator yields them.
abbrev pub yields : List (Form × Tlv) → List (Result Tlv)
yields [] = []
yields ((f, t) ∷ os) = ok t ∷ yields os

length-encode : (f : Form) (t : Tlv) → 2 ≤ length (encode f t)
length-encode short t = omega arith
length-encode long t = omega arith

item_list-encode_all :
    (os : List (Form × Tlv)) (tail : Bytes) (fuel : ℕ)
    → AllFit os
    → length (encode_all os ++ tail) < fuel
    → (k : ℕ) × (length tail < k)
      × (item_list fuel (record { rest = encode_all os ++ tail })
          ≡ yields os ++ item_list k (record { rest = tail }))
item_list-encode_all [] tail fuel h l = (fuel, l, refl)
item_list-encode_all (o ∷ os) tail zero h l = absurd (omega arith)
item_list-encode_all ((f, t) ∷ os) tail (suc fuel) (h, hs) l =
    let more : Bytes = encode_all os ++ tail in
    let same : encode_all ((f, t) ∷ os) ++ tail ≡ encode f t ++ more =
      append_assoc (encode f t) (encode_all os) tail in
    let shorter : length more < fuel =
      omega (arith, ap length same, length-append (encode f t) more, length-encode f t) in
    let (k, fits, e) = item_list-encode_all os tail fuel hs shorter in
    (k, fits, rw same (item_list-encode fuel f t more h ∙ ap (λ r. ok t ∷ r) e))

-- Over a sequence of objects, followed by nothing or by erased bytes, the iterator yields each of
-- the objects once, in order, and ends.
pub simple_items-encode_all :
    (os : List (Form × Tlv)) (filler : Bytes)
    → AllFit os
    → IsFiller filler
    → items (encode_all os ++ filler) ≡ yields os
unfolding items
simple_items-encode_all os filler h hf =
    let (k, l, e) =
      item_list-encode_all os filler (suc (length (encode_all os ++ filler))) h (omega arith) in
    rw e (filled k l)
  where
    filled :
        (k : ℕ)
        → length filler < k
        → yields os ++ item_list k (record { rest = filler }) ≡ yields os
    filled zero l = absurd (omega arith)
    filled (suc k) l = rw (item_list-filler k filler hf) (append-nil (yields os))

-- None of the objects has the tag.
abbrev pub NoTag : List (Form × Tlv) → ℕ → Type 0
NoTag [] tag = Unit
NoTag ((f, t) ∷ os) tag = (t.tag ≢ tag) × NoTag os tag

find_in-yields :
    (os : List (Form × Tlv)) (tag : ℕ) (rest : List (Result Tlv))
    → NoTag os tag
    → find_in (yields os ++ rest) tag ≡ find_in rest tag
unfolding find_in
find_in-yields [] tag rest h = refl
find_in-yields ((f, t) ∷ os) tag rest (h, hs) =
    rw (ne→==_false t.tag tag h) (find_in-yields os tag rest hs)

-- `find` answers with the value of the first object that has the tag, whatever bytes stand behind
-- that object, malformed ones included.
find_first :
    (os : List (Form × Tlv)) (f : Form) (t : Tlv) (behind : Bytes)
    → AllFit os
    → NoTag os t.tag
    → Fits f t
    → find (encode_all os ++ (encode f t ++ behind)) t.tag ≡ ok (some t.value)
unfolding find items
find_first os f t behind h absent ht =
    let bytes : Bytes = encode_all os ++ (encode f t ++ behind) in
    let (k, l, e) =
      item_list-encode_all os (encode f t ++ behind) (suc (length bytes)) h (omega arith) in
    rw (e, find_in-yields os t.tag _ absent) (first k l)
  where
    first :
        (k : ℕ)
        → length (encode f t ++ behind) < k
        → find_in (item_list k (record { rest = encode f t ++ behind })) t.tag ≡ ok (some t.value)
    first zero l = absurd (omega arith)
    first (suc k) l = rw (item_list-encode k f t behind ht, find_in, ==_refl t.tag)

-- Where no object has the tag, and nothing or erased bytes follow the objects, `find` finds nothing.
pub find_absent :
    (os : List (Form × Tlv)) (filler : Bytes) (tag : ℕ)
    → AllFit os
    → NoTag os tag
    → IsFiller filler
    → find (encode_all os ++ filler) tag ≡ ok none
unfolding find find_in
find_absent os filler tag h absent hf =
    rw (simple_items-encode_all os filler h hf, ← append-nil (yields os))
      (find_in-yields os tag [] absent)
