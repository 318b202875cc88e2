-- ===== src/Tlv/Simple/Format.antt =====
-- The format of JICSAP 4.4.1 (1), written down as an encoder, and `parse` against it.
use myna_card.Prelude.{
  ℕ, ◌+◌, ◌*◌, ◌≤◌, ◌<◌, ◌≡◌, [], ◌∷◌, ◌++◌, length, length-append, drop, take-append,
  take-append-drop, length-take, Bytes, IsByte, All, ◌↔◌, arith,
}
use myna_card.Prelude.Words.{to_be_bytes, from_be_bytes}
use myna_card.Error.{ok, ◌>>=◌, bind-eq-ok}
use native.Mathlib.Decide.{ℕ_discrete}
use myna_card.Tlv.Simple.{Tlv, parse, read_object}

-- The two forms of the length field.
pub data Form : Type 0 where
  short long : Form

-- The tag and the length field of an object.
abbrev pub head_of : Form → Tlv → Bytes
head_of short t = t.tag ∷ length t.value ∷ []
head_of long t = t.tag ∷ 0xFF ∷ to_be_bytes (length t.value)

abbrev pub encode : Form → Tlv → Bytes
encode f t = head_of f t ++ t.value

-- The tag is not FF, and the length is one that the form can hold.
abbrev pub Fits : Form → Tlv → Type 0
Fits short t = (t.tag < 0xFF) × (length t.value ≤ 254)
Fits long t = (t.tag < 0xFF) × (length t.value ≤ 65535)

-- Reading an object takes exactly the bytes of its encoding.
pub read_object-encode :
    (f : Form) (t : Tlv) (rest : Bytes)
    → Fits f t
    → read_object (encode f t ++ rest) ≡ ok (length (encode f t), t)
unfolding read_object
read_object-encode short t rest h =
    ground (arith, take-append t.value rest (length t.value), length-append t.value rest)
read_object-encode long t rest h = ground (
  arith,
  take-append t.value rest (from_be_bytes (to_be_bytes (length t.value))),
  length-append t.value rest,
)

parse-read_object : (bytes : Bytes) → parse bytes ≡ (read_object bytes >>= λ p. ok p.1)
unfolding parse read_object
parse-read_object bytes = ground arith

-- An object that was read, at the front of `bytes`.
pub record IsRead (bytes : Bytes) (n : ℕ) (t : Tlv) : Type 0 where
  pub form : Form
  pub rest : Bytes
  pub fits : Fits form t
  pub whole : bytes ≡ encode form t ++ rest
  pub taken : n ≡ length (encode form t)

short-IsRead :
    (tag l : ℕ) (rest : Bytes) {n : ℕ} {t : Tlv}
    → l < 0xFF
    → tag < 256
    → read_object (tag ∷ l ∷ rest) ≡ ok (n, t)
    → IsRead (tag ∷ l ∷ rest) n t
unfolding read_object
short-IsRead tag l rest {n} {t} hl ht e = record {
  form = short;
  rest = drop l rest;
  fits = ground (arith, length-take l rest);
  whole = ground (arith, take-append-drop l rest, length-take l rest);
  taken = ground (arith, length-take l rest);
}

long-IsRead :
    (tag hi lo : ℕ) (rest : Bytes) {n : ℕ} {t : Tlv}
    → tag < 256
    → hi < 256
    → lo < 256
    → read_object (tag ∷ 0xFF ∷ hi ∷ lo ∷ rest) ≡ ok (n, t)
    → IsRead (tag ∷ 0xFF ∷ hi ∷ lo ∷ rest) n t
unfolding read_object
long-IsRead tag hi lo rest {n} {t} ht hh hl e =
    let size : ℕ = hi * 256 + lo in
    record {
      form = long;
      rest = drop size rest;
      fits = ground (arith, length-take size rest);
      whole = ground (arith, take-append-drop size rest, length-take size rest);
      taken = ground (arith, length-take size rest);
    }

long-IsRead_any :
    (tag : ℕ) (rest : Bytes) {n : ℕ} {t : Tlv}
    → All IsByte (tag ∷ rest)
    → read_object (tag ∷ 0xFF ∷ rest) ≡ ok (n, t)
    → IsRead (tag ∷ 0xFF ∷ rest) n t
long-IsRead_any tag [] h e = unfold read_object in absurd (ground arith)
long-IsRead_any tag (hi ∷ []) h e = unfold read_object in absurd (ground arith)
long-IsRead_any tag (hi ∷ lo ∷ rest) h e = long-IsRead tag hi lo rest h.0 h.1.0 h.1.1.0 e

pub read_object-IsRead :
    (bytes : Bytes) {n : ℕ} {t : Tlv}
    → All IsByte bytes
    → read_object bytes ≡ ok (n, t)
    → IsRead bytes n t
read_object-IsRead [] h e = unfold read_object in cc
read_object-IsRead (tag ∷ []) h e = unfold read_object in absurd (ground arith)
read_object-IsRead (tag ∷ l ∷ rest) h e = elim (ℕ_discrete l 0xFF) [
  | yes p ↦ rw p (long-IsRead_any tag rest (h.0, h.1.1) (rw p at e))
  | no p ↦ short-IsRead tag l rest (omega arith) h.0 e
]

-- `parse` returns an object exactly when the bytes begin with an encoding of it in one of the two
-- forms, whatever follows: a tag below FF, then one length byte for 0 to 254 bytes of value, or FF
-- and a two byte length for up to 65535.
pub simple_parse_iff :
    (bytes : Bytes) (t : Tlv)
    → All IsByte bytes
    → (parse bytes ≡ ok t) ↔ ((f : Form) × (rest : Bytes) × Fits f t × (bytes ≡ encode f t ++ rest))
simple_parse_iff bytes t h = (reads, written)
  where
    reads :
        parse bytes ≡ ok t → (f : Form) × (rest : Bytes) × Fits f t × (bytes ≡ encode f t ++ rest)
    reads e =
        let ((n, t'), r, same) = bind-eq-ok (read_object bytes) _ (rw parse-read_object at e) in
        let seen : IsRead bytes n t = read_object-IsRead bytes h (cc) in
        (seen.form, seen.rest, seen.fits, seen.whole)

    written :
        (f : Form) × (rest : Bytes) × Fits f t × (bytes ≡ encode f t ++ rest) → parse bytes ≡ ok t
    written (f, rest, fits, whole) = rw (whole, parse-read_object, read_object-encode f t rest fits)
