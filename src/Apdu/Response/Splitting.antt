-- ===== src/Apdu/Response/Splitting.antt =====
-- A raw response and its two parts.
use myna_card.Prelude.{
  ℕ, ◌-◌, ◌≤◌, ◌<◌, ◌≡◌, sym, [], ◌∷◌, ◌++◌, length, length-append, length-drop, take, drop,
  take-append, drop-append, take-append-drop, All-drop, Bytes, IsByte, All, ◌↔◌, arith,
}
use myna_card.Prelude.Words.{to_be_bytes, from_be_bytes}
use myna_card.Apdu.Response.{Response, parse}
use myna_card.Error.{ok}

-- The bytes that the card sends for a response.
abbrev pub raw_of : Response → Bytes
raw_of r = r.data_field ++ to_be_bytes r.status.value

pub parse-raw_of : (r : Response) → r.status.value < 65536 → parse (raw_of r) ≡ ok r
unfolding parse
parse-raw_of r h =
    let tail : Bytes = to_be_bytes r.status.value in
    let n : ℕ = length (raw_of r) - 2 in
    let size : n ≡ length r.data_field = omega (arith, length-append r.data_field tail) in
    ground (
      arith,
      length-append r.data_field tail,
      take-append r.data_field tail n size,
      drop-append r.data_field tail n size,
    )

two_bytes :
    (bs : Bytes)
    → length bs ≡ 2
    → All IsByte bs
    → (from_be_bytes bs < 65536) × (bs ≡ to_be_bytes (from_be_bytes bs))
two_bytes [] h b = absurd (omega arith)
two_bytes (x ∷ []) h b = absurd (omega arith)
two_bytes (x ∷ y ∷ []) h b = (omega arith, ground arith)
two_bytes (x ∷ y ∷ z ∷ bs) h b = absurd (omega arith)

parse-split :
    (raw : Bytes) {r : Response}
    → All IsByte raw
    → parse raw ≡ ok r
    → (r.status.value < 65536) × (raw ≡ raw_of r)
unfolding parse
parse-split raw {r} bs e =
    let n : ℕ = length raw - 2 in
    let long : 2 ≤ length raw = ground arith in
    let (w, same) =
      two_bytes (drop n raw) (omega (arith, length-drop n raw)) (All-drop IsByte n raw bs) in
    let data_part : r.data_field ≡ take n raw = ground arith in
    let status_part : r.status.value ≡ from_be_bytes (drop n raw) = ground arith in
    (rw status_part w, rw (data_part, status_part, ← same) (sym (take-append-drop n raw)))

-- `Response::parse` returns a response exactly when the raw bytes are its data field and, behind it,
-- the two bytes of its status word, the higher one first.
response_parse_iff :
    (raw : Bytes) (r : Response)
    → All IsByte raw
    → (parse raw ≡ ok r) ↔ ((r.status.value < 65536) × (raw ≡ raw_of r))
response_parse_iff raw r bs = (parse-split raw bs, λ h. rw (h.1) (parse-raw_of r h.0))
