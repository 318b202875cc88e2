-- ===== src/Card/Files/Wrapped.antt =====
-- `read_binary_all` where the length in a header is near 2 ^ 64.
use myna_card.Prelude.{
  ℕ, ◌+◌, ◌^◌, ◌≤◌, ◌<◌, ◌≡◌, true, [], ◌∷◌, length, length-take, take, Bytes, IsByte, All, arith,
  leb, le→leb,
}
use myna_card.Error.{ok}
use myna_card.Transport.{Transmit}
use myna_card.Tlv.Ber.{Header, total_len, parse_header}
use myna_card.Tlv.Ber.Bounds.{HeaderFits, parse_header-HeaderFits}
use myna_card.Card.{Card}
use myna_card.Card.Files.{read_binary_chunk, read_binary_all, max_chunk}
use myna_card.Card.Files.Whole.{read_rest-within}

module _ {T : Type 0} ⦃link : Transmit T⦄ (fuel : ℕ) where
  -- A length that wraps truncates the content. Where the first chunk that a card sends is of bytes
  -- and begins with a header whose length and own size add up to 2^64 or more, read_binary_all
  -- asks for nothing further and returns, as the whole content, so few of the chunk's first bytes
  -- that they are fewer than the header has.
  pub read_binary_all-wrapped :
      (card card' : Card T) (out : Bytes) (h : Header)
      → read_binary_chunk fuel 0 max_chunk card ≡ (ok out, card')
      → All IsByte out
      → parse_header out ≡ ok h
      → 2 ^ 64 ≤ h.header_len + h.length
      → (read_binary_all fuel card ≡ (ok (take (total_len h) out), card'))
        × (length (take (total_len h) out) < h.header_len)
  unfolding read_binary_all
  read_binary_all-wrapped card card' [] h sent bytes head wraps =
      let fits : HeaderFits [] h = parse_header-HeaderFits [] h bytes head in
      absurd (omega (arith, fits.within, fits.at_least))
  read_binary_all-wrapped card card' (b ∷ bs) h sent bytes head wraps =
      let fits : HeaderFits (b ∷ bs) h = parse_header-HeaderFits (b ∷ bs) h bytes head in
      let short : total_len h < h.header_len = omega (arith, fits.size, fits.at_most) in
      let within : leb (total_len h) (length (b ∷ bs)) ≡ true =
        le→leb (total_len h) (length (b ∷ bs)) (omega (arith, fits.within)) in
      (
        rw sent (read_rest-within fuel (b ∷ bs) card' h head within),
        omega (arith, length-take (total_len h) (b ∷ bs)),
      )
