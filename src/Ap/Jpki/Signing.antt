-- ===== src/Ap/Jpki/Signing.antt =====
-- What `sign` refuses, and what it sends.
use myna_card.Prelude.{
  ℕ, suc, ◌≤◌, ◌≡◌, ◌↔◌, true, Bool-cases, inl, inr, List, [], ◌∷◌, ◌++◌, length, Bytes, arith,
  bit_or,
}
use myna_card.Error.{err, bad_signing_input}
use myna_card.Transport.Mock.{mock_link}
use myna_card.Apdu.Command.{Command, with_data_le}
use myna_card.Apdu.Command.Checks.{encoding}
use myna_card.Apdu.Response.{Response}
use myna_card.Apdu.Response.Splitting.{raw_of}
use myna_card.Ap.Scheme.{
  SignatureScheme, verbatim, sha256_bare, pre_hashed_digest_info, sha256_digest_info,
  pre_hashed_pss, sha256_pss, p1, allows,
}
use myna_card.Card.Exchange.Chain.{scripted, IsFinal}
use myna_card.Card.Files.Identifiers.{from_ef_id-short}
use myna_card.Card.Keys.Answers.{outcome, call_ok-final}
use myna_card.Ap.Jpki.{check_input, sign}

-- The sizes that the documentation of the schemes gives.
abbrev pub IsAllowed : SignatureScheme → ℕ → Type 0
IsAllowed verbatim n = (1 ≤ n) × (n ≤ 245)
IsAllowed sha256_bare n = (1 ≤ n) × (n ≤ 255)
IsAllowed pre_hashed_digest_info n = n ≡ 32
IsAllowed sha256_digest_info n = (1 ≤ n) × (n ≤ 255)
IsAllowed pre_hashed_pss n = n ≡ 32
IsAllowed sha256_pss n = (1 ≤ n) × (n ≤ 255)

allows-IsAllowed :
    (scheme : SignatureScheme) (n : ℕ) → (allows scheme n ≡ true) ↔ IsAllowed scheme n
unfolding allows
allows-IsAllowed verbatim n = ground arith
allows-IsAllowed sha256_bare n = ground arith
allows-IsAllowed pre_hashed_digest_info n = ground arith
allows-IsAllowed sha256_digest_info n = ground arith
allows-IsAllowed pre_hashed_pss n = ground arith
allows-IsAllowed sha256_pss n = ground arith

IsAllowed-le : (scheme : SignatureScheme) (n : ℕ) → IsAllowed scheme n → n ≤ 255
IsAllowed-le verbatim n h = omega arith
IsAllowed-le sha256_bare n h = omega arith
IsAllowed-le pre_hashed_digest_info n h = omega arith
IsAllowed-le sha256_digest_info n h = omega arith
IsAllowed-le pre_hashed_pss n h = omega arith
IsAllowed-le sha256_pss n h = omega arith

-- The values of P1 that the documentation of the schemes gives.
abbrev pub Selects : SignatureScheme → ℕ → Type 0
Selects verbatim n = n ≡ 0
Selects sha256_bare n = n ≡ 1
Selects pre_hashed_digest_info n = n ≡ 2
Selects sha256_digest_info n = n ≡ 3
Selects pre_hashed_pss n = n ≡ 4
Selects sha256_pss n = n ≡ 5

p1-Selects : (scheme : SignatureScheme) (n : ℕ) → Selects scheme n → n ≡ p1 scheme
unfolding p1
p1-Selects verbatim n h = h
p1-Selects sha256_bare n h = h
p1-Selects pre_hashed_digest_info n h = h
p1-Selects sha256_digest_info n h = h
p1-Selects pre_hashed_pss n h = h
p1-Selects sha256_pss n h = h

-- With an input of a size that the scheme allows, and a key file that has a short identifier, `sign`
-- sends one command, with the value that the documentation gives for the scheme in P1 and the key in
-- P2, and the answer, where it asks for
-- nothing more, decides; with an input of any other size it fails before anything is sent.
pub sign-checked :
    (fuel key selector : ℕ) (scheme : SignatureScheme) (bytes : Bytes) (r : Response)
    (rs sent : List Bytes)
    → 1 ≤ key
    → key ≤ 0x1E
    → IsFinal r
    → Selects scheme selector
    → (IsAllowed scheme (length bytes)
        → sign (suc fuel) key scheme bytes (scripted (raw_of r ∷ rs) sent) ≡ (
          outcome r,
          scripted rs (
              sent
              ++ (encoding (with_data_le 0x80 0x2A selector (bit_or 0x80 key) bytes 256) ∷ [])),
        ))
      × (¬ IsAllowed scheme (length bytes)
          → sign (suc fuel) key scheme bytes (scripted (raw_of r ∷ rs) sent)
            ≡ (err (bad_signing_input scheme (length bytes)), scripted (raw_of r ∷ rs) sent))
unfolding sign check_input
sign-checked fuel key selector scheme bytes r rs sent lo hi f sel = (
  (λ h.
      let fits : allows scheme (length bytes) ≡ true =
        (allows-IsAllowed scheme (length bytes)).1 h in
      let short : length bytes ≤ 255 = IsAllowed-le scheme (length bytes) h in
      let c : Command = with_data_le 0x80 0x2A (p1 scheme) (bit_or 0x80 key) bytes 256 in
      rw (
        p1-Selects scheme selector sel,
        fits,
        from_ef_id-short key lo hi,
        call_ok-final fuel c r rs sent
            (record { data_field = omega (arith, short); le = (omega arith, omega arith) }) f,
      )),
  λ h. elim (Bool-cases (allows scheme (length bytes))) [
    | inl fits ↦ absurd (h ((allows-IsAllowed scheme (length bytes)).0 fits))
    | inr out ↦ rw out
  ],
)
