-- ===== src/Error.antt =====
-- src/error.rs: the crate's errors, its `Result`, and the classification of a status word.
pub mod Classes
pub mod Checks
use myna_card.Prelude.{
  ℕ, String, ◌≡◌, refl, Bool, true, false, Option, none, some, List, Bytes, ◌||◌, ◌==◌,
  if◌then◌else◌, ◌⊎◌, inl, inr,
}
use myna_card.Apdu.Status.{StatusWord, retries_remaining}
use myna_card.Ap.Scheme.{SignatureScheme}
use myna_card.Data.KeyId.{KeyId}

-- `pcsc` stands for an error of the PC/SC service, of which the crate hands on the code alone.
-- `malformed` holds the text of its message and the numbers that are formatted into it.
pub data Error : Type 0 where
  pcsc : ℕ → Error
  no_reader : Error
  reader_not_found : Bytes → Error
  status : StatusWord → Error
  short_response : ℕ → Error
  data_too_long : ℕ → Error
  expected_length_out_of_range : ℕ → Error
  pin_incorrect : Option ℕ → Error
  pin_blocked : Error
  invalid_pin : String → Error
  offset_out_of_range : ℕ → Error
  invalid_df_name : ℕ → Error
  no_short_ef_id : ℕ → Error
  invalid_record_number : Error
  bad_signing_input : SignatureScheme → ℕ → Error
  unknown_certificate_authority : KeyId → Error
  signature_invalid : String → Error
  malformed : String → List ℕ → Error

-- `stuck` is no value of the program: it panicked, or the model's fuel ran out.
pub data Result {ℓ} (A : Type ℓ) : Type ℓ where
  ok : A → Result A
  err : Error → Result A
  stuck : Result A

module _ {ℓ κ} {A : Type ℓ} {B : Type κ} where
  infixl 5 ◌>>=◌ ◌>>◌
  abbrev pub ◌>>=◌ : Result A → (A → Result B) → Result B
  ok a >>= f = f a
  err e >>= f = err e
  stuck >>= f = stuck

  abbrev pub ◌>>◌ : Result A → Result B → Result B
  m >> k = m >>= λ _. k

  -- A chain that succeeds has a first step that does.
  pub bind-eq-ok :
      (first : Result A) (next : A → Result B) {b : B}
      → (first >>= next) ≡ ok b
      → (a : A) × (first ≡ ok a) × (next a ≡ ok b)
  bind-eq-ok stuck next e = cc
  bind-eq-ok (err x) next e = cc
  bind-eq-ok (ok a) next e = (a, refl, e)

-- `if !test { return Err(e) }`
abbrev pub guard : Bool → Error → Result (Unit {0})
guard true e = ok tt
guard false e = err e

-- `Option::ok_or`
abbrev pub ok_or {ℓ} : {A : Type ℓ} → Option A → Error → Result A
ok_or none e = err e
ok_or (some a) e = ok a

-- `Error::from_status`
unfoldable pub from_status : StatusWord → Error
unfolding retries_remaining
from_status sw =
    if sw.value == 0x63C0 || sw.value == 0x6984
    then pin_blocked
    else if sw.value == 0x6300
    then pin_incorrect none
    else elim (retries_remaining sw) [ some n ↦ pin_incorrect (some n) | none ↦ status sw ]

pub Result-cases {ℓ} :
    {A : Type ℓ} (r : Result A)
    → ((a : A) × (r ≡ ok a)) ⊎ (((e : Error) × (r ≡ err e)) ⊎ (r ≡ stuck))
Result-cases (ok a) = inl (a, refl)
Result-cases (err e) = inr (inl (e, refl))
Result-cases stuck = inr (inr refl)
