-- ===== src/Transport/Pcsc/Readers.antt =====
-- Which reader `connect` opens.
use myna_card.Prelude.{
  ◌≡◌, ◌≢◌, refl, sym, subst, ap, ◌⊎◌, inl, inr, none, some, List, [], ◌∷◌, ◌++◌, All, Bytes, true,
  false, Bool-cases,
}
use myna_card.Prelude.Compare.{same_bytes, same_bytes_sound, same_bytes_refl}
use myna_card.Prelude.Utf8.{utf8_lossy}
use myna_card.Error.{err, reader_not_found}
use myna_card.Transport.Pcsc.{Pcsc, done, Sharing, find_reader, open_card, connect}

-- The name does not read as the given one.
abbrev pub Differs : Bytes → Bytes → Type 0
Differs reader name = utf8_lossy name ≢ reader

-- The first name that reads as the given one, and those before it.
pub record FirstNamed (reader : Bytes) (names : List Bytes) (name : Bytes) : Type 0 where
  pub before : List Bytes
  pub after : List Bytes
  pub whole : names ≡ before ++ (name ∷ after)
  pub others : All (Differs reader) before
  pub reads : utf8_lossy name ≡ reader

other_name :
    (reader name : Bytes) → same_bytes (utf8_lossy name) reader ≡ false → Differs reader name
other_name reader name h e =
    let same : same_bytes (utf8_lossy name) reader ≡ true =
      subst (λ x. same_bytes x reader ≡ true) (sym e) (same_bytes_refl reader) in
    cc

find_reader_cases :
    (reader : Bytes) (names : List Bytes)
    → (All (Differs reader) names × (find_reader reader names ≡ none))
      ⊎ ((name : Bytes) × FirstNamed reader names name × (find_reader reader names ≡ some name))
unfolding find_reader
find_reader_cases reader [] = inl (tt, refl)
find_reader_cases reader (name ∷ names) = elim (Bool-cases (same_bytes (utf8_lossy name) reader)) [
  | inl here ↦ inr (
    name,
    record {
      before = [];
      after = names;
      whole = refl;
      others = tt;
      reads = same_bytes_sound _ _ here;
    },
    rw here,
  )
  | inr later ↦
      let differs = other_name reader name later in
      elim (find_reader_cases reader names) [
        | inl (all, absent) ↦ inl ((differs, all), rw later absent)
        | inr (found, f, same) ↦ inr (
          found,
          record {
            before = name ∷ f.before;
            after = f.after;
            whole = ap (λ x. name ∷ x) f.whole;
            others = (differs, f.others);
            reads = f.reads;
          },
          rw later same,
        )
      ]
]

-- Where the service has a context and names its readers, connect fails with ReaderNotFound if no
-- name reads as the given one, and has opened nothing; else it opens the first that does, with the
-- mode asked for.
connect_first :
    (p : Pcsc) (reader : Bytes) (sharing : Sharing) (context : p.Context) (names : List Bytes)
    (s s1 s2 : p.Service)
    → p.establish s ≡ (done context, s1)
    → p.list_readers_owned context s1 ≡ (done names, s2)
    → (All (Differs reader) names
        × (connect p reader sharing s ≡ (err (reader_not_found reader), s2)))
      ⊎ ((name : Bytes) × FirstNamed reader names name
          × (connect p reader sharing s ≡ open_card p context name sharing s2))
unfolding connect
connect_first p reader sharing context names s s1 s2 h k = elim (find_reader_cases reader names) [
  | inl (all, absent) ↦ inl (all, rw (h, k, absent) refl)
  | inr (name, f, same) ↦ inr (name, f, rw (h, k, same) refl)
]
