-- ===== src/Data/Date/Days.antt =====
-- The calendar of `Date::from_unix_seconds`: the date of the day after is the next date.
use myna_card.Prelude.{
  ℕ, ◌+◌, ◌*◌, ◌/◌, ◌<◌, ◌≡◌, refl, ap, sym, ◌∙◌, inl, inr, arith, ltb, ◌==◌, Bool-cases, ltb→lt,
  ltb_false→le, ==_iff, subst,
}
use myna_card.Prelude.Int.{pos}
use myna_card.Data.Date.{
  calendar_date, year_of_era, day_of_year, shifted_month, day_of_month, calendar_month, from_days,
  from_unix_seconds,
}
use myna_card.Data.Date.Calendar.{
  month_length, next_date, year_start, month_start, march_date, next_within, next_month,
  next_february, next_march,
}
use myna_card.Data.Date.Numbers.{year_end, day_number, Within, located, from_days-march_date}

-- A year that begins in March ends with the February of the next calendar year.
year_end_february :
    (e y : ℕ) → y < 400 → year_end y ≡ year_start y + 337 + month_length (400 * e + y + 1) 2
year_end_february e y h = ground arith

-- The day after, in each of the cases of the calendar.
after :
    (e y m d n : ℕ)
    → Within y m d
    → 400 * e + y < 65535
    → n ≡ day_number e y m d
    → from_days (pos n) ≡ march_date (400 * e + y) m d
after e y m d n w h k = ap (λ x. from_days (pos x)) k ∙ from_days-march_date e y m d w h

next_before_february :
    (e y m d : ℕ)
    → Within y m d
    → m < 11
    → 400 * e + y + 1 < 65535
    → from_days (pos (day_number e y m d + 1)) ≡ next_date (march_date (400 * e + y) m d)
next_before_february e y m d w k h =
    elim (Bool-cases (ltb (month_start m + d + 1) (month_start (m + 1)))) [
      | inl t ↦
          let l : month_start m + d + 1 < month_start (m + 1) = ltb→lt _ _ t in
          after e y m (d + 1) _
            (record {
              year = w.year;
              month = w.month;
              in_month = omega arith;
              in_year = ground arith;
            })
            (omega arith) (omega arith)
          ∙ sym (next_within (400 * e + y) m d k l)
      | inr t ↦
          let l : month_start m + d + 1 ≡ month_start (m + 1) =
            omega (arith, ltb_false→le _ _ t, w.in_month) in
          after e y (m + 1) 0 _
            (record {
              year = w.year;
              month = omega arith;
              in_month = omega arith;
              in_year = ground arith;
            })
            (omega arith) (omega arith)
          ∙ sym (next_month (400 * e + y) m d k l)
    ]

next_new_year :
    (e y d : ℕ)
    → y < 400
    → d + 1 ≡ month_length (400 * e + y + 1) 2
    → 400 * e + y + 1 < 65535
    → from_days (pos (day_number e y 11 d + 1)) ≡ march_date (400 * e + y + 1) 0 0
next_new_year e y d h l b =
    let full : year_start y + 337 + d + 1 ≡ year_end y = omega (arith, year_end_february e y h) in
    elim (Bool-cases (y == 399)) [
      | inl t ↦
          let last : y ≡ 399 = (==_iff y 399).0 t in
          after (e + 1) 0 0 0 _
            (record {
              year = omega arith;
              month = omega arith;
              in_month = omega arith;
              in_year = ground arith;
            })
            (omega arith) (ground arith)
          ∙ ap (λ x. march_date x 0 0) (omega arith)
      | inr t ↦
          after e (y + 1) 0 0 _
            (record {
              year = ground arith;
              month = omega arith;
              in_month = omega arith;
              in_year = ground arith;
            })
            (omega arith) (ground arith)
          ∙ ap (λ x. march_date x 0 0) (omega arith)
    ]

next_in_february :
    (e y d : ℕ)
    → Within y 11 d
    → 400 * e + y + 1 < 65535
    → from_days (pos (day_number e y 11 d + 1)) ≡ next_date (march_date (400 * e + y) 11 d)
next_in_february e y d w h =
    let size = year_end_february e y w.year in
    elim (Bool-cases (ltb (d + 1) (month_length (400 * e + y + 1) 2))) [
      | inl t ↦
          let l : d + 1 < month_length (400 * e + y + 1) 2 = ltb→lt _ _ t in
          after e y 11 (d + 1) _
            (record {
              year = w.year;
              month = omega arith;
              in_month = ground arith;
              in_year = omega (arith, size, l);
            })
            (omega arith) (omega arith)
          ∙ sym (next_february (400 * e + y) d l)
      | inr t ↦
          let l : d + 1 ≡ month_length (400 * e + y + 1) 2 =
            omega (arith, ltb_false→le _ _ t, w.in_year, size) in
          next_new_year e y d w.year l h ∙ sym (next_march (400 * e + y) d l)
    ]

next_located :
    (e y m d : ℕ)
    → Within y m d
    → 400 * e + y + 1 < 65535
    → from_days (pos (day_number e y m d + 1)) ≡ next_date (march_date (400 * e + y) m d)
next_located e y m d w h = elim (Bool-cases (m == 11)) [
  | inl t ↦
      let last : m ≡ 11 = (==_iff m 11).0 t in
      ap (λ x. from_days (pos (day_number e y x d + 1))) last
      ∙ (next_in_february e y d (subst (λ x. Within y x d) last w) h
          ∙ ap (λ x. next_date (march_date (400 * e + y) x d)) (sym last))
  | inr t ↦ next_before_february e y m d w (ground arith) h
]

-- Days counted from the first of March of the year 0 on, up to the year 65490 or so.
from_days-next_date :
    (n : ℕ) → n < 65534 * 365 → from_days (pos (n + 1)) ≡ next_date (from_days (pos n))
from_days-next_date n h =
    let (e, y, m, d, w, k) = located n in
    let small : 400 * e + y + 1 < 65535 = omega (arith, k) in
    ap (λ x. from_days (pos (x + 1))) k
    ∙ (next_located e y m d w small ∙ ap next_date (sym (after e y m d n w (omega arith) k)))

epoch : from_days (pos 719468) ≡ calendar_date 1970 1 1
unfolding from_days year_of_era day_of_year shifted_month day_of_month calendar_month
epoch = refl

-- Of the seconds since 1970, those of the first day give 1970-01-01, and for less than 63000 times
-- 365 days of seconds, a day later `from_unix_seconds` gives the next date of the Gregorian
-- calendar, with its lengths of months and its leap years.
pub from_unix_seconds-next_date :
    (s : ℕ)
    → s < 86400 * 365 * 63000
    → ((s < 86400) → from_unix_seconds (pos s) ≡ calendar_date 1970 1 1)
      × (from_unix_seconds (pos (s + 86400)) ≡ next_date (from_unix_seconds (pos s)))
unfolding from_unix_seconds
from_unix_seconds-next_date s h =
    let later : (s + 86400) / 86400 + 719468 ≡ s / 86400 + 719468 + 1 = omega arith in
    (
      (λ k.
          let first : s / 86400 + 719468 ≡ 719468 = omega arith in
          ap (λ x. from_days (pos x)) first ∙ epoch),
      ap (λ x. from_days (pos x)) later ∙ from_days-next_date (s / 86400 + 719468) (omega arith),
    )
