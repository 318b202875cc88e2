-- ===== src/Data/Date/Numbers.antt =====
-- The number of a day, and the date that the code gives for it.
use myna_card.Prelude.{
  ℕ, ◌+◌, ◌-◌, ◌*◌, ◌/◌, ◌%◌, ◌^◌, ◌≤◌, ◌<◌, ◌≡◌, refl, ◌∙◌, arith, leb, ◌==◌, if◌then◌else◌,
}
use myna_card.Prelude.Int.{pos}
use myna_card.Data.Date.{
  Date, calendar_date, year_of_era, day_of_year, shifted_month, day_of_month, calendar_month,
  from_days,
}
use myna_card.Data.Date.Calendar.{year_start, month_start, march_date}

-- The days of a year of the era, of which only the last has a day at its end for the 400 years.
abbrev pub year_end : ℕ → ℕ
year_end y = year_start (y + 1) + (if y == 399 then 1 else 0)

year_of_era_unique :
    (doe y : ℕ) → y < 400 → year_start y ≤ doe → doe < year_end y → year_of_era doe ≡ y
unfolding year_of_era
year_of_era_unique doe y h k l = ground arith

shifted_month_unique :
    (doy m : ℕ) → month_start m ≤ doy → doy < month_start (m + 1) → shifted_month doy ≡ m
unfolding shifted_month
shifted_month_unique doy m h k = omega arith

-- Where a day is within its era, its year and its month.
pub record Within (y m d : ℕ) : Type 0 where
  pub year : y < 400
  pub month : m < 12
  pub in_month : month_start m + d < month_start (m + 1)
  pub in_year : year_start y + month_start m + d < year_end y

abbrev pub day_number : ℕ → ℕ → ℕ → ℕ → ℕ
day_number e y m d = 146097 * e + (year_start y + month_start m + d)

-- The date that `from_days` puts together.
abbrev assembled : ℕ → ℕ → ℕ → ℕ → Date
assembled e y doy m =
    calendar_date ((400 * e + (y + (if leb (calendar_month m) 2 then 1 else 0))) % 2 ^ 16)
      (calendar_month m) (day_of_month doy m)

from_days-assembled :
    (n e doe y doy m : ℕ)
    → n / 146097 ≡ e
    → n % 146097 ≡ doe
    → year_of_era doe ≡ y
    → day_of_year doe y ≡ doy
    → shifted_month doy ≡ m
    → from_days (pos n) ≡ assembled e y doy m
unfolding from_days
from_days-assembled n e doe y doy m he hd hy ho hm =
    rw (← hm) (rw (← ho) (rw (← hy) (rw (← hd) (rw (← he) refl))))

march_date-assembled :
    (e y m d : ℕ)
    → m < 12
    → d < 31
    → 400 * e + y < 65535
    → assembled e y (month_start m + d) m ≡ march_date (400 * e + y) m d
unfolding calendar_month day_of_month
march_date-assembled e y m d h k l = ground arith

pub from_days-march_date :
    (e y m d : ℕ)
    → Within y m d
    → 400 * e + y < 65535
    → from_days (pos (day_number e y m d)) ≡ march_date (400 * e + y) m d
unfolding day_of_year
from_days-march_date e y m d w h =
    let doe = year_start y + month_start m + d in
    let small : doe < 146097 = ground (arith, w.year, w.in_year) in
    from_days-assembled (day_number e y m d) e doe y (month_start m + d) m (omega arith)
      (omega arith) (year_of_era_unique doe y w.year (omega arith) w.in_year) (omega arith)
      (shifted_month_unique (month_start m + d) m (omega arith) w.in_month)
    ∙ march_date-assembled e y m d w.month (omega (arith, w.in_month, w.month)) h

year_of_era_bounds :
    (doe : ℕ)
    → doe < 146097
    → (year_of_era doe < 400)
      × (year_start (year_of_era doe) ≤ doe)
      × (doe < year_end (year_of_era doe))
unfolding year_of_era
year_of_era_bounds doe h = (omega arith, omega arith, ground arith)

shifted_month_bounds :
    (doy : ℕ)
    → doy < 366
    → (shifted_month doy < 12)
      × (month_start (shifted_month doy) ≤ doy)
      × (doy < month_start (shifted_month doy + 1))
unfolding shifted_month
shifted_month_bounds doy h = (omega arith, omega arith, omega arith)

pub located :
    (n : ℕ) → (e : ℕ) × (y : ℕ) × (m : ℕ) × (d : ℕ) × Within y m d × (n ≡ day_number e y m d)
located n =
    let e = n / 146097 in
    let doe = n % 146097 in
    let y = year_of_era doe in
    let (y1, y2, y3) = year_of_era_bounds doe (omega arith) in
    let doy = doe - year_start y in
    let (m1, m2, m3) = shifted_month_bounds doy (ground arith) in
    let m = shifted_month doy in
    (
      e,
      y,
      m,
      doy - month_start m,
      record { year = y1; month = m1; in_month = omega arith; in_year = omega arith },
      omega arith,
    )
