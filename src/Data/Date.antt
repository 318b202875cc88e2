-- ===== src/Data/Date.antt =====
-- src/data.rs, `Date` and `Era`: calendar dates.
pub mod Calendar
pub mod Numbers
pub mod Days
use myna_card.Prelude.{
  ℕ, ◌+◌, ◌-◌, ◌*◌, ◌/◌, ◌%◌, ◌^◌, Bool, ◌&&◌, ◌||◌, Option, none, some, [], ◌∷◌, length, all, take,
  drop, foldl, String, Bytes, ltb, leb, ◌==◌, if◌then◌else◌,
}
use myna_card.Prelude.Int.{ℤ, add_ℕ, scale, div_euclid, rem_euclid}
use myna_card.Error.{Result, ok, err, malformed}
use myna_card.Pin.{is_ascii_digit}

pub record Date : Type 0 where
  pub year : ℕ
  pub month : ℕ
  pub day : ℕ

-- `str::parse` of ASCII digits.
abbrev pub decimal : Bytes → ℕ
decimal = foldl (λ n b. n * 10 + (b - 48)) 0

-- The struct of its three fields.
abbrev pub calendar_date : ℕ → ℕ → ℕ → Date
calendar_date y m d = record { year = y; month = m; day = d }

-- The checks of `Date::parse` behind the digits.
abbrev pub checked : Date → Result Date
checked t =
    if (leb 1 t.month && leb t.month 12) && (leb 1 t.day && leb t.day 31)
    then ok t
    else err (malformed "not a calendar date: {date}" (t.year ∷ t.month ∷ t.day ∷ []))

unfoldable pub parse : Bytes → Result Date
parse bytes =
    if length bytes == 8 && all is_ascii_digit bytes
    then checked (
        calendar_date (decimal (take 4 bytes)) (decimal (take 2 (drop 4 bytes)))
          (decimal (take 2 (drop 6 bytes))))
    else err (malformed "expected 8 digits, got {}" bytes)

-- The parts of `from_unix_seconds` within an era of 400 years: from the day of the era, the year,
-- which starts in March, the day of that year, and the month of that year.
unfoldable pub year_of_era : ℕ → ℕ
year_of_era doe = (doe - doe / 1460 + doe / 36524 - doe / 146096) / 365

unfoldable pub day_of_year : ℕ → ℕ → ℕ
day_of_year doe yoe = doe - (365 * yoe + yoe / 4 - yoe / 100)

unfoldable pub shifted_month : ℕ → ℕ
shifted_month doy = (5 * doy + 2) / 153

unfoldable pub day_of_month : ℕ → ℕ → ℕ
day_of_month doy mp = (doy - (153 * mp + 2) / 5 + 1) % 2 ^ 8

unfoldable pub calendar_month : ℕ → ℕ
calendar_month mp = (if ltb mp 10 then mp + 3 else mp - 9) % 2 ^ 8

-- The body behind `days`, the days from 0000-03-01 on.
unfoldable pub from_days : ℤ → Date
from_days days =
    let era = div_euclid days 146097 in
    let doe = rem_euclid days 146097 in
    let yoe = year_of_era doe in
    let doy = day_of_year doe yoe in
    let mp = shifted_month doy in
    let month = calendar_month mp in
    calendar_date
      (rem_euclid (add_ℕ (scale 400 era) (yoe + (if leb month 2 then 1 else 0))) (2 ^ 16)) month
      (day_of_month doy mp)

-- `Date::from_unix_seconds`
unfoldable pub from_unix_seconds : ℤ → Date
unfolding from_days
from_unix_seconds seconds = from_days (add_ℕ (div_euclid seconds 86400) 719468)

pub data Era : Type 0 where
  meiji taisho showa heisei reiwa : Era

unfoldable pub first_gregorian_year : Era → ℕ
first_gregorian_year meiji = 1868
first_gregorian_year taisho = 1912
first_gregorian_year showa = 1926
first_gregorian_year heisei = 1989
first_gregorian_year reiwa = 2019

unfoldable pub name : Era → String
name meiji = "明治"
name taisho = "大正"
name showa = "昭和"
name heisei = "平成"
name reiwa = "令和"

-- `key >= (y, m, d)` on the tuples.
abbrev pub at_least : Date → Date → Bool
at_least k t =
    ltb t.year k.year
    || (t.year == k.year && (ltb t.month k.month || (t.month == k.month && leb t.day k.day)))

unfoldable pub era_of : Date → Option Era
era_of k =
    if at_least k (calendar_date 2019 5 1)
    then some reiwa
    else if at_least k (calendar_date 1989 1 8)
    then some heisei
    else if at_least k (calendar_date 1926 12 25)
    then some showa
    else if at_least k (calendar_date 1912 7 30)
    then some taisho
    else if at_least k (calendar_date 1868 1 25)
    then some meiji
    else none

unfoldable pub to_era : Date → Option (Era × ℕ)
unfolding era_of first_gregorian_year
to_era k = elim (era_of k) [
  | none ↦ none
  | some era ↦ some (era, k.year - first_gregorian_year era + 1)
]
