-- ===== src/Data/Date/Calendar.antt =====
-- The Gregorian calendar: the next date, and it in years that begin in March.
use myna_card.Prelude.{
  ℕ, ◌+◌, ◌-◌, ◌*◌, ◌/◌, ◌%◌, ◌<◌, ◌≡◌, arith, Bool, not, ◌&&◌, ◌||◌, ltb, ◌==◌, if◌then◌else◌,
}
use myna_card.Data.Date.{Date, calendar_date}

-- The Gregorian calendar.
abbrev pub is_leap : ℕ → Bool
is_leap y = y % 4 == 0 && (not (y % 100 == 0) || y % 400 == 0)

abbrev pub month_length : ℕ → ℕ → ℕ
month_length y m =
    if m == 2
    then (if is_leap y then 29 else 28)
    else if m == 4 || (m == 6 || (m == 9 || m == 11))
    then 30
    else 31

unfoldable pub next_date : Date → Date
next_date t =
    if ltb t.day (month_length t.year t.month)
    then calendar_date t.year t.month (t.day + 1)
    else if ltb t.month 12
    then calendar_date t.year (t.month + 1) 1
    else calendar_date (t.year + 1) 1 1

-- The first day of a year that begins in March, and of one of its months.
abbrev pub year_start : ℕ → ℕ
year_start y = 365 * y + y / 4 - y / 100

abbrev pub month_start : ℕ → ℕ
month_start m = (153 * m + 2) / 5

-- The date of a day of a month of a year that begins in March.
abbrev pub march_date : ℕ → ℕ → ℕ → Date
march_date y m d =
    calendar_date (y + (if ltb m 10 then 0 else 1)) (if ltb m 10 then m + 3 else m - 9) (d + 1)

-- Days within the month, at the end of one, and at the end of February.
pub next_within :
    (y m d : ℕ)
    → m < 11
    → month_start m + d + 1 < month_start (m + 1)
    → next_date (march_date y m d) ≡ march_date y m (d + 1)
unfolding next_date
next_within y m d h k = ground arith

pub next_month :
    (y m d : ℕ)
    → m < 11
    → month_start m + d + 1 ≡ month_start (m + 1)
    → next_date (march_date y m d) ≡ march_date y (m + 1) 0
unfolding next_date
next_month y m d h k = ground arith

pub next_february :
    (y d : ℕ)
    → d + 1 < month_length (y + 1) 2
    → next_date (march_date y 11 d) ≡ march_date y 11 (d + 1)
unfolding next_date
next_february y d k = ground arith

pub next_march :
    (y d : ℕ)
    → d + 1 ≡ month_length (y + 1) 2
    → next_date (march_date y 11 d) ≡ march_date (y + 1) 0 0
unfolding next_date
next_march y d k = ground arith
