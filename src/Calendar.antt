-- ===== src/Calendar.antt =====
-- The local civil dates of JavaScript's `Date`, as far as web/frps/src/utils/chart.js uses them: the
-- constructor `new Date(year, month, day)` with a day that may lie outside its month, and the three
-- getters. A date is reached from its number of days after 1 January 1970, as ECMAScript's MakeDay
-- and its inverse do. Months run from 0. Years before 1970 and the time of day are left out.
pub mod Laws
use frp.Prelude.{
  ℕ, zero, suc, ◌+◌, ◌-◌, ◌%◌, Bool, ◌&&◌, ◌||◌, not, ltb, ◌==◌, if◌then◌else◌, ℤ, pos, negsuc,
  pos_part, ◌+ℤ◌,
}

pub record Date : Type 0 where
  pub year : ℕ
  pub month : ℕ
  pub day : ℕ

pub is_leap : ℕ → Bool
is_leap y = y % 4 == 0 && (not (y % 100 == 0) || y % 400 == 0)

abbrev pub year_length : ℕ → ℕ
year_length y = if is_leap y then 366 else 365

pub month_length : ℕ → ℕ → ℕ
month_length y m =
    if m == 1
    then (if is_leap y then 29 else 28)
    else if m == 3 || m == 5 || m == 8 || m == 10
    then 30
    else 31

-- Days from 1 January 1970 to 1 January, `k` years later.
pub year_start : ℕ → ℕ
year_start zero = 0
year_start (suc k) = year_start k + year_length (1970 + k)

-- Days of the year `y` before its month `m`.
pub month_start : ℕ → ℕ → ℕ
month_start y zero = 0
month_start y (suc m) = month_start y m + month_length y m

pub day_number : ℕ → ℕ → ℕ
day_number y m = year_start (y - 1970) + month_start y m

pub next_date : Date → Date
next_date d =
    if ltb d.day (month_length d.year d.month)
    then record d { day = d.day + 1 }
    else if ltb d.month 11
    then record { year = d.year; month = d.month + 1; day = 1 }
    else record { year = d.year + 1; month = 0; day = 1 }

-- The date `n` days after 1 January 1970.
unfoldable pub date_of : ℕ → Date
unfolding next_date month_length is_leap
date_of zero = record { year = 1970; month = 0; day = 1 }
date_of (suc n) = next_date (date_of n)

-- `new Date(year, month, day)`
unfoldable pub new_date : ℕ → ℕ → ℤ → Date
unfolding date_of day_number year_start month_start ◌+ℤ◌
new_date y m day = date_of (pos_part (pos (day_number y m) +ℤ day +ℤ negsuc 0))
