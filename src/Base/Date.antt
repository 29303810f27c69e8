-- ===== src/Base/Date.antt =====
-- base/Date.h and base/Date.cpp: a date kept as its Julian day number. The ints are
-- natural numbers here, without a bound: from 1 March of year 0 on, with a month of 1..12, no difference
-- below is negative, and the largest number on the way is `4 * a + 3`, for a day number `a - 32044`.
-- Date::toIsoString (snprintf) and the constructor from a struct tm are not modelled.
pub mod RoundTrip
pub mod Successor
pub mod Inverse
use libiak.Prelude.{ℕ, ◌+◌, ◌-◌, ◌*◌, ◌/◌, ◌%◌, Bool, ltb, ◌==◌}

-- struct Date::YearMonthDay
pub record YearMonthDay : Type 0 where
  pub year : ℕ
  pub month : ℕ
  pub day : ℕ

-- getJulianDayNumber from its `y` and `m`
abbrev pub days_before : ℕ → ℕ → ℕ → ℕ
days_before y m day = (day + (153 * m + 2) / 5 + y * 365 + y / 4 - y / 100 + y / 400) - 32045

unfoldable pub get_julian_day_number : ℕ → ℕ → ℕ → ℕ
get_julian_day_number year month day =
    let a = (14 - month) / 12 in
    let y = year + 4800 - a in let m = month + 12 * a - 3 in days_before y m day

-- getYearMonthDay from its `m`, `e`, `b` and `d`
abbrev pub from_march : ℕ → ℕ → ℕ → ℕ → YearMonthDay
from_march m e b d = record {
  year = b * 100 + d - 4800 + m / 10;
  month = m + 3 - 12 * (m / 10);
  day = e - (153 * m + 2) / 5 + 1;
}

abbrev pub from_century : ℕ → ℕ → YearMonthDay
from_century b c =
    let d = (4 * c + 3) / 1461 in let e = c - (1461 * d) / 4 in from_march ((5 * e + 2) / 153) e b d

unfoldable pub get_year_month_day : ℕ → YearMonthDay
get_year_month_day julian_day_number =
    let a = julian_day_number + 32044 in
    let b = (4 * a + 3) / 146097 in from_century b (a - (b * 146097) / 4)

-- class Date
pub record Date : Type 0 where
  pub julian_day_number : ℕ

-- Date::Date(int, int, int)
unfoldable pub new_date : ℕ → ℕ → ℕ → Date
new_date y m d = record { julian_day_number = get_julian_day_number y m d }

-- Date::yearMonthDay
unfoldable pub year_month_day : Date → YearMonthDay
year_month_day t = get_year_month_day t.julian_day_number

-- Date::weekDay
unfoldable pub week_day : Date → ℕ
week_day t = (t.julian_day_number + 1) % 7

-- Date::valid
unfoldable pub valid : Date → Bool
valid t = ltb 0 t.julian_day_number

-- Date::operator<
unfoldable pub before : Date → Date → Bool
before a b = ltb a.julian_day_number b.julian_day_number

-- Date::operator==
unfoldable pub same : Date → Date → Bool
same a b = a.julian_day_number == b.julian_day_number
