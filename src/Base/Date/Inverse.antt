-- ===== src/Base/Date/Inverse.antt =====
-- getJulianDayNumber against getYearMonthDay.
use libiak.Prelude.{ℕ, List, [], ◌∷◌, ◌<◌, ◌+◌, ◌-◌, ◌*◌, ◌/◌, ◌≤◌, ◌≡◌, refl, ap, ◌∙◌, arith}
use libiak.Base.Date.{
  YearMonthDay, days_before, get_julian_day_number, from_march, from_century, get_year_month_day,
  new_date, year_month_day,
}

abbrev pub julian_of : YearMonthDay → ℕ
julian_of t = get_julian_day_number t.year t.month t.day

-- The number of a day of the year that began in March of the year `100 * b + d`.
module _ (m e b d : ℕ) (month : m ≤ 11) (inside : (153 * m + 2) / 5 ≤ e)
    (year : 4800 ≤ b * 100 + d) where
  from_march-julian :
      julian_of (from_march m e b d) ≡ days_before (b * 100 + d) m (e - (153 * m + 2) / 5 + 1)
  unfolding get_julian_day_number
  from_march-julian =
      let a : (14 - (m + 3 - 12 * (m / 10))) / 12 ≡ m / 10 = omega arith in
      let y : b * 100 + d - 4800 + m / 10 + 4800 - m / 10 ≡ b * 100 + d = omega arith in
      let m' : m + 3 - 12 * (m / 10) + 12 * (m / 10) - 3 ≡ m = omega arith in rw (a, y, m') refl

days_before-century :
    (m e b d c : ℕ)
    → d ≤ 99
    → (153 * m + 2) / 5 ≤ e
    → 4800 ≤ b * 100 + d
    → c ≡ 365 * d + d / 4 + e
    → days_before (b * 100 + d) m (e - (153 * m + 2) / 5 + 1) + 32044 ≡ (b * 146097) / 4 + c
days_before-century m e b d c h k year same = omega arith

-- Within a century.
module _ (b c : ℕ) (short : c ≤ 36524) (year : 4800 ≤ b * 100 + (4 * c + 3) / 1461) where
  from_century-julian : julian_of (from_century b c) + 32044 ≡ (b * 146097) / 4 + c
  from_century-julian =
      let d = (4 * c + 3) / 1461 in
      let e = c - (1461 * d) / 4 in
      let m = (5 * e + 2) / 153 in
      let inside : (153 * m + 2) / 5 ≤ e = omega arith in
      let s = from_march-julian m e b d (omega arith) inside year in
      ap (λ n. n + 32044) s ∙ days_before-century m e b d c (omega arith) inside year (omega arith)

-- The first day of the year 1.
abbrev pub first_day : ℕ
first_day = 1721426

-- In numbers without a bound, from the first day of the year 1 on
pub new_date-same :
    (n : ℕ)
    → first_day ≤ n
    → let t = year_month_day (record { julian_day_number = n }) in
      new_date t.year t.month t.day ≡ record { julian_day_number = n }
unfolding new_date year_month_day get_year_month_day
new_date-same n h =
    let b = (4 * (n + 32044) + 3) / 146097 in
    let c = n + 32044 - (b * 146097) / 4 in
    let s = from_century-julian b c (omega arith) (omega arith) in
    ap (λ d. record { julian_day_number = d }) (omega arith)

-- The first day for which an int of getYearMonthDay overflows: 4 * a + 3 is 2 ^ 31 then.
abbrev pub first_overflow : ℕ
first_overflow = 536838868

abbrev pub AllInts : List ℕ → Type 0
AllInts [] = Unit {0}
AllInts (x ∷ xs) = (x < 2147483648) × AllInts xs

-- Every number that the ints of getYearMonthDay hold for a day, on the way and at the end
abbrev pub from_march_ints : ℕ → ℕ → ℕ → ℕ → List ℕ
from_march_ints m e b d =
    (153 * m + 2)
    ∷ (e - (153 * m + 2) / 5 + 1)
    ∷ (m + 3)
    ∷ (12 * (m / 10))
    ∷ (b * 100)
    ∷ (b * 100 + d)
    ∷ (b * 100 + d - 4800 + m / 10)
    ∷ []

abbrev pub from_century_ints : ℕ → ℕ → List ℕ
from_century_ints b c =
    let d = (4 * c + 3) / 1461 in
    let e = c - (1461 * d) / 4 in
    let m = (5 * e + 2) / 153 in
    (4 * c) ∷ (4 * c + 3) ∷ (1461 * d) ∷ (5 * e) ∷ (5 * e + 2) ∷ (153 * m) ∷ from_march_ints m e b d

abbrev pub year_month_day_ints : ℕ → List ℕ
year_month_day_ints n =
    let a = n + 32044 in
    let b = (4 * a + 3) / 146097 in
    let c = a - (b * 146097) / 4 in
    a ∷ (4 * a) ∷ (4 * a + 3) ∷ (b * 146097) ∷ c ∷ from_century_ints b c

-- Likewise of getJulianDayNumber, for a year, a month and a day
abbrev pub days_ints : ℕ → ℕ → ℕ → List ℕ
days_ints y m day =
    (153 * m + 2)
    ∷ (day + (153 * m + 2) / 5)
    ∷ (y * 365)
    ∷ (day + (153 * m + 2) / 5 + y * 365)
    ∷ (day + (153 * m + 2) / 5 + y * 365 + y / 4)
    ∷ []

abbrev pub julian_ints : YearMonthDay → List ℕ
julian_ints t =
    let a = (14 - t.month) / 12 in
    let y = t.year + 4800 - a in
    let m = t.month + 12 * a - 3 in
    (t.year + 4800) ∷ (12 * a) ∷ (t.month + 12 * a) ∷ days_ints y m t.day

from_march-AllInts :
    (m e b d : ℕ)
    → m ≤ 11
    → e ≤ 366
    → b ≤ 14700
    → d ≤ 100
    → AllInts (from_march_ints m e b d) × AllInts (julian_ints (from_march m e b d))
from_march-AllInts m e b d hm he hb hd = (omega arith, omega arith)

from_century-AllInts :
    (b c : ℕ)
    → c ≤ 36524
    → b ≤ 14700
    → AllInts (from_century_ints b c) × AllInts (julian_ints (from_century b c))
from_century-AllInts b c hc hb =
    let d = (4 * c + 3) / 1461 in
    let e = c - (1461 * d) / 4 in
    let m = (5 * e + 2) / 153 in
    let r = from_march-AllInts m e b d (omega arith) (omega arith) hb (omega arith) in
    (
      (omega arith, (omega arith, (omega arith, (omega arith, (omega arith, (omega arith, r.0)))))),
      r.1,
    )

-- From the first day of the year 1 on, up to the last day for which the int 4 * a + 3 of
-- getYearMonthDay does not overflow, no int of getYearMonthDay overflows, nor of getJulianDayNumber
-- for what it gives, and the year, month and day that a Date gives make the same Date.
pub new_date-year_month_day :
    (n : ℕ)
    → first_day ≤ n
    → n < first_overflow
    → let t = year_month_day (record { julian_day_number = n }) in
      AllInts (year_month_day_ints n)
      × AllInts (julian_ints t)
      × (new_date t.year t.month t.day ≡ record { julian_day_number = n })
unfolding year_month_day get_year_month_day
new_date-year_month_day n h below =
    let b = (4 * (n + 32044) + 3) / 146097 in
    let c = n + 32044 - (b * 146097) / 4 in
    let r = from_century-AllInts b c (omega arith) (omega arith) in
    (
      (omega arith, (omega arith, (omega arith, (omega arith, (omega arith, r.0))))),
      r.1,
      new_date-same n h,
    )
