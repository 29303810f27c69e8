-- ===== src/Base/Date/RoundTrip.antt =====
-- getYearMonthDay against getJulianDayNumber.
use libiak.Prelude.{
  ℕ, suc, ◌+◌, ◌-◌, ◌*◌, ◌/◌, ◌%◌, ◌<◌, ◌≤◌, ◌≡◌, ◌⊎◌, inl, inr, refl, ◌∙◌, Bool, true, ◌&&◌, ◌||◌,
  not, ◌==◌, if◌then◌else◌, arith,
}
use libiak.Base.Date.{
  days_before, get_julian_day_number, from_march, from_century, get_year_month_day, new_date,
  year_month_day,
}

-- The Gregorian leap years.
abbrev pub leap : ℕ → Bool
leap y = (y % 4 == 0) && (not (y % 100 == 0) || (y % 400 == 0))

abbrev pub days_in_month : ℕ → ℕ → ℕ
days_in_month y m =
    if m == 2
    then (if leap y then 29 else 28)
    else (if (m == 4 || m == 6) || (m == 9 || m == 11) then 30 else 31)

-- A day of the Gregorian calendar.
pub record IsDate (y m d : ℕ) : Type 0 where
  pub year_low : 1 ≤ y
  pub month_low : 1 ≤ m
  pub month_high : m ≤ 12
  pub day_low : 1 ≤ d
  pub day_high : d ≤ days_in_month y m

century :
    (b c : ℕ) → c ≤ 36524 → c < 36524 ⊎ (b % 4 ≡ 3) → (4 * ((b * 146097) / 4 + c) + 3) / 146097 ≡ b
century b c h k = omega arith

year_of : (r e : ℕ) → e ≤ 365 → e < 365 ⊎ (r % 4 ≡ 3) → (4 * (365 * r + r / 4 + e) + 3) / 1461 ≡ r
year_of r e h k = omega arith

-- The leap day is the last of its year, if that begins in March.
leap_day :
    (y : ℕ)
    → leap y ≡ true
    → ((y + 4799) % 4 ≡ 3) × (((y + 4799) / 100) % 4 ≡ 3)
      ⊎ ((y + 4799) % 4 ≡ 3) × ((y + 4799) % 100 < 99)
leap_day y h = ground arith

month_room :
    (y m d : ℕ)
    → 1 ≤ m
    → m ≤ 12
    → 1 ≤ d
    → d ≤ days_in_month y m
    → (153 * (m + 12 * ((14 - m) / 12) - 3) + 2) / 5 + d
      ≤ (153 * (m + 12 * ((14 - m) / 12) - 2) + 2) / 5
month_room y m d a b c h = ground arith

-- A day in a year that begins in March: the year, the number of the month, the day of the month.
record IsMarchDate (y m d : ℕ) : Type 0 where
  year_low : 4799 ≤ y
  month_high : m ≤ 11
  day_low : 1 ≤ d
  room : (153 * m + 2) / 5 + d ≤ (153 * suc m + 2) / 5
  last :
      (153 * m + 2) / 5 + d ≤ 365
      ⊎ ((153 * m + 2) / 5 + d ≡ 366) × (y % 4 ≡ 3) × ((y / 100) % 4 ≡ 3 ⊎ y % 100 < 99)

module _ (y m d : ℕ) (v : IsMarchDate y m d) where
  by_century :
      days_before y m d + 32044
      ≡ (y / 100 * 146097) / 4 + (365 * (y % 100) + (y % 100) / 4 + ((153 * m + 2) / 5 + d - 1))
  by_century = omega (arith, v.year_low, v.day_low)

  in_year :
      ((153 * m + 2) / 5 + d - 1 ≤ 365) × ((153 * m + 2) / 5 + d - 1 < 365 ⊎ (y % 100) % 4 ≡ 3)
  in_year = ground arith

  in_century :
      (365 * (y % 100) + (y % 100) / 4 + ((153 * m + 2) / 5 + d - 1) ≤ 36524)
      × (365 * (y % 100) + (y % 100) / 4 + ((153 * m + 2) / 5 + d - 1) < 36524 ⊎ (y / 100) % 4 ≡ 3)
  in_century = ground arith

  month_of : (5 * ((153 * m + 2) / 5 + d - 1) + 2) / 153 ≡ m
  month_of = omega (arith, v.day_low, v.room)

  from_march_lem :
      from_march m ((153 * m + 2) / 5 + d - 1) (y / 100) (y % 100)
      ≡ record { year = y - 4800 + m / 10; month = m + 3 - 12 * (m / 10); day = d }
  from_march_lem =
      let yr : y / 100 * 100 + y % 100 - 4800 + m / 10 ≡ y - 4800 + m / 10 = omega arith in
      let dy : (153 * m + 2) / 5 + d - 1 - (153 * m + 2) / 5 + 1 ≡ d = omega (arith, v.day_low) in
      rw (yr, dy) refl

  from_century_lem :
      from_century (y / 100) (365 * (y % 100) + (y % 100) / 4 + ((153 * m + 2) / 5 + d - 1))
      ≡ record { year = y - 4800 + m / 10; month = m + 3 - 12 * (m / 10); day = d }
  from_century_lem =
      let (low, leaps) = in_year in
      let of_year = year_of (y % 100) ((153 * m + 2) / 5 + d - 1) low leaps in
      let rest : 365 * (y % 100)
            + (y % 100) / 4
            + ((153 * m + 2) / 5 + d - 1)
            - (1461 * (y % 100)) / 4
          ≡ ((153 * m + 2) / 5 + d - 1) =
        omega arith in
      rw (of_year, rest, month_of) from_march_lem

  get_year_month_day_lem :
      get_year_month_day (days_before y m d)
      ≡ record { year = y - 4800 + m / 10; month = m + 3 - 12 * (m / 10); day = d }
  unfolding get_year_month_day
  get_year_month_day_lem =
      let (low, leaps) = in_century in
      let of_century =
        century (y / 100) (365 * (y % 100) + (y % 100) / 4 + ((153 * m + 2) / 5 + d - 1)) low
          leaps in
      let rest : (y / 100 * 146097) / 4
            + (365 * (y % 100) + (y % 100) / 4 + ((153 * m + 2) / 5 + d - 1))
            - (y / 100 * 146097) / 4
          ≡ (365 * (y % 100) + (y % 100) / 4 + ((153 * m + 2) / 5 + d - 1)) =
        omega arith in
      rw (by_century, of_century, rest) from_century_lem

short_or_leap :
    (y m d : ℕ)
    → IsDate y m d
    → (153 * (m + 12 * ((14 - m) / 12) - 3) + 2) / 5 + d ≤ 365
      ⊎ (m ≡ 2) × (d ≡ 29) × (leap y ≡ true)
short_or_leap y m d v = ground arith

last_day :
    (y m d : ℕ)
    → IsDate y m d
    → (153 * (m + 12 * ((14 - m) / 12) - 3) + 2) / 5 + d ≤ 365
      ⊎ ((153 * (m + 12 * ((14 - m) / 12) - 3) + 2) / 5 + d ≡ 366)
        × ((y + 4800 - (14 - m) / 12) % 4 ≡ 3)
        × (((y + 4800 - (14 - m) / 12) / 100) % 4 ≡ 3 ⊎ (y + 4800 - (14 - m) / 12) % 100 < 99)
last_day y m d v = elim (short_or_leap y m d v) [
  | inl short ↦ inl short
  | inr (two, last, leaps) ↦ let l = leap_day y leaps in ground (arith, l)
]

march_date :
    (y m d : ℕ)
    → IsDate y m d
    → IsMarchDate (y + 4800 - (14 - m) / 12) (m + 12 * ((14 - m) / 12) - 3) d
march_date y m d v = record {
  year_low = omega (arith, v.month_low);
  month_high = omega (arith, v.month_low, v.month_high);
  day_low = v.day_low;
  room = omega (arith, v.month_low, month_room y m d v.month_low v.month_high v.day_low v.day_high);
  last = last_day y m d v;
}

-- A Date made from a day of the Gregorian calendar, of year 1 or later, gives that year, month and
-- day back.
pub year_month_day-new_date :
    (y m d : ℕ)
    → IsDate y m d
    → year_month_day (new_date y m d) ≡ record { year = y; month = m; day = d }
unfolding year_month_day new_date get_julian_day_number
year_month_day-new_date y m d v =
    let march = march_date y m d v in
    let yr : y + 4800 - (14 - m) / 12 - 4800 + (m + 12 * ((14 - m) / 12) - 3) / 10 ≡ y =
      omega (arith, v.year_low, v.month_low, v.month_high) in
    let mo : m + 12 * ((14 - m) / 12) - 3 + 3 - 12 * ((m + 12 * ((14 - m) / 12) - 3) / 10) ≡ m =
      omega (arith, v.month_low, v.month_high) in
    get_year_month_day_lem (y + 4800 - (14 - m) / 12) (m + 12 * ((14 - m) / 12) - 3) d march
    ∙ rw (yr, mo) refl
