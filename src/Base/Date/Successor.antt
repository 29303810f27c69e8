-- ===== src/Base/Date/Successor.antt =====
-- Julian day numbers count the days of the calendar one by one.
use libiak.Prelude.{
  ℕ, suc, ◌+◌, ◌-◌, ◌*◌, ◌/◌, ◌%◌, ◌<◌, ◌≤◌, ◌≡◌, inl, inr, true, false, ltb, ltb→lt, ltb→le, ap,
  ap₂, sym, zero, ◌∙◌, if◌then◌else◌, arith, Bool-cases,
}
use libiak.Base.Date.{Date, YearMonthDay, get_julian_day_number, new_date, week_day}
use libiak.Base.Date.RoundTrip.{IsDate, days_in_month, leap}

-- The day after, in the Gregorian calendar.
abbrev pub next_day : ℕ → ℕ → ℕ → YearMonthDay
next_day y m d =
    if ltb d (days_in_month y m)
    then record { year = y; month = m; day = suc d }
    else (if ltb m 12
        then record { year = y; month = suc m; day = 1 }
        else record { year = suc y; month = 1; day = 1 })

abbrev pub date_of : YearMonthDay → Date
date_of t = new_date t.year t.month t.day

abbrev julian : YearMonthDay → ℕ
julian t = get_julian_day_number t.year t.month t.day

within :
    (y m d : ℕ)
    → IsDate y m d
    → get_julian_day_number y m (suc d) ≡ suc (get_julian_day_number y m d)
unfolding get_julian_day_number
within y m d v = omega (arith, v.year_low, v.month_low)

length_of_month :
    (y m : ℕ)
    → 3 ≤ m
    → m < 12
    → days_in_month y m + (153 * (m - 3) + 2) / 5 ≡ (153 * (m - 2) + 2) / 5
length_of_month y m a b = ground arith

leap_year :
    (y : ℕ)
    → leap y ≡ true
    → (y + 4800) / 4 + (y + 4800) / 400 + (y + 4799) / 100
      ≡ suc ((y + 4799) / 4 + (y + 4799) / 400 + (y + 4800) / 100)
leap_year y h = ground arith

common_year :
    (y : ℕ)
    → leap y ≡ false
    → (y + 4800) / 4 + (y + 4800) / 400 + (y + 4799) / 100
      ≡ (y + 4799) / 4 + (y + 4799) / 400 + (y + 4800) / 100
common_year y h = ground arith

february_end :
    (y : ℕ)
    → 1 ≤ y
    → get_julian_day_number y 3 1 ≡ suc (get_julian_day_number y 2 (days_in_month y 2))
unfolding get_julian_day_number
february_end y l = elim (Bool-cases (leap y)) [
  | inl e ↦ rw e (omega (arith, leap_year y e))
  | inr e ↦ rw e (omega (arith, common_year y e))
]

january_end : (y : ℕ) → get_julian_day_number y 2 1 ≡ suc (get_julian_day_number y 1 31)
unfolding get_julian_day_number
january_end y = omega arith

later_end :
    (y m d : ℕ)
    → 3 ≤ m
    → m < 12
    → d + (153 * (m - 3) + 2) / 5 ≡ (153 * (m - 2) + 2) / 5
    → get_julian_day_number y (suc m) 1 ≡ suc (get_julian_day_number y m d)
unfolding get_julian_day_number
later_end y m d a b len = omega arith

-- The last day of a month before December.
month_end :
    (y m : ℕ)
    → 1 ≤ y
    → 1 ≤ m
    → m < 12
    → get_julian_day_number y (suc m) 1 ≡ suc (get_julian_day_number y m (days_in_month y m))
month_end y zero l low high = absurd (omega arith)
month_end y (suc zero) l low high = january_end y
month_end y (suc (suc zero)) l low high = february_end y l
month_end y (suc (suc (suc m))) l low high =
    let m' : ℕ = suc (suc (suc m)) in
    let three : 3 ≤ m' = omega arith in
    later_end y m' (days_in_month y m') three high (length_of_month y m' three high)

year_end : (y : ℕ) → get_julian_day_number (suc y) 1 1 ≡ suc (get_julian_day_number y 12 31)
unfolding get_julian_day_number
year_end y = omega arith

next_day-julian :
    (y m d : ℕ) → IsDate y m d → julian (next_day y m d) ≡ suc (get_julian_day_number y m d)
next_day-julian y m d v = elim (Bool-cases (ltb d (days_in_month y m))) [
  | inl e ↦ rw e (within y m d v)
  | inr e ↦
      let full : d ≡ days_in_month y m = omega (arith, v.day_high, ltb→le _ _ e) in
      elim (Bool-cases (ltb m 12)) [
        | inl l ↦
            rw (e, l)
              (month_end y m v.year_low v.month_low (ltb→lt _ _ l)
                ∙ ap (λ x. suc (get_julian_day_number y m x)) (sym full))
        | inr l ↦
            let december : m ≡ 12 = omega (arith, v.month_high, ltb→le _ _ l) in
            rw (e, l)
              (year_end y
                ∙ ap suc (
                    sym (
                      ap₂ (λ x y'. get_julian_day_number y x y') december
                        (full ∙ ap (days_in_month y) december))))
      ]
]

-- The Date of the day after a day of the Gregorian calendar, of year 1 or later, has the next Julian
-- day number, and the next day of the week.
pub tomorrow :
    (y m d : ℕ)
    → IsDate y m d
    → ((date_of (next_day y m d)).julian_day_number ≡ suc (new_date y m d).julian_day_number)
      × (week_day (date_of (next_day y m d)) ≡ suc (week_day (new_date y m d)) % 7)
unfolding new_date week_day
tomorrow y m d v = let next = next_day-julian y m d v in (next, rw next (omega arith))
