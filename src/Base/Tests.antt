-- ===== src/Base/Tests.antt =====
-- The theorems on base/ at concrete days.
use libiak.Prelude.{◌≡◌, refl, arith}
use libiak.Base.Date.{get_julian_day_number, get_year_month_day, new_date, year_month_day}
use libiak.Base.Date.Inverse.{new_date-year_month_day, AllInts, year_month_day_ints, julian_ints}

-- Date::kJulianDayOf1970_01_01
epoch : get_julian_day_number 1970 1 1 ≡ 2440588
unfolding get_julian_day_number
epoch = refl

new_date-year_month_day_example :
    let t = year_month_day (record { julian_day_number = 2451604 }) in
    AllInts (year_month_day_ints 2451604)
    × AllInts (julian_ints t)
    × (new_date 2000 2 29 ≡ record { julian_day_number = 2451604 })
unfolding year_month_day get_year_month_day
new_date-year_month_day_example = new_date-year_month_day 2451604 (omega arith) (omega arith)
