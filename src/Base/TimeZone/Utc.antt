-- ===== src/Base/TimeZone/Utc.antt =====
-- toUtcTime and fromUtcTime are inverse to each other.
use libiak.Prelude.{
  ℕ, zero, suc, ◌+◌, ◌-◌, ◌*◌, ◌/◌, ◌%◌, ◌^◌, ◌<◌, ◌≤◌, ◌≡◌, refl, ap, ap₂, ◌∙◌, Bool, false, arith,
  ℤ, pos, negsuc, pos_part, neg_part, minus, sub_ℕ, quot, rem, ◌-ℤ◌,
}
use libiak.Base.Date.{Date, YearMonthDay, new_date, year_month_day, get_year_month_day, week_day}
use libiak.Base.Date.RoundTrip.{IsDate, year_month_day-new_date}
use libiak.Base.Date.Inverse.{first_day, new_date-same}
use libiak.Base.TimeZone.{
  Tm, seconds_per_day, epoch, fill_hms, borrow, day_number, tm_of, to_utc_time, add_seconds,
  from_utc_fields, full_year, from_utc_time,
}

-- The first second of the year 1 is this number of seconds before the Epoch.
abbrev pub before_epoch : ℕ
before_epoch = (epoch - first_day) * seconds_per_day

abbrev split : ℤ → ℤ × ℕ
split time = borrow (quot time seconds_per_day) (rem time seconds_per_day)

-- The day and the second of the day.
split_lem :
    (time : ℤ)
    → neg_part time ≤ before_epoch
    → ((split time).1 < seconds_per_day)
      × (add_seconds (split time).0 (split time).1 ≡ time)
      × (neg_part (split time).0 ≤ epoch - first_day)
unfolding ◌-ℤ◌
split_lem (pos n) h = ground arith
split_lem (negsuc n) h = ground arith

full_year-sub_ℕ : (y : ℕ) → full_year (sub_ℕ y 1900) ≡ y
full_year-sub_ℕ y = ground arith

month_low : (d : Date) → 1 ≤ (year_month_day d).month
unfolding year_month_day get_year_month_day
month_low d = omega arith

sub_ℕ-day_number : (days : ℤ) → neg_part days ≤ epoch → sub_ℕ (day_number days) epoch ≡ days
sub_ℕ-day_number days h = ground arith

from_utc_time-tm_of :
    (yday : Bool) (days : ℤ) (s : ℕ)
    → neg_part days ≤ epoch - first_day
    → from_utc_time (tm_of yday (days, s)) ≡ add_seconds days s
unfolding from_utc_time fill_hms
from_utc_time-tm_of yday days s h =
    let date : Date = record { julian_day_number = day_number days } in
    let month : (year_month_day date).month - 1 + 1 ≡ (year_month_day date).month =
      omega (arith, month_low date) in
    let same = new_date-same (day_number days) (omega arith) in
    let seconds : s / 60 / 60 * 3600 + s / 60 % 60 * 60 + s % 60 ≡ s = omega arith in
    rw (full_year-sub_ℕ (year_month_day date).year, month, same, seconds)
      (ap (λ x. add_seconds x s) (sub_ℕ-day_number days (omega arith)))

-- The fields of a time of day.
abbrev pub IsTimeOfDay : Tm → Type 0
IsTimeOfDay tm = (tm.sec < 60) × (tm.min < 60) × (tm.hour < 24) × (tm.wday < 7)

tm_of-IsTimeOfDay :
    (yday : Bool) (days : ℤ) (s : ℕ) → s < seconds_per_day → IsTimeOfDay (tm_of yday (days, s))
unfolding fill_hms week_day
tm_of-IsTimeOfDay yday days s h = (omega arith, omega arith, omega arith, omega arith)

-- Every time from the first second of the year 1 on, and below 2^44 so that the days and the numbers
-- made of them fit into an int, comes back from its UTC fields, before the Epoch too, and the fields
-- are those of a time of day and a day of the week.
pub from_utc_time-to_utc_time :
    (time : ℤ) (yday : Bool)
    → neg_part time ≤ before_epoch
    → pos_part time < 2 ^ 44
    → (from_utc_time (to_utc_time time yday) ≡ time) × IsTimeOfDay (to_utc_time time yday)
unfolding to_utc_time
from_utc_time-to_utc_time time yday h fits =
    let (short, whole, low) = split_lem time h in
    (
      from_utc_time-tm_of yday (split time).0 (split time).1 low ∙ whole,
      tm_of-IsTimeOfDay yday (split time).0 (split time).1 short,
    )

pair_eq :
    (days days' : ℤ) (s s' : ℕ) → days ≡ days' → s ≡ s' → ◌≡◌ {A = ℤ × ℕ} (days, s) (days', s')
pair_eq days days' s s' e f = ap₂ (λ x y. (x, y)) e f

split-pos : (n s : ℕ) → s < seconds_per_day → split (pos (n * seconds_per_day + s)) ≡ (pos n, s)
split-pos n s h = pair_eq _ _ _ _ (ap pos (omega arith)) (omega arith)

minus-pred : (n : ℕ) → minus n -ℤ pos 1 ≡ negsuc n
unfolding ◌-ℤ◌
minus-pred zero = refl
minus-pred (suc n) = ground arith

split-minus :
    (n s : ℕ) → s < seconds_per_day → split (minus (suc n * seconds_per_day - s)) ≡ (negsuc n, s)
unfolding ◌-ℤ◌
split-minus n zero h =
    let whole : suc n * seconds_per_day - 0 ≡ suc (suc n * seconds_per_day - 1) = omega arith in
    let q : suc (suc n * seconds_per_day - 1) / seconds_per_day ≡ suc n = omega arith in
    let r : suc (suc n * seconds_per_day - 1) % seconds_per_day ≡ 0 = omega arith in
    rw (whole, q, r) refl
split-minus n (suc s) h =
    let k : suc n * seconds_per_day - suc s ≡ suc (suc n * seconds_per_day - suc s - 1) =
      omega arith in
    let q : suc (suc n * seconds_per_day - suc s - 1) / seconds_per_day ≡ n = omega arith in
    let r : suc (suc n * seconds_per_day - suc s - 1) % seconds_per_day
        ≡ suc (seconds_per_day - suc s - 1) =
      omega arith in
    let days : minus n -ℤ pos 1 ≡ negsuc n = minus-pred n in
    rw (k, q, r) (pair_eq _ _ _ _ days (omega arith))

split-add_seconds :
    (days : ℤ) (s : ℕ) → s < seconds_per_day → split (add_seconds days s) ≡ (days, s)
split-add_seconds (pos n) s h =
    let e : add_seconds (pos n) s ≡ pos (n * seconds_per_day + s) = ground arith in
    ap split e ∙ split-pos n s h
split-add_seconds (negsuc n) s h =
    let e : add_seconds (negsuc n) s ≡ minus (suc n * seconds_per_day - s) = ground arith in
    ap split e ∙ split-minus n s h

day_number-sub_ℕ : (n : ℕ) → day_number (sub_ℕ n epoch) ≡ n
day_number-sub_ℕ n = ground arith

-- The UTC fields of a time.
pub record HasFields (tm : Tm) (y m d h mi s : ℕ) : Type 0 where
  pub years : full_year tm.year ≡ y
  pub months : tm.mon + 1 ≡ m
  pub days : tm.mday ≡ d
  pub hours : tm.hour ≡ h
  pub minutes : tm.min ≡ mi
  pub seconds : tm.sec ≡ s

-- The UTC fields of a day of the Gregorian calendar, of year 1 or later, with a time of day, come back
-- from the time that fromUtcTime makes of them.
pub to_utc_time-from_utc_fields :
    (y m d h mi s : ℕ)
    → IsDate y m d
    → h < 24
    → mi < 60
    → s < 60
    → HasFields (to_utc_time (from_utc_fields y m d h mi s) false) y m d h mi s
unfolding to_utc_time from_utc_fields fill_hms
to_utc_time-from_utc_fields y m d h mi s v a b c =
    let n = (new_date y m d).julian_day_number in
    let time = split-add_seconds (sub_ℕ n epoch) (h * 3600 + mi * 60 + s) (omega arith) in
    let date =
      ap (λ (x : ℕ). year_month_day (record { julian_day_number = x })) (day_number-sub_ℕ n)
      ∙ year_month_day-new_date y m d v in
    rw time record {
      years = ap (λ (t : YearMonthDay). full_year (sub_ℕ t.year 1900)) date ∙ full_year-sub_ℕ y;
      months = ap (λ (t : YearMonthDay). t.month - 1 + 1) date ∙ omega (arith, v.month_low);
      days = ap (λ (t : YearMonthDay). t.day) date;
      hours = omega arith;
      minutes = omega arith;
      seconds = omega arith;
    }
