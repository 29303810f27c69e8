-- ===== src/Base/TimeZone.antt =====
-- base/TimeZone.h and base/TimeZone.cpp: UTC times as dates, and the local time that is in force. A
-- time_t is an integer. The day numbers are those of Base/Date, from the year 1 on.
pub mod Utc
pub mod Lookup
pub mod Fixed
pub mod ZoneFile
mod Tests
use libiak.Prelude.{
  ℕ, zero, suc, ◌+◌, ◌-◌, ◌*◌, ◌/◌, ◌%◌, Bool, true, false, not, ◌&&◌, List, [], ◌∷◌, Option, none,
  some, get_elem?, ◌==◌, if◌then◌else◌, ◌>>=◌, ℤ, pos, negsuc, pos_part, neg_part, minus, sub_ℕ,
  quot, rem, is_negative, ◌+ℤ◌, ◌-ℤ◌, ltb_ℤ,
}
use libiak.Base.Date.{Date, YearMonthDay, new_date, year_month_day, week_day}

-- kSecondsPerDay and Date::kJulianDayOf1970_01_01
abbrev pub seconds_per_day : ℕ
seconds_per_day = 24 * 60 * 60

abbrev pub epoch : ℕ
epoch = 2440588

-- struct tm: `mon` counts from 0, `year` from 1900.
pub record Tm : Type 0 where
  pub sec : ℕ
  pub min : ℕ
  pub hour : ℕ
  pub mday : ℕ
  pub mon : ℕ
  pub year : ℤ
  pub wday : ℕ
  pub yday : ℕ
  pub isdst : Bool
  pub gmtoff : ℤ

-- fillHMS
unfoldable pub fill_hms : ℕ → Tm → Tm
fill_hms seconds utc = record utc {
  sec = seconds % 60;
  min = seconds / 60 % 60;
  hour = seconds / 60 / 60;
}

abbrev pub zero_tm : Tm
zero_tm = record {
  sec = 0;
  min = 0;
  hour = 0;
  mday = 0;
  mon = 0;
  year = pos 0;
  wday = 0;
  yday = 0;
  isdst = false;
  gmtoff = pos 0;
}

-- `if (seconds < 0) { seconds += kSecondsPerDay; --days; }`
abbrev pub borrow : ℤ → ℤ → ℤ × ℕ
borrow days (pos s) = (days, s)
borrow days (negsuc s) = (days -ℤ pos 1, seconds_per_day - suc s)

-- The day number that stands `days` after the Epoch.
abbrev pub day_number : ℤ → ℕ
day_number days = epoch + pos_part days - neg_part days

-- TimeZone::toUtcTime from its days and seconds
abbrev pub tm_of : Bool → ℤ × ℕ → Tm
tm_of yday (days, seconds) =
    let date : Date = record { julian_day_number = day_number days } in
    let ymd = year_month_day date in
    let start_of_year = new_date ymd.year 1 1 in
    record (fill_hms seconds zero_tm) {
      year = sub_ℕ ymd.year 1900;
      mon = ymd.month - 1;
      mday = ymd.day;
      wday = week_day date;
      yday = if yday then date.julian_day_number - start_of_year.julian_day_number else 0;
    }

-- TimeZone::toUtcTime
unfoldable pub to_utc_time : ℤ → Bool → Tm
to_utc_time time yday = tm_of yday (borrow (quot time seconds_per_day) (rem time seconds_per_day))

abbrev pub add_seconds : ℤ → ℕ → ℤ
add_seconds days s = sub_ℕ (pos_part days * seconds_per_day + s) (neg_part days * seconds_per_day)

-- TimeZone::fromUtcTime(int, int, int, int, int, int)
unfoldable pub from_utc_fields : ℕ → ℕ → ℕ → ℕ → ℕ → ℕ → ℤ
from_utc_fields year month day hour minute seconds =
    let date = new_date year month day in
    let seconds_in_day = hour * 3600 + minute * 60 + seconds in
    add_seconds (sub_ℕ date.julian_day_number epoch) seconds_in_day

-- tm_year + 1900
abbrev pub full_year : ℤ → ℕ
full_year year = 1900 + pos_part year - neg_part year

-- TimeZone::fromUtcTime(const struct tm&)
unfoldable pub from_utc_time : Tm → ℤ
unfolding from_utc_fields
from_utc_time utc =
    from_utc_fields (full_year utc.year) (utc.mon + 1) utc.mday utc.hour utc.min utc.sec

-- struct Transition
pub record Transition : Type 0 where
  pub gmttime : ℤ
  pub localtime : ℤ
  pub localtime_idx : ℕ

-- struct Localtime
pub record Localtime : Type 0 where
  pub gmt_offset : ℤ
  pub is_dst : Bool
  pub arrb_idx : ℕ

-- struct TimeZone::Data, less the names, which are never filled
pub record Data : Type 0 where
  pub transitions : List Transition
  pub localtimes : List Localtime
  pub abbreviation : List ℕ

-- The member that Comp compares.
abbrev pub key : Bool → Transition → ℤ
key compare_gmt t = if compare_gmt then t.gmttime else t.localtime

-- Comp::operator()
abbrev pub less : Bool → Transition → Transition → Bool
less compare_gmt lhs rhs = ltb_ℤ (key compare_gmt lhs) (key compare_gmt rhs)

-- Comp::equal
abbrev pub equal : Bool → Transition → Transition → Bool
equal compare_gmt lhs rhs =
    pos_part (key compare_gmt lhs) + neg_part (key compare_gmt rhs)
    == pos_part (key compare_gmt rhs) + neg_part (key compare_gmt lhs)

-- std::lower_bound on a sorted vector: the position of the first that is not less.
abbrev pub lower_bound : Bool → List Transition → Transition → ℕ
lower_bound compare_gmt [] sentry = 0
lower_bound compare_gmt (t ∷ ts) sentry =
    if less compare_gmt t sentry then suc (lower_bound compare_gmt ts sentry) else 0

abbrev pub back : Transition → List Transition → Transition
back t [] = t
back t (u ∷ us) = back u us

-- `--transI`, which begin() does not allow
abbrev pub prev : ℕ → Option ℕ
prev zero = none
prev (suc i) = some i

-- The transition that findLocaltime takes from a vector that does not begin after the sentry, where
-- lower_bound gave the position `i`; `none` is the failed assertion.
abbrev pub choose : Bool → List Transition → Transition → Transition → ℕ → Option Transition
choose compare_gmt ts sentry last i = elim (get_elem? ts i) [
  | none ↦ some last
  | some found ↦
      if equal compare_gmt sentry found then some found else (prev i >>= λ j. get_elem? ts j)
]

-- findLocaltime; `none` is a failed assertion, or a read outside a vector.
unfoldable pub find_localtime : Data → Transition → Bool → Option Localtime
find_localtime d sentry compare_gmt = elim d.transitions [
  | [] ↦ get_elem? d.localtimes 0
  | t ∷ ts ↦
      if less compare_gmt sentry t
      then get_elem? d.localtimes 0
      else (choose compare_gmt (t ∷ ts) sentry (back t ts) (lower_bound compare_gmt (t ∷ ts) sentry)
          >>= λ u. get_elem? d.localtimes u.localtime_idx)
]

module _ (gmtime : ℤ → Tm) (timegm : Tm → ℤ) where
  -- TimeZone::toLocalTime, with the C library's gmtime_r; tm_zone is left out.
  unfoldable pub to_local_time : Data → ℤ → Option Tm
  unfolding find_localtime
  to_local_time d seconds = do
    local ←
        find_localtime d (record { gmttime = seconds; localtime = pos 0; localtime_idx = 0 }) true
    some (record (gmtime (seconds +ℤ local.gmt_offset)) {
      isdst = local.is_dst;
      gmtoff = local.gmt_offset;
    })

  -- `if (localTm.tm_isdst) { … seconds -= 3600; }`
  abbrev pub hack : Tm → Tm → ℤ → ℤ
  hack tm try_tm seconds =
      if not try_tm.isdst && (try_tm.hour == tm.hour) && (try_tm.min == tm.min)
      then seconds -ℤ pos 3600
      else seconds

  -- TimeZone::fromLocalTime, with the C library's timegm
  unfoldable pub from_local_time : Data → Tm → Option ℤ
  unfolding to_local_time
  from_local_time d tm = do
    let seconds = timegm tm
    local ←
        find_localtime d (record { gmttime = pos 0; localtime = seconds; localtime_idx = 0 }) false
    seconds' ←
        (if tm.isdst
          then (to_local_time d (seconds -ℤ local.gmt_offset) >>= λ try_tm.
              some (hack tm try_tm seconds))
          else some seconds)
    some (seconds' -ℤ local.gmt_offset)
