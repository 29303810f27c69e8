-- ===== src/Base/TimeZone/Fixed.antt =====
-- A zone with one local time for good.
use libiak.Prelude.{ℕ, ◌≡◌, refl, Bool, true, false, [], ◌∷◌, some, ◌>>=◌, ℤ, ◌+ℤ◌, +ℤ-cancel}
use libiak.Base.TimeZone.{Tm, Localtime, Data, find_localtime, to_local_time, from_local_time}

-- timegm gives back the time that gmtime_r was given, and reads neither tm_isdst nor tm_gmtoff.
abbrev pub AreInverse : (ℤ → Tm) → (Tm → ℤ) → Type 0
AreInverse gmtime timegm =
    (time : ℤ) (isdst : Bool) (gmtoff : ℤ)
    → timegm (record (gmtime time) { isdst = isdst; gmtoff = gmtoff }) ≡ time

abbrev pub fixed : Localtime → Data
fixed l = record { transitions = []; localtimes = l ∷ []; abbreviation = [] }

module _ (gmtime : ℤ → Tm) (timegm : Tm → ℤ) (inverse : AreInverse gmtime timegm) where
  by_offset :
      (offset : ℤ) (summer : Bool) (i : ℕ) (time : ℤ)
      → let l : Localtime = record { gmt_offset = offset; is_dst = summer; arrb_idx = i } in
        (to_local_time gmtime timegm (fixed l) time >>= from_local_time gmtime timegm (fixed l))
        ≡ some time
  unfolding to_local_time from_local_time find_localtime
  by_offset offset true i time =
      let back = inverse (time +ℤ offset) true offset in rw (back, +ℤ-cancel) refl
  by_offset offset false i time =
      let back = inverse (time +ℤ offset) false offset in rw (back, +ℤ-cancel) refl

  -- In a zone without transitions, daylight saving or not, a time comes back from its local time, with
  -- gmtime_r and timegm inverse to each other.
  pub from_local_time-to_local_time :
      (l : Localtime) (time : ℤ)
      → (to_local_time gmtime timegm (fixed l) time >>= from_local_time gmtime timegm (fixed l))
        ≡ some time
  from_local_time-to_local_time l time = by_offset l.gmt_offset l.is_dst l.arrb_idx time
