-- ===== src/Base/TimeZone/Tests.antt =====
-- The theorems on base/TimeZone.cpp at concrete times.
use libiak.Prelude.{codes, ◌+ℤ◌, ◌≡◌, refl, arith, false, true, [], ◌∷◌, some, pos, negsuc}
use libiak.Base.TimeZone.{Transition, Localtime, Data, to_utc_time, from_utc_time, find_localtime}
use libiak.Base.TimeZone.Utc.{IsTimeOfDay, from_utc_time-to_utc_time}
use libiak.Base.TimeZone.Lookup.{in_force, IsComplete, find_localtime-in_force}
use libiak.Base.TimeZone.ZoneFile.{read_time_zone_file}
use libiak.Base.TimeZone.ZoneFile.RoundTrip.{IsZone, file_of, read_time_zone_file-file_of}

-- A second before the Epoch
from_utc_time-to_utc_time_example :
    (from_utc_time (to_utc_time (negsuc 0) true) ≡ negsuc 0)
    × IsTimeOfDay (to_utc_time (negsuc 0) true)
from_utc_time-to_utc_time_example =
    from_utc_time-to_utc_time (negsuc 0) true (omega arith) (omega arith)

-- An hour more from the time 1000 to the time 9000
abbrev winter : Localtime
winter = record { gmt_offset = pos 3600; is_dst = false; arrb_idx = 0 }

abbrev summer : Localtime
summer = record { gmt_offset = pos 7200; is_dst = true; arrb_idx = 0 }

abbrev zone : Data
zone = record {
  transitions =
      record { gmttime = pos 1000; localtime = pos 8200; localtime_idx = 1 }
      ∷ record { gmttime = pos 9000; localtime = pos 12600; localtime_idx = 0 }
      ∷ [];
  localtimes = winter ∷ summer ∷ [];
  abbreviation = codes "CETCEST";
}

zone-IsComplete : IsComplete zone
zone-IsComplete = record { some_localtime = omega arith; inside = (omega arith, (omega arith, tt)) }

abbrev noon : Transition
noon = record { gmttime = pos 8999; localtime = pos 0; localtime_idx = 0 }

noon_local : find_localtime zone noon true ≡ some summer
unfolding find_localtime
noon_local = refl

find_localtime-in_force_example :
    (find_localtime zone noon true ≡ in_force true zone noon)
    × ((l : Localtime) × (in_force true zone noon ≡ some l))
find_localtime-in_force_example =
    find_localtime-in_force true zone noon zone-IsComplete (omega arith, tt)

zone-IsZone : IsZone zone
unfolding ◌+ℤ◌
zone-IsZone = record {
  counted = (omega arith, omega arith, omega arith);
  fit = ((omega arith, omega arith), ((omega arith, omega arith), tt));
  linked = (
    ((omega arith, omega arith), (summer, refl, refl)),
    (((omega arith, omega arith), (winter, refl, refl)), tt),
  );
  bytes = refl;
}

read_time_zone_file-file_of_example :
    read_time_zone_file (some (file_of zone (1 ∷ 2 ∷ []))) ≡ some (zone, true)
read_time_zone_file-file_of_example = read_time_zone_file-file_of zone (1 ∷ 2 ∷ []) zone-IsZone
