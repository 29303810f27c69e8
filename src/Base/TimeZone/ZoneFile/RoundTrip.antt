-- ===== src/Base/TimeZone/ZoneFile/RoundTrip.antt =====
-- A zone file gives back the zone that was written to it.
use libiak.Prelude.{
  ◌&&◌, ℕ, ◌^◌, ◌<◌, ◌≡◌, refl, Bool, true, List, [], ◌∷◌, ◌++◌, some, length, ltb, arith, pos,
  codes,
}
use libiak.Base.TimeZone.{Data}
use libiak.Base.TimeZone.ZoneFile.{
  read_header, read_start, fill, fill_rest, read_zone, read_time_zone_file,
}
use libiak.Base.TimeZone.ZoneFile.Fields.{
  big_endian, times_of, indices_of, localtimes_of, gmttimes, AreOf, FitInt32, read_int32_lem,
  read_bytes_lem, read_times_lem, read_indices_lem, read_localtimes_lem, link_lem,
}

-- The file of a zone, version 0 and without leap seconds, and what follows in it
abbrev pub file_of : Data → List ℕ → List ℕ
file_of d rest =
    codes "TZif"
    ++ (0 ∷ [])
    ++ (0 ∷ 0 ∷ 0 ∷ 0 ∷ 0 ∷ 0 ∷ 0 ∷ 0 ∷ 0 ∷ 0 ∷ 0 ∷ 0 ∷ 0 ∷ 0 ∷ 0 ∷ [])
    ++ big_endian 0
    ++ big_endian 0
    ++ big_endian 0
    ++ big_endian (length d.transitions)
    ++ big_endian (length d.localtimes)
    ++ big_endian (length d.abbreviation)
    ++ (times_of d.transitions
        ++ (indices_of d.transitions ++ (localtimes_of d.localtimes ++ (d.abbreviation ++ rest))))

abbrev pub all_bytes : List ℕ → Bool
all_bytes [] = true
all_bytes (x ∷ xs) = ltb x 256 && all_bytes xs

-- A zone that a file can hold
pub record IsZone (d : Data) : Type 0 where
  pub counted :
      (length d.transitions < 2 ^ 31)
      × (length d.localtimes < 2 ^ 31)
      × (length d.abbreviation < 2 ^ 31)
  pub fit : FitInt32 d.localtimes
  pub linked : AreOf d.localtimes d.transitions
  pub bytes : all_bytes (file_of d []) ≡ true

-- The header of the file, with the rest
read_header_lem :
    (d : Data) (file : List ℕ)
    → IsZone d
    → read_header (
        codes "TZif"
        ++ (0 ∷ [])
        ++ (0 ∷ 0 ∷ 0 ∷ 0 ∷ 0 ∷ 0 ∷ 0 ∷ 0 ∷ 0 ∷ 0 ∷ 0 ∷ 0 ∷ 0 ∷ 0 ∷ 0 ∷ [])
        ++ big_endian 0
        ++ big_endian 0
        ++ big_endian 0
        ++ big_endian (length d.transitions)
        ++ big_endian (length d.localtimes)
        ++ big_endian (length d.abbreviation)
        ++ file)
      ≡ some (
        record {
          timecnt = pos (length d.transitions);
          typecnt = pos (length d.localtimes);
          charcnt = pos (length d.abbreviation);
        },
        file,
      )
unfolding read_header
read_header_lem d file v =
    let int0 = read_int32_lem (pos 0) in
    let after_times =
      big_endian (length d.localtimes) ++ big_endian (length d.abbreviation) ++ file in
    let after_leap = big_endian (length d.transitions) ++ after_times in
    let after_std = big_endian 0 ++ after_leap in
    let after_gmt = big_endian 0 ++ after_std in
    let after_reserved = big_endian 0 ++ after_gmt in
    let fifteen : List ℕ = 0 ∷ 0 ∷ 0 ∷ 0 ∷ 0 ∷ 0 ∷ 0 ∷ 0 ∷ 0 ∷ 0 ∷ 0 ∷ 0 ∷ 0 ∷ 0 ∷ 0 ∷ [] in
    rw
      (
        read_bytes_lem (codes "TZif") ((0 ∷ []) ++ fifteen ++ after_reserved),
        read_bytes_lem (0 ∷ []) (fifteen ++ after_reserved),
        read_bytes_lem fifteen after_reserved,
        int0 after_gmt (omega arith, omega arith),
        int0 after_std (omega arith, omega arith),
        int0 after_leap (omega arith, omega arith),
        read_int32_lem (pos (length d.transitions)) after_times (v.counted.0, omega arith),
        read_int32_lem (pos (length d.localtimes)) (big_endian (length d.abbreviation) ++ file)
            (v.counted.1, omega arith),
        read_int32_lem (pos (length d.abbreviation)) file (v.counted.2, omega arith),
      )
      refl

read_start_lem :
    (d : Data) (file : List ℕ)
    → IsZone d
    → read_start (file_of d file)
      ≡ some (
        record {
          timecnt = pos (length d.transitions);
          typecnt = pos (length d.localtimes);
          charcnt = pos (length d.abbreviation);
        },
        (
          gmttimes d.transitions,
          (indices_of d.transitions, localtimes_of d.localtimes ++ (d.abbreviation ++ file)),
        ),
      )
unfolding read_start
read_start_lem d file v =
    let after_indices = localtimes_of d.localtimes ++ (d.abbreviation ++ file) in
    let after_times = indices_of d.transitions ++ after_indices in
    rw
      (
        read_header_lem d (times_of d.transitions ++ after_times) v,
        read_times_lem d.localtimes d.transitions after_times v.linked,
        read_indices_lem d.transitions after_indices,
      )
      refl

-- A zone is read back from its file, whatever follows in the file, and the function returns true, if
-- the counts and the times fit an int32_t, what the file holds fits into bytes, and the local time of
-- each transition is that of the index it names.
pub read_time_zone_file-file_of :
    (d : Data) (rest : List ℕ)
    → IsZone d
    → read_time_zone_file (some (file_of d rest)) ≡ some (d, true)
unfolding read_time_zone_file read_zone fill fill_rest
read_time_zone_file-file_of d rest v =
    rw
      (
        read_start_lem d rest v,
        read_localtimes_lem d.localtimes (d.abbreviation ++ rest) v.fit,
        link_lem d.localtimes d.transitions v.linked,
        read_bytes_lem d.abbreviation rest,
      )
      refl
