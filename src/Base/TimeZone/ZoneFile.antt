-- ===== src/Base/TimeZone/ZoneFile.antt =====
-- readTimeZoneFile and class File of base/TimeZone.cpp: the data of a zone from the bytes of its file. A
-- read that finds too few bytes throws, which ends the function and leaves what was filled by then;
-- an exception is `none` in the readers. In the result `none` is a read outside a vector, or a buffer
-- of negative length. The file stays open; what it has left are the bytes.
pub mod Fields
pub mod RoundTrip
use libiak.Prelude.{
  ℕ, zero, suc, ◌+◌, ◌-◌, ◌*◌, ◌^◌, Bool, true, false, ◌&&◌, List, [], ◌∷◌, ◌++◌, Option, none,
  some, length, take, drop, get_elem?, ltb, leb, ◌==◌, if◌then◌else◌, ◌>>=◌, ℤ, pos, minus,
  pos_part, is_negative, ◌+ℤ◌, codes,
}
use libiak.Base.TimeZone.{Transition, Localtime, Data}

-- File::readBytes, of no negative number
unfoldable pub read_bytes : ℕ → List ℕ → Option (List ℕ × List ℕ)
read_bytes n file = if leb n (length file) then some (take n file, drop n file) else none

-- A word as an int32_t
abbrev pub to_int32 : ℕ → ℤ
to_int32 n = if ltb n (2 ^ 31) then pos n else minus (2 ^ 32 - n)

-- File::readInt32, be32toh included
unfoldable pub read_int32 : List ℕ → Option (ℤ × List ℕ)
read_int32 (a ∷ b ∷ c ∷ d ∷ file) = some (to_int32 (a * 2 ^ 24 + b * 2 ^ 16 + c * 2 ^ 8 + d), file)
read_int32 file = none

-- File::readUInt8
unfoldable pub read_uint8 : List ℕ → Option (ℕ × List ℕ)
read_uint8 [] = none
read_uint8 (x ∷ file) = some (x, file)

-- `head != "TZif"`, negated
abbrev pub same_text : List ℕ → List ℕ → Bool
same_text [] [] = true
same_text [] (y ∷ ys) = false
same_text (x ∷ xs) [] = false
same_text (x ∷ xs) (y ∷ ys) = (x == y) && same_text xs ys

-- The counts of the header that are used
pub record Counts : Type 0 where
  pub timecnt : ℤ
  pub typecnt : ℤ
  pub charcnt : ℤ

-- The header
unfoldable pub read_header : List ℕ → Option (Counts × List ℕ)
read_header file = do
  (head, file1) ← read_bytes 4 file
  known ← (if same_text head (codes "TZif") then some file1 else none)
  (version, file2) ← read_bytes 1 known
  (reserved, file3) ← read_bytes 15 file2
  (isgmtcnt, file4) ← read_int32 file3
  (isstdcnt, file5) ← read_int32 file4
  (leapcnt, file6) ← read_int32 file5
  (timecnt, file7) ← read_int32 file6
  (typecnt, file8) ← read_int32 file7
  (charcnt, file9) ← read_int32 file8
  some (record { timecnt = timecnt; typecnt = typecnt; charcnt = charcnt }, file9)

-- The loop that fills `trans`
unfoldable pub read_times : ℕ → List ℕ → Option (List ℤ × List ℕ)
read_times zero file = some ([], file)
read_times (suc n) file = do
  (x, file1) ← read_int32 file
  (xs, file2) ← read_times n file1
  some (x ∷ xs, file2)

-- The loop that fills the vector `localtimes` of indices
unfoldable pub read_indices : ℕ → List ℕ → Option (List ℕ × List ℕ)
read_indices zero file = some ([], file)
read_indices (suc n) file = do
  (x, file1) ← read_uint8 file
  (xs, file2) ← read_indices n file1
  some (x ∷ xs, file2)

-- A round of the loop that fills data->localtimes
unfoldable pub read_localtime : List ℕ → Option (Localtime × List ℕ)
read_localtime file = do
  (gmtoff, file1) ← read_int32 file
  (isdst, file2) ← read_uint8 file1
  (abbrind, file3) ← read_uint8 file2
  some (record { gmt_offset = gmtoff; is_dst = ltb 0 isdst; arrb_idx = abbrind }, file3)

-- A local time is pushed and the loop goes on, unless its read threw.
abbrev pub push :
    Option (Localtime × List ℕ)
    → (List ℕ → List Localtime × Option (List ℕ))
    → List Localtime × Option (List ℕ)
push none next = ([], none)
push (some (l, file)) next = (l ∷ (next file).0, (next file).1)

-- That loop: what it filled, and the rest of the file unless it threw
unfoldable pub read_localtimes : ℕ → List ℕ → List Localtime × Option (List ℕ)
read_localtimes zero file = ([], some file)
read_localtimes (suc n) file = push (read_localtime file) (read_localtimes n)

-- The loop that fills data->transitions
unfoldable pub link : List Localtime → List ℤ → List ℕ → Option (List Transition)
link ls [] is = some []
link ls (t ∷ ts) [] = none
link ls (t ∷ ts) (i ∷ is) = do
  l ← get_elem? ls i
  rest ← link ls ts is
  some (record { gmttime = t; localtime = t +ℤ l.gmt_offset; localtime_idx = i } ∷ rest)

-- Up to the loop that fills data->localtimes; reserve() of a negative number throws.
unfoldable pub read_start : List ℕ → Option (Counts × (List ℤ × (List ℕ × List ℕ)))
read_start file = do
  (counts, file1) ← read_header file
  reserved ← (if is_negative counts.timecnt then none else some file1)
  (ts, file2) ← read_times (pos_part counts.timecnt) reserved
  (is, file3) ← read_indices (pos_part counts.timecnt) file2
  some (counts, (ts, (is, file3)))

-- The text, or what it was before an exception
abbrev pub or_empty : Option (List ℕ × List ℕ) → List ℕ
or_empty none = []
or_empty (some (text, file)) = text

-- What follows the loop that fills data->localtimes, unless it threw
unfoldable pub fill_rest : Counts → List ℤ → List ℕ → List Localtime × Option (List ℕ) → Option Data
fill_rest counts ts is (ls, none) =
    some (record { transitions = []; localtimes = ls; abbreviation = [] })
fill_rest counts ts is (ls, some file) = do
  transitions ← link ls ts is
  charcnt ← (if is_negative counts.charcnt then none else some (pos_part counts.charcnt))
  some (record {
    transitions = transitions;
    localtimes = ls;
    abbreviation = or_empty (read_bytes charcnt file);
  })

-- What follows the first loops, unless they threw
unfoldable pub fill : Option (Counts × (List ℤ × (List ℕ × List ℕ))) → Option Data
fill none = some (record { transitions = []; localtimes = []; abbreviation = [] })
fill (some (counts, (ts, (is, file)))) =
    fill_rest counts ts is (read_localtimes (pos_part counts.typecnt) file)

-- The data of a file that was opened
unfoldable pub read_zone : List ℕ → Option Data
read_zone file = fill (read_start file)

-- readTimeZoneFile: `none` as the file is one that does not open.
unfoldable pub read_time_zone_file : Option (List ℕ) → Option (Data × Bool)
read_time_zone_file none =
    some (record { transitions = []; localtimes = []; abbreviation = [] }, true)
read_time_zone_file (some file) = do d ← read_zone file; some (d, true)
