-- ===== src/Base/TimeZone/ZoneFile/Fields.antt =====
-- The fields of a zone file: how they stand in the file, and that they are read back.
use libiak.Prelude.{
  ℕ, suc, ◌+◌, ◌-◌, ◌*◌, ◌/◌, ◌%◌, ◌^◌, ◌≤◌, ◌<◌, ◌≡◌, refl, ap, Bool, true, false, List, [], ◌∷◌,
  ◌++◌, some, length, take, drop, get_elem?, ltb, leb, lt→ltb, if◌then◌else◌, arith, ℤ, pos, negsuc,
  pos_part, neg_part, ◌+ℤ◌, length-append,
}
use libiak.Base.TimeZone.{Transition, Localtime}
use libiak.Base.TimeZone.ZoneFile.{
  read_bytes, read_int32, read_uint8, read_times, read_indices, read_localtime, read_localtimes,
  link,
}

-- An int32_t as a word, and the word with its high byte first
abbrev pub word : ℤ → ℕ
word (pos n) = n
word (negsuc n) = 2 ^ 32 - suc n

abbrev pub big_endian : ℕ → List ℕ
big_endian n = n / 2 ^ 24 ∷ n / 2 ^ 16 % 256 ∷ n / 2 ^ 8 % 256 ∷ n % 256 ∷ []

abbrev pub IsInt32 : ℤ → Type 0
IsInt32 i = (pos_part i < 2 ^ 31) × (neg_part i ≤ 2 ^ 31)

pub read_int32_lem :
    (i : ℤ) (file : List ℕ) → IsInt32 i → read_int32 (big_endian (word i) ++ file) ≡ some (i, file)
unfolding read_int32
read_int32_lem (pos n) file h =
    let same : n / 2 ^ 24 * 2 ^ 24 + n / 2 ^ 16 % 256 * 2 ^ 16 + n / 2 ^ 8 % 256 * 2 ^ 8 + n % 256
        ≡ n =
      omega arith in
    rw (same, lt→ltb n (2 ^ 31) h.0) refl
read_int32_lem (negsuc n) file h =
    let w = 2 ^ 32 - suc n in
    let same : w / 2 ^ 24 * 2 ^ 24 + w / 2 ^ 16 % 256 * 2 ^ 16 + w / 2 ^ 8 % 256 * 2 ^ 8 + w % 256
        ≡ w =
      omega arith in
    let big : ltb w (2 ^ 31) ≡ false = ground (arith, h.1) in
    let back : 2 ^ 32 - w ≡ suc n = omega (arith, h.1) in rw (same, big, back) refl

take-append : (xs ys : List ℕ) → take (length xs) (xs ++ ys) ≡ xs
take-append [] ys = refl
take-append (x ∷ xs) ys = ap (◌∷◌ x) (take-append xs ys)

drop-append : (xs ys : List ℕ) → drop (length xs) (xs ++ ys) ≡ ys
drop-append [] ys = refl
drop-append (x ∷ xs) ys = drop-append xs ys

pub read_bytes_lem : (xs file : List ℕ) → read_bytes (length xs) (xs ++ file) ≡ some (xs, file)
unfolding read_bytes
read_bytes_lem xs file =
    let room : leb (length xs) (length (xs ++ file)) ≡ true =
      ground (arith, length-append xs file) in
    rw (room, take-append xs file, drop-append xs file) refl

-- What stands in the file: the times, the indices, the local times
abbrev pub times_of : List Transition → List ℕ
times_of [] = []
times_of (t ∷ ts) = big_endian (word t.gmttime) ++ times_of ts

abbrev pub indices_of : List Transition → List ℕ
indices_of [] = []
indices_of (t ∷ ts) = t.localtime_idx ∷ indices_of ts

abbrev pub localtimes_of : List Localtime → List ℕ
localtimes_of [] = []
localtimes_of (l ∷ ls) =
    big_endian (word l.gmt_offset) ++ (if l.is_dst then 1 else 0) ∷ l.arrb_idx ∷ localtimes_of ls

-- The UTC times of the transitions
abbrev pub gmttimes : List Transition → List ℤ
gmttimes [] = []
gmttimes (t ∷ ts) = t.gmttime ∷ gmttimes ts

-- A transition of a zone with these local times: its times fit, and its local time is that of its
-- index.
abbrev pub IsOf : List Localtime → Transition → Type 0
IsOf ls t =
    IsInt32 t.gmttime
    × ((l : Localtime) × (get_elem? ls t.localtime_idx ≡ some l)
        × (t.localtime ≡ t.gmttime +ℤ l.gmt_offset))

abbrev pub AreOf : List Localtime → List Transition → Type 0
AreOf ls [] = Unit {0}
AreOf ls (t ∷ ts) = IsOf ls t × AreOf ls ts

abbrev pub FitInt32 : List Localtime → Type 0
FitInt32 [] = Unit {0}
FitInt32 (l ∷ ls) = IsInt32 l.gmt_offset × FitInt32 ls

pub read_times_lem :
    (ls : List Localtime) (ts : List Transition) (file : List ℕ)
    → AreOf ls ts
    → read_times (length ts) (times_of ts ++ file) ≡ some (gmttimes ts, file)
unfolding read_times
read_times_lem ls [] file v = refl
read_times_lem ls (t ∷ ts) file v =
    rw (read_int32_lem t.gmttime (times_of ts ++ file) v.0.0, read_times_lem ls ts file v.1) refl

pub read_indices_lem :
    (ts : List Transition) (file : List ℕ)
    → read_indices (length ts) (indices_of ts ++ file) ≡ some (indices_of ts, file)
unfolding read_indices read_uint8
read_indices_lem [] file = refl
read_indices_lem (t ∷ ts) file = rw (read_indices_lem ts file) refl

flag : (b : Bool) → ltb 0 (if b then 1 else 0) ≡ b
flag true = refl
flag false = refl

read_localtime_lem :
    (l : Localtime) (file : List ℕ)
    → IsInt32 l.gmt_offset
    → read_localtime
        (big_endian (word l.gmt_offset) ++ (if l.is_dst then 1 else 0) ∷ l.arrb_idx ∷ file)
      ≡ some (l, file)
unfolding read_localtime read_uint8
read_localtime_lem l file h =
    rw
      (
        read_int32_lem l.gmt_offset ((if l.is_dst then 1 else 0) ∷ l.arrb_idx ∷ file) h,
        flag l.is_dst,
      )
      refl

pub read_localtimes_lem :
    (ls : List Localtime) (file : List ℕ)
    → FitInt32 ls
    → read_localtimes (length ls) (localtimes_of ls ++ file) ≡ (ls, some file)
unfolding read_localtimes
read_localtimes_lem [] file v = refl
read_localtimes_lem (l ∷ ls) file v =
    rw (read_localtime_lem l (localtimes_of ls ++ file) v.0, read_localtimes_lem ls file v.1) refl

pub link_lem :
    (ls : List Localtime) (ts : List Transition)
    → AreOf ls ts
    → link ls (gmttimes ts) (indices_of ts) ≡ some ts
unfolding link
link_lem ls [] v = refl
link_lem ls (t ∷ ts) v =
    let (l, there, local) = v.0.1 in rw (there, link_lem ls ts v.1, ← local) refl
