-- ===== src/Base/ProcessInfo.antt =====
-- base/ProcessInfo.cpp: what the program reads of its own process. A string is the list of its bytes, and
-- what the system gives (the text of a file of /proc, the names in a directory, the bytes that a call writes)
-- is an argument.
pub mod Stat
pub mod Status
mod Tests
use libiak.Prelude.{
  ℕ, zero, suc, ◌+◌, ◌-◌, ◌*◌, ◌^◌, Bool, true, false, not, ◌||◌, ◌&&◌, List, [], ◌∷◌, ◌++◌, Option,
  none, some, length, take, drop, set, replicate, map, ◌%◌, if◌then◌else◌, ltb, leb, ◌==◌, sub64,
  add64, ◌>>=◌, ℤ, pos, negsuc, minus, codes, is_negative,
}

-- The library functions that the code calls.

-- std::string::find of a character; `none` is npos.
abbrev pub find_byte : ℕ → List ℕ → Option ℕ
find_byte c [] = none
find_byte c (x ∷ xs) = if x == c then some 0 else (do i ← find_byte c xs; some (suc i))

abbrev pub starts_with : List ℕ → List ℕ → Bool
starts_with [] xs = true
starts_with (k ∷ ks) [] = false
starts_with (k ∷ ks) (x ∷ xs) = x == k && starts_with ks xs

-- std::string::find of a text; `none` is npos.
abbrev pub find_text : List ℕ → List ℕ → Option ℕ
find_text key [] = if starts_with key [] then some 0 else none
find_text key (x ∷ xs) =
    if starts_with key (x ∷ xs) then some 0 else (do i ← find_text key xs; some (suc i))

-- std::string::substr, which throws behind the end.
abbrev pub substr : ℕ → ℕ → List ℕ → Option (List ℕ)
substr p n s = if ltb (length s) p then none else some (take n (drop p s))

-- ::isdigit
abbrev pub is_digit : ℕ → Bool
is_digit c = leb b'0' c && leb c b'9'

-- isspace: the blank, and the codes 9 to 13
abbrev pub is_space : ℕ → Bool
is_space c = c == b' ' || (leb 9 c && leb c 13)

abbrev pub skip_spaces : List ℕ → List ℕ
skip_spaces [] = []
skip_spaces (c ∷ cs) = if is_space c then skip_spaces cs else c ∷ cs

-- The digits at the front, behind the number `n`
abbrev pub number : ℕ → List ℕ → ℕ
number n [] = n
number n (c ∷ cs) = if is_digit c then number (10 * n + (c - b'0')) cs else n

abbrev pub signed : List ℕ → ℤ
signed [] = pos 0
signed (c ∷ cs) =
    if c == b'-'
    then minus (number 0 cs)
    else if c == b'+'
    then pos (number 0 cs)
    else pos (number 0 (c ∷ cs))

-- ::atoi, for texts whose number is an int
abbrev pub atoi : List ℕ → ℤ
atoi cs = signed (skip_spaces cs)

-- A text up to its 0; `none` where no byte of the buffer is 0 and the reader runs past it.
abbrev pub c_string : List ℕ → Option (List ℕ)
c_string [] = none
c_string (c ∷ cs) = if c == 0 then some [] else (do s ← c_string cs; some (c ∷ s))

-- procName behind procStat() and the two calls of find
abbrev pub name_between : List ℕ → Option ℕ → Option ℕ → Option (List ℕ)
name_between stat (some lp) (some rp) = substr (add64 lp 1) (sub64 (sub64 rp lp) 1) stat
name_between stat (some lp) none = some []
name_between stat none rp = some []

-- ProcessInfo::procName of the text of /proc/self/stat; `none` where substr throws.
unfoldable pub proc_name : List ℕ → Option (List ℕ)
proc_name stat = name_between stat (find_byte b'(' stat) (find_byte b')' stat)

-- "Threads:"
abbrev pub threads_key : List ℕ
threads_key = codes "Threads:"

abbrev pub threads_at : List ℕ → Option ℕ → ℤ
threads_at status none = pos 0
threads_at status (some p) = atoi (drop (p + 8) status)

-- ProcessInfo::numThreads of the text of /proc/self/status
unfoldable pub num_threads : List ℕ → ℤ
num_threads status = threads_at status (find_text threads_key status)

-- ::isdigit(d->d_name[0])
abbrev pub begins_with_digit : List ℕ → Bool
begins_with_digit [] = false
begins_with_digit (c ∷ cs) = is_digit c

-- fdDirFilter, on the counter t_numOpenedFiles
abbrev pub fd_dir_filter : List ℕ → ℕ → ℕ
fd_dir_filter name n = if begins_with_digit name then n + 1 else n

-- taskDirFilter, on the vector behind t_pids
abbrev pub task_dir_filter : List ℕ → List ℤ → List ℤ
task_dir_filter name pids = if begins_with_digit name then pids ++ atoi name ∷ [] else pids

-- scanDir: the filter sees each name of the directory and selects none.
abbrev pub scan_dir {ℓ} : {S : Type ℓ} → (List ℕ → S → S) → List (List ℕ) → S → S
scan_dir filter [] s = s
scan_dir filter (name ∷ names) s = scan_dir filter names (filter name s)

-- ProcessInfo::openedFiles of the names in /proc/self/fd
unfoldable pub opened_files : List (List ℕ) → ℕ
opened_files names = scan_dir fd_dir_filter names 0

-- static_cast<int> of a 64-bit number
abbrev pub as_int : ℕ → ℤ
as_int n = if ltb (n % 2 ^ 32) (2 ^ 31) then pos (n % 2 ^ 32) else minus (2 ^ 32 - n % 2 ^ 32)

-- ProcessInfo::maxOpenFiles, with the limit that getrlimit gives, if it succeeds
abbrev pub max_open_files : Option ℕ → List (List ℕ) → ℤ
max_open_files none names = pos (opened_files names)
max_open_files (some rlim_cur) names = as_int rlim_cur

-- ProcessInfo::threads of the names in /proc/self/task; `sort` is std::sort.
unfoldable pub threads : (List ℤ → List ℤ) → List (List ℕ) → List ℤ
threads sort names = sort (scan_dir task_dir_filter names [])

-- ProcessInfo::hostName, where gethostname writes these bytes to the front of the buffer of 64
unfoldable pub host_name : List ℕ → Option (List ℕ)
host_name written =
    let buf : List ℕ = set (codes "unknownhost" ++ replicate 53 0) 63 0 in
    c_string (written ++ drop (length written) buf)

-- ProcessInfo::exePath, with what readlink gives: -1, or the bytes it writes.
abbrev pub exe_path : Option (List ℕ) → List ℕ
exe_path none = []
exe_path (some bytes) = bytes

-- ProcessInfo::userName, with the name that getpwuid_r finds
abbrev pub user_name : Option (List ℕ) → List ℕ
user_name none = codes "unknownuser"
user_name (some pw_name) = pw_name
