-- ===== src/Base/ProcessInfo/Status.antt =====
-- The number in the text of /proc/self/status, and the names in the directories under /proc/self.
use libiak.Prelude.{
  ℕ, suc, ◌+◌, ◌-◌, ◌*◌, ◌≤◌, ◌<◌, ◌≡◌, refl, sym, ap, ◌∙◌, true, false, ◌&&◌, List, [], ◌∷◌, ◌++◌,
  append-nil, append_assoc, some, length, drop, map, if◌then◌else◌, ◌==◌, arith, ℤ, pos,
}
use libiak.Log.LogStream.{convert}
use libiak.Log.LogStream.Decimal.{
  AreDigits, horner, AreDigits-convert, horner-convert, length-convert_pos,
}
use libiak.Base.ProcessInfo.{
  starts_with, find_text, is_digit, is_space, number, atoi, threads_key, threads_at, num_threads,
  begins_with_digit, fd_dir_filter, task_dir_filter, scan_dir, opened_files, threads,
}

digit-is : (c : ℕ) → b'0' ≤ c → c ≤ b'9' → is_digit c ≡ true
digit-is c h k = ground arith

digit-is_space : (c : ℕ) → b'0' ≤ c → c ≤ b'9' → is_space c ≡ false
digit-is_space c h k = ground arith

number-digits :
    (n : ℕ) (cs : List ℕ) (c : ℕ) (rest : List ℕ)
    → AreDigits cs
    → is_digit c ≡ false
    → number n (cs ++ c ∷ rest) ≡ horner n cs
number-digits n [] c rest h e = rw e refl
number-digits n (d ∷ ds) c rest (low, high, h) e =
    rw (digit-is d low high) (number-digits (10 * n + (d - b'0')) ds c rest h e)

number-digits_end : (n : ℕ) (cs : List ℕ) → AreDigits cs → number n cs ≡ horner n cs
number-digits_end n [] h = refl
number-digits_end n (d ∷ ds) (low, high, h) =
    rw (digit-is d low high) (number-digits_end (10 * n + (d - b'0')) ds h)

-- A text that starts with a digit has no blank and no sign in front of its number.
atoi-digit : (c : ℕ) (cs : List ℕ) → b'0' ≤ c → c ≤ b'9' → atoi (c ∷ cs) ≡ pos (number 0 (c ∷ cs))
atoi-digit c cs low high =
    let no_space = digit-is_space c low high in
    let minus_no : (c == b'-') ≡ false = ground arith in
    let plus_no : (c == b'+') ≡ false = ground arith in rw (no_space, minus_no, plus_no) refl

atoi-text :
    (cs : List ℕ) (c : ℕ) (rest : List ℕ)
    → AreDigits cs
    → 0 < length cs
    → is_digit c ≡ false
    → atoi (cs ++ c ∷ rest) ≡ pos (horner 0 cs)
atoi-text [] c rest h k e = absurd (omega arith)
atoi-text (d ∷ ds) c rest (low, high, h) k e =
    atoi-digit d (ds ++ c ∷ rest) low high
    ∙ ap pos (number-digits 0 (d ∷ ds) c rest (low, high, h) e)

-- What atoi makes of the text of a number, with a line's end behind it or at the end of the text
atoi-convert_line : (n : ℕ) (rest : List ℕ) → atoi (convert (pos n) ++ b'\n' ∷ rest) ≡ pos n
atoi-convert_line n rest =
    atoi-text (convert (pos n)) b'\n' rest (AreDigits-convert n) (length-convert_pos n) refl
    ∙ ap pos (horner-convert n)

starts_with-append :
    (key xs ys : List ℕ) → length key ≤ length xs → starts_with key (xs ++ ys) ≡ starts_with key xs
starts_with-append [] xs ys h = refl
starts_with-append (k ∷ key) [] ys h = absurd (omega arith)
starts_with-append (k ∷ key) (x ∷ xs) ys h =
    ap (λ b. (x == k) && b) (starts_with-append key xs ys (omega (arith, h)))

-- A text that a key does not begin in, and what stands behind it
abbrev pub Skips : List ℕ → List ℕ → List ℕ → Type 0
Skips key [] tail = Unit
Skips key (x ∷ xs) tail = (starts_with key (x ∷ (xs ++ tail)) ≡ false) × Skips key xs tail

find_text-skip :
    (key xs tail : List ℕ)
    → Skips key xs tail
    → starts_with key tail ≡ true
    → find_text key (xs ++ tail) ≡ some (length xs)
find_text-skip key [] [] h k = rw k refl
find_text-skip key [] (t ∷ tail) h k = rw k refl
find_text-skip key (x ∷ xs) tail (differs, h) k = rw (differs, find_text-skip key xs tail h k) refl

drop-front : (xs ys : List ℕ) (n : ℕ) → drop (length xs + n) (xs ++ ys) ≡ drop n ys
drop-front [] ys n = ap (λ k. drop k ys) (omega arith)
drop-front (x ∷ xs) ys n =
    let shift : suc (length xs) + n ≡ suc (length xs + n) = omega arith in
    rw shift (drop-front xs ys n)

-- Of a text of /proc/self/status in which "Threads:" begins nowhere before the line for the number of threads,
-- which has that key, a tab and the number, numThreads gives the number.
pub num_threads-line :
    (before : List ℕ) (n : ℕ) (after : List ℕ)
    → Skips threads_key before (threads_key ++ b'\t' ∷ (convert (pos n) ++ b'\n' ∷ after))
    → num_threads (before ++ (threads_key ++ b'\t' ∷ (convert (pos n) ++ b'\n' ∷ after))) ≡ pos n
unfolding num_threads
num_threads-line before n after h =
    let line : List ℕ = threads_key ++ b'\t' ∷ (convert (pos n) ++ b'\n' ∷ after) in
    ap (threads_at (before ++ line)) (find_text-skip threads_key before line h refl)
    ∙ ap atoi (drop-front before line 8)
    ∙ atoi-convert_line n after

atoi-convert : (n : ℕ) → atoi (convert (pos n)) ≡ pos n
atoi-convert n =
    go (convert (pos n)) (AreDigits-convert n) (length-convert_pos n) ∙ ap pos (horner-convert n)
  where
    go : (cs : List ℕ) → AreDigits cs → 0 < length cs → atoi cs ≡ pos (horner 0 cs)
    go [] h k = absurd (omega arith)
    go (d ∷ ds) (low, high, h) k =
        atoi-digit d ds low high ∙ ap pos (number-digits_end 0 (d ∷ ds) (low, high, h))

convert-begins_with_digit : (n : ℕ) → begins_with_digit (convert (pos n)) ≡ true
convert-begins_with_digit n = go (convert (pos n)) (AreDigits-convert n) (length-convert_pos n)
  where
    go : (cs : List ℕ) → AreDigits cs → 0 < length cs → begins_with_digit cs ≡ true
    go [] h k = absurd (omega arith)
    go (d ∷ ds) (low, high, h) k = digit-is d low high

-- What is in a directory such as /proc/self/fd: itself, the one above it, and a name for each number.
pub data Entry : Type 0 where
  dot dot_dot : Entry
  numbered : ℕ → Entry

abbrev pub name_of : Entry → List ℕ
name_of dot = b'.' ∷ []
name_of dot_dot = b'.' ∷ b'.' ∷ []
name_of (numbered n) = convert (pos n)

abbrev pub numbers : List Entry → List ℕ
numbers [] = []
numbers (dot ∷ es) = numbers es
numbers (dot_dot ∷ es) = numbers es
numbers (numbered n ∷ es) = n ∷ numbers es

fd_dir_filter-convert : (k n : ℕ) → fd_dir_filter (convert (pos k)) n ≡ n + 1
fd_dir_filter-convert k n = rw (convert-begins_with_digit k) refl

task_dir_filter-convert :
    (k : ℕ) (pids : List ℤ) → task_dir_filter (convert (pos k)) pids ≡ pids ++ pos k ∷ []
task_dir_filter-convert k pids =
    ap (λ b. if b then pids ++ atoi (convert (pos k)) ∷ [] else pids) (convert-begins_with_digit k)
    ∙ ap (λ i. pids ++ i ∷ []) (atoi-convert k)

scan-fds :
    (es : List Entry) (n : ℕ) → scan_dir fd_dir_filter (map name_of es) n ≡ n + length (numbers es)
scan-fds [] n = omega arith
scan-fds (dot ∷ es) n = scan-fds es n
scan-fds (dot_dot ∷ es) n = scan-fds es n
scan-fds (numbered k ∷ es) n =
    ap (scan_dir fd_dir_filter (map name_of es)) (fd_dir_filter-convert k n)
    ∙ scan-fds es (n + 1)
    ∙ omega arith

scan-tasks :
    (es : List Entry) (pids : List ℤ)
    → scan_dir task_dir_filter (map name_of es) pids ≡ pids ++ map pos (numbers es)
scan-tasks [] pids = sym (append-nil pids)
scan-tasks (dot ∷ es) pids = scan-tasks es pids
scan-tasks (dot_dot ∷ es) pids = scan-tasks es pids
scan-tasks (numbered k ∷ es) pids =
    ap (scan_dir task_dir_filter (map name_of es)) (task_dir_filter-convert k pids)
    ∙ scan-tasks es (pids ++ pos k ∷ [])
    ∙ append_assoc pids (pos k ∷ []) (map pos (numbers es))

-- Of a directory with `.`, `..` and names that are numbers, in any order, openedFiles gives how many numbers
-- there are, and threads gives the numbers, sorted.
pub threads-opened_files :
    (sort : List ℤ → List ℤ) (es : List Entry)
    → (opened_files (map name_of es) ≡ length (numbers es))
      × (threads sort (map name_of es) ≡ sort (map pos (numbers es)))
unfolding opened_files threads
threads-opened_files sort es = (scan-fds es 0 ∙ omega arith, ap sort (scan-tasks es []))
