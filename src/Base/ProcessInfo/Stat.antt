-- ===== src/Base/ProcessInfo/Stat.antt =====
-- The name in the text of /proc/self/stat, and the name of the host.
use mathlib.Core.Bool.{true≢false}
use libiak.Prelude.{
  ℕ, zero, suc, ◌+◌, ◌^◌, ◌≤◌, ◌<◌, ◌≡◌, refl, sym, ap, ap₂, ◌∙◌, false, List, [], ◌∷◌, ◌++◌,
  append-nil, append_assoc, Option, none, some, length, take, drop, set, replicate, length-append,
  take-append_le, take_all, if◌then◌else◌, if-cases, ltb, ◌==◌, ltb→lt, ltb→le, length-take, le→ltb,
  sub64, add64, arith, ◌>>=◌, codes,
}
use libiak.Base.ProcessInfo.{find_byte, substr, name_between, proc_name, c_string, host_name}

-- No byte of a text is this one.
abbrev pub Lacks : ℕ → List ℕ → Type 0
Lacks c [] = Unit
Lacks c (x ∷ xs) = ((x == c) ≡ false) × Lacks c xs

find_byte-append :
    (c : ℕ) (xs ys : List ℕ) → Lacks c xs → find_byte c (xs ++ c ∷ ys) ≡ some (length xs)
find_byte-append c [] ys h = ground arith
find_byte-append c (x ∷ xs) ys (ne, h) =
    if-cases (x == c) (λ o. o ≡ some (suc (length xs))) (some 0) _
      (λ e. absurd (true≢false (sym e ∙ ne))) (λ e. rw (find_byte-append c xs ys h) refl)

abbrev Below : ℕ → Option ℕ → Type 0
Below n none = Unit
Below n (some i) = i < n

Below-suc : (n : ℕ) (o : Option ℕ) → Below n o → Below (suc n) (do i ← o; some (suc i))
Below-suc n none h = tt
Below-suc n (some i) h = omega (arith, h)

find_byte-Below : (c : ℕ) (xs : List ℕ) → Below (length xs) (find_byte c xs)
find_byte-Below c [] = tt
find_byte-Below c (x ∷ xs) =
    if-cases (x == c) (Below (suc (length xs))) (some 0) _ (λ e. omega arith)
      (λ e. Below-suc (length xs) (find_byte c xs) (find_byte-Below c xs))

substr-some : (p n : ℕ) (s : List ℕ) → p ≤ length s → substr p n s ≡ some (take n (drop p s))
substr-some p n s h = rw (le→ltb p (length s) h) refl

-- Whatever the text of /proc/self/stat is, be it empty, cut or with its parentheses in the wrong order,
-- substr does not throw.
pub proc_name-returns :
    (stat : List ℕ) → length stat < 2 ^ 64 → (name : List ℕ) × (proc_name stat ≡ some name)
unfolding proc_name
proc_name-returns stat h =
    go (find_byte b'(' stat) (find_byte b')' stat) (find_byte-Below b'(' stat)
  where
    go :
        (lp rp : Option ℕ)
        → Below (length stat) lp
        → (name : List ℕ) × (name_between stat lp rp ≡ some name)
    go none rp l = ([], refl)
    go (some lp) none l = ([], refl)
    go (some lp) (some rp) l =
        (_, substr-some (add64 lp 1) (sub64 (sub64 rp lp) 1) stat (omega (arith, l, h)))

Lacks-append : (c : ℕ) (xs ys : List ℕ) → Lacks c xs → Lacks c ys → Lacks c (xs ++ ys)
Lacks-append c [] ys h k = k
Lacks-append c (x ∷ xs) ys (ne, h) k = (ne, Lacks-append c xs ys h k)

take-drop-between :
    (xs ys zs : List ℕ) (x n p : ℕ)
    → p ≡ length xs + 1
    → n ≡ length ys
    → take n (drop p (xs ++ x ∷ (ys ++ zs))) ≡ ys
take-drop-between [] ys zs x n p e f =
    let same : n ≡ length ys = f in
    rw (e, f)
      (take-append_le (length ys) ys zs (omega arith) ∙ take_all (length ys) ys (omega arith))
take-drop-between (x' ∷ xs) ys zs x n zero e f = absurd (omega (arith, e))
take-drop-between (x' ∷ xs) ys zs x n (suc p) e f =
    take-drop-between xs ys zs x n p (omega (arith, e)) f

-- The name is what stands between the first `(` and the first `)`, if the `(` comes first: of
-- `12 (name) S ...` it is the name, when that has no `)` of its own.
pub proc_name-between :
    (before name after : List ℕ)
    → Lacks b'(' before
    → Lacks b')' before
    → Lacks b')' name
    → length (before ++ b'(' ∷ (name ++ b')' ∷ after)) < 2 ^ 64
    → proc_name (before ++ b'(' ∷ (name ++ b')' ∷ after)) ≡ some name
unfolding proc_name
proc_name-between before name after no_lp no_rp inner h =
    let lp = length before in
    let rp = length (before ++ b'(' ∷ name) in
    let stat : List ℕ = before ++ b'(' ∷ (name ++ b')' ∷ after) in
    let first : find_byte b'(' stat ≡ some lp =
      find_byte-append b'(' before (name ++ b')' ∷ after) no_lp in
    let behind : find_byte b')' stat ≡ some rp =
      ap (find_byte b')') (sym (append_assoc before (b'(' ∷ name) (b')' ∷ after)))
      ∙ find_byte-append b')' (before ++ b'(' ∷ name) after
          (Lacks-append b')' before (b'(' ∷ name) no_rp (refl, inner)) in
    let size_rp : rp ≡ lp + 1 + length name = omega (arith, length-append before (b'(' ∷ name)) in
    let size : length stat ≡ lp + 1 + length name + 1 + length after = omega (
      arith,
      length-append before (b'(' ∷ (name ++ b')' ∷ after)),
      length-append name (b')' ∷ after),
    ) in
    ap₂ (name_between stat) first behind
    ∙ substr-some (add64 lp 1) (sub64 (sub64 rp lp) 1) stat (omega (arith, size, h))
    ∙ ap some (
        take-drop-between before name (b')' ∷ after) b'(' _ _ (omega (arith, size, h))
          (omega (arith, size, size_rp, h)))

c_string-append : (xs ys : List ℕ) → Lacks 0 xs → c_string (xs ++ 0 ∷ ys) ≡ some xs
c_string-append [] ys h = refl
c_string-append (x ∷ xs) ys (ne, h) =
    if-cases (x == 0) (λ o. o ≡ some (x ∷ xs)) (some []) _ (λ e. absurd (true≢false (sym e ∙ ne)))
      (λ e. rw (c_string-append xs ys h) refl)

c_string-Lacks : (xs : List ℕ) → Lacks 0 xs → c_string xs ≡ none
c_string-Lacks [] h = refl
c_string-Lacks (x ∷ xs) (ne, h) =
    if-cases (x == 0) (λ o. o ≡ none) (some []) _ (λ e. absurd (true≢false (sym e ∙ ne)))
      (λ e. rw (c_string-Lacks xs h) refl)

Lacks-take : (c n : ℕ) (xs : List ℕ) → Lacks c xs → Lacks c (take n xs)
Lacks-take c zero xs h = tt
Lacks-take c (suc n) [] h = tt
Lacks-take c (suc n) (x ∷ xs) (ne, h) = (ne, Lacks-take c n xs h)

-- gethostname writes the name and its NUL, or the first 64 bytes of them, and hostName returns the name, if it
-- is shorter than 64 bytes; else nothing in the buffer ends the string, and it is read beyond the buffer.
pub host_name-fits :
    (name : List ℕ)
    → Lacks 0 name
    → host_name (take 64 (name ++ 0 ∷ [])) ≡ (if ltb (length name) 64 then some name else none)
unfolding host_name
host_name-fits name h =
    let buf : List ℕ = set (codes "unknownhost" ++ replicate 53 0) 63 0 in
    let written : List ℕ = take 64 (name ++ 0 ∷ []) in
    if-cases (ltb (length name) 64) (λ o. c_string (written ++ drop (length written) buf) ≡ o) _ _
      (λ e.
        let whole : written ≡ name ++ 0 ∷ [] =
          take_all 64 (name ++ 0 ∷ []) (omega (arith, ltb→lt _ _ e, length-append name (0 ∷ []))) in
        ap (λ w. c_string (w ++ drop (length w) buf)) whole
        ∙ ap c_string (append_assoc name (0 ∷ []) (drop (length (name ++ 0 ∷ [])) buf))
        ∙ c_string-append name (drop (length (name ++ 0 ∷ [])) buf) h)
      (λ e.
        let cut : written ≡ take 64 name = take-append_le 64 name (0 ∷ []) (ltb→le _ _ e) in
        let size : length (take 64 name) ≡ 64 = omega (arith, length-take 64 name, ltb→le _ _ e) in
        ap (λ w. c_string (w ++ drop (length w) buf)) cut
        ∙ ap (λ n. c_string (take 64 name ++ drop n buf)) size
        ∙ ap c_string (append-nil (take 64 name))
        ∙ c_string-Lacks (take 64 name) (Lacks-take 0 64 name h))
