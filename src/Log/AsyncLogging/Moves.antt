-- ===== src/Log/AsyncLogging/Moves.antt =====
-- A step of the threads: a line, or the write of a logger.
use mathlib.Core.Path.{subst}
use libiak.Prelude.{
  ℕ, ◌+◌, ◌≡◌, inl, inr, refl, sym, ◌∙◌, Bool, true, false, List, [], ◌∷◌, ◌++◌, Option, none, some,
  ◌==◌, ==→eq, if◌then◌else◌, arith, append-nil, Bool-cases, ◌>>=◌,
}
use libiak.Log.AsyncLogger.{
  AsyncLogger, Phase, idle, swapped, Phase, idle, swapped, Phase, idle, swapped, Phase, idle,
  swapped, write_buffers,
}
use libiak.Log.AsyncLogger.Order.{stream, accepted}
use libiak.Log.AsyncLogging.{AsyncLogging, update, append}
use libiak.Log.AsyncLogging.Registered.{times, flag, busy, Fits, steps, append-Steps, write-Steps}

-- Every logger is registered once while it has lines that were not taken, and else not at all; it is
-- once among those to be written while its lines are taken and not written, and else not at all.
abbrev pub IsKept : AsyncLogging → Type 0
IsKept a = (j : ℕ) → Fits (times j a.registered) (times j a.to_write) (a.loggers j)

-- A state in which this is so is reached, with these bytes on their way in each logger.
pub data Moves (bytes : ℕ → List ℕ) : Option AsyncLogging → Type 0 where
  moved :
      (a : AsyncLogging)
      → IsKept a
      → ((j : ℕ) → stream (a.loggers j) ≡ bytes j)
      → Moves bytes (some a)

-- The same, with these lists of registered loggers and loggers to be written.
pub data MovesTo (registered to_write : List ℕ) (bytes : ℕ → List ℕ)
    : Option AsyncLogging → Type 0 where
  moved_to :
      (f : ℕ → AsyncLogger)
      → IsKept (record { loggers = f; registered = registered; to_write = to_write })
      → ((j : ℕ) → stream (f j) ≡ bytes j)
      → MovesTo registered to_write bytes
          (some (record { loggers = f; registered = registered; to_write = to_write }))

pub Moves-to :
    (registered to_write : List ℕ) (bytes : ℕ → List ℕ) (o : Option AsyncLogging)
    → MovesTo registered to_write bytes o
    → Moves bytes o
Moves-to registered to_write bytes o (moved_to f k e) = moved _ k e

pub MovesTo-same :
    (registered to_write : List ℕ) (bytes bytes' : ℕ → List ℕ) (o : Option AsyncLogging)
    → ((j : ℕ) → bytes j ≡ bytes' j)
    → MovesTo registered to_write bytes o
    → MovesTo registered to_write bytes' o
MovesTo-same registered to_write bytes bytes' o b (moved_to f k e) = moved_to f k (λ j. e j ∙ b j)

pub Moves-same :
    (bytes bytes' : ℕ → List ℕ) (o : Option AsyncLogging)
    → ((j : ℕ) → bytes j ≡ bytes' j)
    → Moves bytes o
    → Moves bytes' o
Moves-same bytes bytes' o b (moved a k e) = moved a k (λ j. e j ∙ b j)

-- A logger is the one named, or another.
pub same_or_other {ℓ} :
    (i j : ℕ) (P : ℕ → Bool → Type ℓ) → P i true → ((i == j) ≡ false → P j false) → P j (i == j)
same_or_other i j P same other = elim (Bool-cases (i == j)) [
  | inl e ↦ subst (P j) (sym e) (subst (λ n. P n true) (==→eq i j e) same)
  | inr e ↦ subst (P j) (sym e) (other e)
]

times-append_one : (i j : ℕ) (is : List ℕ) → times j (is ++ i ∷ []) ≡ times j is + times j (i ∷ [])
times-append_one i j [] = omega arith
times-append_one i j (k ∷ is) = omega (arith, times-append_one i j is)

times-registered :
    (b : Bool) (i j : ℕ) (is : List ℕ)
    → times i is ≡ flag b
    → times j (if b then is else is ++ i ∷ []) ≡ (if i == j then 1 else times j is)
times-registered true i j is h =
    same_or_other i j (λ n c. times n is ≡ (if c then 1 else times n is)) h (λ e. refl)
times-registered false i j is h =
    times-append_one i j is
    ∙ same_or_other i j
        (λ n c. times n is + ((if c then 1 else 0) + 0) ≡ (if c then 1 else times n is))
        (omega (arith, h)) (λ e. omega arith)

-- What a line adds to the bytes of each logger.
abbrev pub accepted_by : ℕ → Option (ℕ × List ℕ) → ℕ → List ℕ
accepted_by size none j = []
accepted_by size (some (i, line)) j = if i == j then accepted size (some line) else []

pub append-Moves :
    (size i : ℕ) (line : List ℕ) (a : AsyncLogging)
    → IsKept a
    → Moves
        (λ j. stream (a.loggers j) ++ accepted_by size (some (i, line)) j)
        (append size i line a)
unfolding append
append-Moves size i line a k =
    elim (append-Steps size line (times i a.registered) (times i a.to_write) (a.loggers i) (k i))
      as (λ o x.
        Moves (λ j. stream (a.loggers j) ++ accepted_by size (some (i, line)) j)
          (o >>= λ s. some (record a {
            loggers = update i s a.loggers;
            registered = if (a.loggers i).not_empty then a.registered else a.registered ++ i ∷ [];
          }))) [
            | steps s v e ↦
                moved _
                  (λ j.
                    rw (times-registered (a.loggers i).not_empty i j a.registered ((k i).flagged)) (
                      same_or_other i j
                        (λ n b.
                          Fits (if b then 1 else times n a.registered) (times n a.to_write)
                            (if b then s else a.loggers n))
                        v (λ f. k j)))
                  (λ j.
                    same_or_other i j
                      (λ n b.
                        stream (if b then s else a.loggers n)
                        ≡ stream (a.loggers n) ++ (if b then accepted size (some line) else []))
                      e (λ f. sym (append-nil (stream (a.loggers j)))))
          ]

pub update-stream :
    (i j : ℕ) (s : AsyncLogger) (f : ℕ → AsyncLogger)
    → stream s ≡ stream (f i)
    → stream (update i s f j) ≡ stream (f j)
update-stream i j s f e =
    same_or_other i j (λ n b. stream (if b then s else f n) ≡ stream (f n)) e (λ other. refl)

pub self : (i : ℕ) → (i == i) ≡ true
self i = ground arith

pub times-other : (i j : ℕ) (is : List ℕ) → (i == j) ≡ false → times j (i ∷ is) ≡ times j is
times-other i j is e = rw e (omega arith)

taken_at_most_once :
    (p : Phase) (i : ℕ) (is : List ℕ)
    → times i (i ∷ is) ≡ busy p
    → (times i (i ∷ is) ≡ 1) × (times i is ≡ 0)
taken_at_most_once idle i is h = absurd (ground (arith, self i))
taken_at_most_once swapped i is h = (h, ground (arith, self i))

pub write-Moves :
    (i : ℕ) (is : List ℕ) (a : AsyncLogging)
    → ((j : ℕ) → Fits (times j a.registered) (times j (i ∷ is)) (a.loggers j))
    → MovesTo a.registered is
        (λ j. stream (a.loggers j))
        (write_buffers (a.loggers i) >>= λ s.
          some (record a { loggers = update i s a.loggers; to_write = is }))
write-Moves i is a k =
    let (once, gone) = taken_once in
    elim (write-Steps (times i a.registered) (a.loggers i)
        (subst (λ w. Fits (times i a.registered) w (a.loggers i)) once (k i)))
      as (λ o x.
        MovesTo a.registered is (λ j. stream (a.loggers j))
          (o >>= λ s. some (record a { loggers = update i s a.loggers; to_write = is }))) [
            | steps s v e ↦
                moved_to (update i s a.loggers)
                  (λ j.
                    same_or_other i j
                      (λ n b.
                        Fits (times n a.registered) (times n is) (if b then s else a.loggers n))
                      (subst (λ w. Fits (times i a.registered) w s) (sym gone) v)
                      (λ f.
                        subst (λ w. Fits (times j a.registered) w (a.loggers j))
                          (times-other i j is f) (k j)))
                  (λ j. update-stream i j s a.loggers e)
          ]
  where
    taken_once : (times i (i ∷ is) ≡ 1) × (times i is ≡ 0)
    taken_once = taken_at_most_once (a.loggers i).phase i is ((k i).taken)
