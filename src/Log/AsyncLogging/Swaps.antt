-- ===== src/Log/AsyncLogging/Swaps.antt =====
-- The swap of all registered loggers.
use mathlib.Core.Path.{subst}
use libiak.Prelude.{
  ℕ, ◌+◌, ◌≤◌, ◌≡◌, refl, ◌∙◌, Bool, true, false, List, [], ◌∷◌, Option, some, ◌==◌, if◌then◌else◌,
  arith, ◌>>=◌,
}
use libiak.Log.AsyncLogger.{AsyncLogger}
use libiak.Log.AsyncLogger.Order.{stream}
use libiak.Log.AsyncLogging.{AsyncLogging, update, swap_all, swap_to_write}
use libiak.Log.AsyncLogging.Registered.{times, flag, Fits, steps, swap-Steps}
use libiak.Log.AsyncLogging.Moves.{
  MovesTo, moved_to, same_or_other, update-stream, self, times-other,
}

-- The loggers after the swaps, and the bytes they have on their way
data Swaps (taken : ℕ → ℕ) (bytes : ℕ → List ℕ) : Option (ℕ → AsyncLogger) → Type 0 where
  swapped_all :
      (g : ℕ → AsyncLogger)
      → ((j : ℕ) → Fits 0 (taken j) (g j))
      → ((j : ℕ) → stream (g j) ≡ bytes j)
      → Swaps taken bytes (some g)

Swaps-same :
    (taken taken' : ℕ → ℕ) (bytes bytes' : ℕ → List ℕ) (o : Option (ℕ → AsyncLogger))
    → ((j : ℕ) → taken j ≡ taken' j)
    → ((j : ℕ) → bytes j ≡ bytes' j)
    → Swaps taken bytes o
    → Swaps taken' bytes' o
Swaps-same taken taken' bytes bytes' o t b (swapped_all g h e) =
    swapped_all g (λ j. subst (λ w. Fits 0 w (g j)) (t j) (h j)) (λ j. e j ∙ b j)

-- The swaps of `is`, after those of `done`
swap_all-Swaps :
    (is done : List ℕ) (f : ℕ → AsyncLogger)
    → ((j : ℕ) → times j is + times j done ≤ 1)
    → ((j : ℕ) → Fits (times j is) (times j done) (f j))
    → Swaps (λ j. times j is + times j done) (λ j. stream (f j)) (swap_all is f)
unfolding swap_all
swap_all-Swaps [] done f once k =
    swapped_all f (λ j. subst (λ w. Fits 0 w (f j)) (omega arith) (k j)) (λ j. refl)
swap_all-Swaps (i ∷ is) done f once k =
    let first : times i (i ∷ is) ≡ 1 = ground (arith, self i, once i) in
    let gone : times i is ≡ 0 = ground (arith, self i, once i) in
    let fresh : times i done ≡ 0 = ground (arith, self i, once i) in
    elim (swap-Steps (f i) (
        subst (λ r. Fits r 0 (f i)) first
          (subst (λ w. Fits (times i (i ∷ is)) w (f i)) fresh (k i))))
      as (λ o x.
        Swaps (λ j. times j (i ∷ is) + times j done) (λ j. stream (f j))
          (o >>= λ s. swap_all is (update i s f))) [
            | steps s v e ↦
                Swaps-same _ _ _ _ (swap_all is (update i s f)) (λ j. omega arith)
                  (λ j. update-stream i j s f e)
                  (swap_all-Swaps is (i ∷ done) (update i s f) (λ j. omega (arith, once j))
                    (λ j.
                      same_or_other i j
                        (λ n b.
                          Fits (times n is) ((if b then 1 else 0) + times n done)
                            (if b then s else f n))
                        (rw (gone, fresh) v) (λ other. rest j other)))
          ]
  where
    rest : (j : ℕ) → (i == j) ≡ false → Fits (times j is) (0 + times j done) (f j)
    rest j other =
        subst (λ w. Fits (times j is) w (f j)) (omega arith)
          (subst (λ r. Fits r (times j done) (f j)) (times-other i j is other) (k j))

at_most_one : (b : Bool) (n : ℕ) → n ≡ flag b → n + 0 ≤ 1
at_most_one true n h = omega arith
at_most_one false n h = omega arith

pub swap-Moves :
    (a : AsyncLogging)
    → ((j : ℕ) → Fits (times j a.registered) 0 (a.loggers j))
    → MovesTo [] a.registered (λ j. stream (a.loggers j)) (swap_to_write a)
unfolding swap_to_write
swap-Moves a k =
    elim (swap_all-Swaps a.registered [] a.loggers
        (λ j. at_most_one (a.loggers j).not_empty _ (k j).flagged) k)
      as (λ o x.
        MovesTo [] a.registered (λ j. stream (a.loggers j))
          (o >>= λ f. some (record { loggers = f; registered = []; to_write = a.registered }))) [
            | swapped_all g h e ↦
                moved_to g (λ j. subst (λ w. Fits 0 w (g j)) (omega arith) (h j)) e
          ]
