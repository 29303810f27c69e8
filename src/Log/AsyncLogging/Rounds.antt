-- ===== src/Log/AsyncLogging/Rounds.antt =====
-- The writing thread gets through: nothing that was logged stays behind.
use libiak.Prelude.{
  ℕ, zero, suc, ◌+◌, ◌≡◌, refl, sym, ap, ◌∙◌, List, [], ◌∷◌, ◌++◌, Option, none, some, length,
  replicate, arith, append-nil, ◌>>=◌,
}
use libiak.Log.AsyncLogger.{AsyncLogger, idle}
use libiak.Log.AsyncLogger.Order.{stream}
use libiak.Log.AsyncLogging.{AsyncLogging, thread_turn, act, run}
use libiak.Log.AsyncLogging.Registered.{Fits, busy-idle, phase-InPhase}
use libiak.Log.AsyncLogging.Moves.{IsKept, MovesTo, moved_to, MovesTo-same, write-Moves}
use libiak.Log.AsyncLogging.Swaps.{swap-Moves}

-- As many turns of the writing thread
abbrev pub turns : ℕ → List (Option (ℕ × List ℕ))
turns n = replicate n none

run-append :
    (size : ℕ) (xs ys : List (Option (ℕ × List ℕ))) (a : AsyncLogging)
    → run size (xs ++ ys) a ≡ (run size xs a >>= run size ys)
unfolding run
run-append size [] ys a = refl
run-append size (x ∷ xs) ys a =
    elim (act size x a)
      as (λ o. (o >>= run size (xs ++ ys)) ≡ ((o >>= run size xs) >>= run size ys)) [
        | none ↦ refl
        | some b ↦ run-append size xs ys b
      ]

turns-add : (m n : ℕ) → turns (m + n) ≡ turns m ++ turns n
turns-add zero n = let same : 0 + n ≡ n = omega arith in rw same
turns-add (suc m) n =
    let shift : suc m + n ≡ suc (m + n) = omega arith in rw shift (ap (◌∷◌ none) (turns-add m n))

-- The loop of the writing thread over the loggers it has taken
drain :
    (size : ℕ) (is registered : List ℕ) (f : ℕ → AsyncLogger)
    → IsKept (record { loggers = f; registered = registered; to_write = is })
    → MovesTo registered []
        (λ j. stream (f j))
        (run size
          (turns (length is))
          (record { loggers = f; registered = registered; to_write = is }))
unfolding run act thread_turn
drain size [] registered f k = moved_to f k (λ j. refl)
drain size (i ∷ is) registered f k =
    elim (write-Moves i is (record { loggers = f; registered = registered; to_write = i ∷ is }) k)
      as (λ o x. MovesTo registered [] (λ j. stream (f j)) (o >>= run size (turns (length is)))) [
        | moved_to g h e ↦ MovesTo-same registered [] _ _ _ e (drain size is registered g h)
      ]

-- Nothing is registered, to be written or on its way, and each file has all the bytes.
pub data Settles (bytes : ℕ → List ℕ) : Option AsyncLogging → Type 0 where
  settled :
      (f : ℕ → AsyncLogger)
      → ((j : ℕ) → (f j).written ≡ bytes j)
      → ((j : ℕ) → stream (f j) ≡ bytes j)
      → Settles bytes (some (record { loggers = f; registered = []; to_write = [] }))

written_all : (s : AsyncLogger) → Fits 0 0 s → s.written ≡ stream s
written_all s v =
    let taken = phase-InPhase s idle v.sound (busy-idle s.phase v.taken) in
    rw (taken.2, v.rest refl) (sym (append-nil s.written))

settle : (bytes : ℕ → List ℕ) (o : Option AsyncLogging) → MovesTo [] [] bytes o → Settles bytes o
settle bytes o (moved_to f k e) = settled f (λ j. written_all (f j) (k j) ∙ e j) e

-- The swap, and the loop over what it takes
swap_round :
    (size : ℕ) (registered : List ℕ) (f : ℕ → AsyncLogger)
    → IsKept (record { loggers = f; registered = registered; to_write = [] })
    → MovesTo [] []
        (λ j. stream (f j))
        (run size
          (turns (suc (length registered)))
          (record { loggers = f; registered = registered; to_write = [] }))
unfolding run act thread_turn
swap_round size registered f k =
    elim (swap-Moves (record { loggers = f; registered = registered; to_write = [] }) k)
      as (λ o x. MovesTo [] [] (λ j. stream (f j)) (o >>= run size (turns (length registered)))) [
        | moved_to g h e ↦ MovesTo-same [] [] _ _ _ e (drain size registered [] g h)
      ]

-- From a state in which each logger is registered and to be written as its flags say, as many turns of
-- the writing thread as loggers are to be written, one more, and as many as are registered, without
-- a line logged in between, leave in each logger's file all the bytes it had on its way, and nothing
-- registered or to be written.
pub run_turns-Settles :
    (size : ℕ) (a : AsyncLogging)
    → IsKept a
    → Settles
        (λ j. stream (a.loggers j))
        (run size (turns (length a.to_write + suc (length a.registered))) a)
run_turns-Settles size a k =
    rw
      (
        turns-add (length a.to_write) (suc (length a.registered)),
        run-append size (turns (length a.to_write)) (turns (suc (length a.registered))) a,
      )
      (settle (λ j. stream (a.loggers j)) _
        (elim (drain size a.to_write a.registered a.loggers k)
          as (λ o x.
            MovesTo [] [] (λ j. stream (a.loggers j))
              (o >>= run size (turns (suc (length a.registered))))) [
                | moved_to g h e ↦ MovesTo-same [] [] _ _ _ e (swap_round size a.registered g h)
              ]))
