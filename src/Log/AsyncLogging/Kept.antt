-- ===== src/Log/AsyncLogging/Kept.antt =====
-- Whatever the threads do, each logger is registered, and to be written, as its flags say.
use libiak.Prelude.{
  ℕ, refl, sym, ap, ◌∙◌, List, [], ◌∷◌, ◌++◌, Option, none, some, append-nil, append_assoc, ◌>>=◌,
}
use libiak.Log.AsyncLogger.{new_logger}
use libiak.Log.AsyncLogger.Order.{stream, new_logger-IsSound}
use libiak.Log.AsyncLogging.{AsyncLogging, new_logging, thread_turn, act, run}
use libiak.Log.AsyncLogging.Registered.{times, Fits}
use libiak.Log.AsyncLogging.Moves.{
  IsKept, Moves, moved, Moves-to, Moves-same, accepted_by, append-Moves, write-Moves,
}
use libiak.Log.AsyncLogging.Swaps.{swap-Moves}

turn-Moves : (a : AsyncLogging) → IsKept a → Moves (λ j. stream (a.loggers j)) (thread_turn a)
unfolding thread_turn
turn-Moves a k = go a.to_write k
  where
    go :
        (w : List ℕ)
        → ((j : ℕ) → Fits (times j a.registered) (times j w) (a.loggers j))
        → Moves (λ j. stream (a.loggers j)) (thread_turn (record a { to_write = w }))
    go [] h = Moves-to _ _ _ _ (swap-Moves (record a { to_write = [] }) h)
    go (i ∷ is) h = Moves-to _ _ _ _ (write-Moves i is a h)

act-Moves :
    (size : ℕ) (x : Option (ℕ × List ℕ)) (a : AsyncLogging)
    → IsKept a
    → Moves (λ j. stream (a.loggers j) ++ accepted_by size x j) (act size x a)
unfolding act
act-Moves size none a k =
    Moves-same _ _ _ (λ j. sym (append-nil (stream (a.loggers j)))) (turn-Moves a k)
act-Moves size (some (i, line)) a k = append-Moves size i line a k

-- The bytes of the lines that are logged with a logger, in their order
abbrev pub lines_of : ℕ → List (Option (ℕ × List ℕ)) → ℕ → List ℕ
lines_of size [] j = []
lines_of size (x ∷ xs) j = accepted_by size x j ++ lines_of size xs j

-- Any interleaving of threads that log lines with any loggers with the turns of the writing thread,
-- from a state in which each logger is registered and to be written as its flags say, runs without
-- reading a null pointer or the end of an empty vector, and ends in such a state; each logger has on
-- its way the bytes it had at the start, followed by the lines logged with it in their order, less
-- the lines that do not fit an empty buffer.
pub run-Moves :
    (size : ℕ) (xs : List (Option (ℕ × List ℕ))) (a : AsyncLogging)
    → IsKept a
    → Moves (λ j. stream (a.loggers j) ++ lines_of size xs j) (run size xs a)
unfolding run
run-Moves size [] a k = moved a k (λ j. sym (append-nil (stream (a.loggers j))))
run-Moves size (x ∷ xs) a k =
    elim (act-Moves size x a k)
      as (λ o y.
        Moves (λ j. stream (a.loggers j) ++ lines_of size (x ∷ xs) j) (o >>= run size xs)) [
          | moved b h e ↦
              Moves-same _ _ _
                (λ j.
                  ap (λ z. z ++ lines_of size xs j) (e j)
                  ∙ append_assoc (stream (a.loggers j)) (accepted_by size x j) (lines_of size xs j))
                (run-Moves size xs b h)
        ]

pub new_logging-IsKept : IsKept new_logging
unfolding new_logging new_logger
new_logging-IsKept j = record {
  sound = new_logger-IsSound;
  flagged = refl;
  taken = refl;
  rest = λ z. refl;
}
