-- ===== src/Log/AsyncLogging/Tests.antt =====
-- The theorems on log/AsyncLogging.cpp at two loggers, with buffers of eight bytes.
use libiak.Prelude.{
  ℕ, ◌+◌, ◌++◌, refl, true, if◌then◌else◌, arith, length, Option, none, some, List, [], ◌∷◌, suc,
}
use libiak.Log.AsyncLogger.{AsyncLogger, idle}
use libiak.Log.AsyncLogger.Order.{stream}
use libiak.Log.AsyncLogging.{AsyncLogging, new_logging, update, run}
use libiak.Log.AsyncLogging.Moves.{Moves, IsKept, same_or_other}
use libiak.Log.AsyncLogging.Registered.{Fits}
use libiak.Log.AsyncLogging.Kept.{lines_of, run-Moves, new_logging-IsKept}
use libiak.Log.AsyncLogging.Rounds.{turns, Settles, run_turns-Settles}

-- Lines of the loggers 0 and 1, one of them after the swap.
abbrev acts : List (Option (ℕ × List ℕ))
acts =
    some (0, 1 ∷ 1 ∷ 1 ∷ [])
    ∷ some (1, 2 ∷ 2 ∷ [])
    ∷ some (0, 3 ∷ [])
    ∷ none
    ∷ some (0, 4 ∷ 4 ∷ [])
    ∷ none
    ∷ none
    ∷ []

run-Moves_example :
    Moves (λ j. stream (new_logging.loggers j) ++ lines_of 8 acts j) (run 8 acts new_logging)
run-Moves_example = run-Moves 8 acts new_logging new_logging-IsKept

-- Logger 0 has a line and is registered.
abbrev one_line : AsyncLogger
one_line = record {
  not_empty = true;
  current = some (1 ∷ 1 ∷ []);
  next = some [];
  buffers = [];
  to_write = [];
  buffer1 = some [];
  buffer2 = some [];
  written = [];
  phase = idle;
}

abbrev pending : AsyncLogging
pending = record {
  loggers = update 0 one_line new_logging.loggers;
  registered = 0 ∷ [];
  to_write = [];
}

one_line-Fits : Fits 1 0 one_line
one_line-Fits = record {
  sound = record {
    has_current = refl;
    next_clear = refl;
    buffer1_clear = refl;
    buffer2_clear = refl;
    next_used = omega arith;
    in_phase = (refl, refl, refl);
  };
  flagged = refl;
  taken = refl;
  rest = λ z. absurd (omega arith);
}

pending-IsKept : IsKept pending
unfolding new_logging
pending-IsKept j =
    same_or_other 0 j
      (λ n b. Fits ((if b then 1 else 0) + 0) 0 (if b then one_line else new_logging.loggers n))
      one_line-Fits (λ other. new_logging-IsKept j)

run_turns-Settles_example :
    Settles
      (λ j. stream (pending.loggers j))
      (run 8 (turns (length pending.to_write + suc (length pending.registered))) pending)
run_turns-Settles_example = run_turns-Settles 8 pending pending-IsKept
