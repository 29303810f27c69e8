-- ===== src/Log/AsyncLogger/Tests.antt =====
-- The theorem on the files of an asynchronous log, with buffers of eight bytes and files that roll at four.
use libiak.Prelude.{ℕ, ◌+◌, ◌++◌, refl, min, length, arith, Option, none, some, List, [], ◌∷◌}
use libiak.Log.AsyncLogger.{new_logger}
use libiak.Log.AsyncLogger.Order.{lines, new_logger-IsSound}
use libiak.Log.AsyncLogger.Rolls.{run_on_files}
use libiak.Log.AsyncLogger.Filed.{Filed, unwritten, run_on_files-Filed}
use libiak.Log.Rolling.{Logger}
use libiak.Log.Rolling.Writes.{Succeeds}
use libiak.Log.Rolling.Files
use libiak.Log.Rolling.Files.{all_bytes}

-- Two lines of three bytes that are written, and one that is not yet
abbrev acts : List (Option (List ℕ))
acts = some (1 ∷ 1 ∷ 1 ∷ []) ∷ some (2 ∷ 2 ∷ 2 ∷ []) ∷ none ∷ some (3 ∷ 3 ∷ 3 ∷ []) ∷ none ∷ []

-- fwrite() that takes at most two bytes
abbrev by_two : ℕ → List ℕ → ℕ
by_two n line = min 2 (length line)

by_two-Succeeds : Succeeds by_two
by_two-Succeeds n line h = (omega arith, omega arith)

abbrev started : Logger
started = record {
  count = 0;
  start_of_period = 0;
  last_roll = 10;
  last_flush = 10;
  file = record { opened = 10; appended = 7 ∷ []; written_bytes = 1; flushed = 0 };
  older = [];
}

started-IsSound : Files.IsSound started
started-IsSound = record { opened = refl; ordered = tt; counted = refl }

-- Each turn of the writing thread is in a later second.
abbrev clocks : ℕ → ℕ → ℕ × ℕ
clocks n k = (n + 11, n + 11)

run_on_files-Filed_example :
    Filed
      ((7 ∷ [] ++ unwritten new_logger) ++ lines 8 acts)
      (run_on_files 4 by_two clocks 8 0 acts (new_logger, started))
run_on_files-Filed_example =
    run_on_files-Filed 4 by_two by_two-Succeeds clocks 8 0 acts new_logger started
      new_logger-IsSound started-IsSound
