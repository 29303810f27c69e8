-- ===== src/Log/Tests.antt =====
-- The theorems on log/ at concrete lines, with buffers of eight bytes and files that roll at four.
use libiak.Prelude.{ℕ, ◌≡◌, ◌++◌, refl, min, length, arith, Option, none, some, List, [], ◌∷◌}
use libiak.Log.AsyncLogger.{new_logger, run}
use libiak.Log.AsyncLogger.Order.{Arrives, stream, lines, run-Arrives, new_logger-IsSound}
use libiak.Log.Rolling.{Logger, append_unlocked}
use libiak.Log.Rolling.Writes.{Succeeds}
use libiak.Log.Rolling.Files
use libiak.Log.Rolling.Files.{all_bytes, append_unlocked_lem, append_unlocked-within}

-- Three lines of three bytes, the last after the buffers were swapped; then a line that is too long.
abbrev acts : List (Option (List ℕ))
acts =
    some (1 ∷ 1 ∷ 1 ∷ [])
    ∷ some (2 ∷ 2 ∷ 2 ∷ [])
    ∷ none
    ∷ some (3 ∷ 3 ∷ 3 ∷ [])
    ∷ none
    ∷ some (4 ∷ 4 ∷ 4 ∷ 4 ∷ 4 ∷ 4 ∷ 4 ∷ 4 ∷ [])
    ∷ none
    ∷ []

run-Arrives_example : Arrives (stream new_logger ++ lines 8 acts) (run 8 acts new_logger)
run-Arrives_example = run-Arrives 8 acts new_logger new_logger-IsSound

-- fwrite() that takes at most two bytes.
abbrev by_two : ℕ → List ℕ → ℕ
by_two n line = min 2 (length line)

by_two-Succeeds : Succeeds by_two
by_two-Succeeds n line h = (omega arith, omega arith)

abbrev started : Logger
started = record {
  count = 0;
  start_of_period = 0;
  last_roll = 10;
  last_flush = 10;
  file = record { opened = 10; appended = 7 ∷ 7 ∷ []; written_bytes = 2; flushed = 0 };
  older = [];
}

started-IsSound : Files.IsSound started
started-IsSound = record { opened = refl; ordered = tt; counted = refl }

append_unlocked_lem_example :
    (all_bytes (append_unlocked by_two 4 3 11 12 (1 ∷ 2 ∷ 3 ∷ []) started) ≡ 7 ∷ 7 ∷ 1 ∷ 2 ∷ 3 ∷ [])
    × Files.IsSound (append_unlocked by_two 4 3 11 12 (1 ∷ 2 ∷ 3 ∷ []) started)
append_unlocked_lem_example =
    append_unlocked_lem by_two 4 3 by_two-Succeeds 11 12 (1 ∷ 2 ∷ 3 ∷ []) started started-IsSound
