-- ===== src/Log/AsyncLogger/Rolls.antt =====
-- AsyncLogger::append_unlocked and the writing part of AsyncLogger::appendBuffers_unlocked of
-- log/AsyncLogger.cpp, at the log's files. The members they use are those of Log/Rolling, and rollFile is
-- Logger's; fwrite() is a parameter, and the clock's two readings for each buffer are arguments.
use libiak.Prelude.{ℕ, suc, not, List, [], ◌∷◌, Option, none, some, ltb, ◌==◌, if◌then◌else◌, ◌>>=◌}
use libiak.Log.AsyncLogger.{AsyncLogger, idle, swapped, act}
use libiak.Log.Rolling.{Logger, flush, period, check_time_roll, roll_file, append_file}

module _ (roll_size : ℕ) where
  -- AsyncLogger::append_unlocked after `logFile_->append`
  unfoldable pub roll_after : ℕ → ℕ → Logger → Logger
  roll_after now later l =
      if ltb roll_size l.file.written_bytes
      then roll_file later (record l { count = 0 })
      else (if ltb check_time_roll l.count
          then (if not (period now == l.start_of_period)
              then roll_file later (record l { count = 0 })
              else record l { count = 0 })
          else record l { count = suc l.count })

  module _ (fwrite : ℕ → List ℕ → ℕ) where
    -- AsyncLogger::append_unlocked
    unfoldable pub append_buffer : ℕ × ℕ → List ℕ → Logger → Logger
    append_buffer (now, later) line l =
        roll_after now later (record l { file = append_file fwrite line l.file })

    -- The loop of AsyncLogger::appendBuffers_unlocked; `clock` has the readings from the n-th buffer on.
    unfoldable pub append_each : (ℕ → ℕ × ℕ) → ℕ → List (List ℕ) → Logger → Logger
    append_each clock n [] l = l
    append_each clock n (b ∷ bs) l = append_each clock (suc n) bs (append_buffer (clock n) b l)

    -- That loop, and `logFile_->flush()`
    unfoldable pub append_and_flush : (ℕ → ℕ × ℕ) → List (List ℕ) → Logger → Logger
    append_and_flush clock bs l =
        let l' = append_each clock 0 bs l in record l' { file = flush l'.file }

    module _ (clocks : ℕ → ℕ → ℕ × ℕ) (size : ℕ) where
      -- The buffers and the files together; the writing thread's n-th turns are at the times `clocks n`.
      unfoldable pub act_on_files :
          ℕ → Option (List ℕ) → AsyncLogger × Logger → Option (AsyncLogger × Logger)
      act_on_files n (some line) (s, l) = do s' ← act size (some line) s; some (s', l)
      act_on_files n none (s, l) = do
        s' ← act size none s
        some (s', elim s.phase [ idle ↦ l | swapped ↦ append_and_flush (clocks n) s.to_write l ])

      unfoldable pub run_on_files :
          ℕ → List (Option (List ℕ)) → AsyncLogger × Logger → Option (AsyncLogger × Logger)
      run_on_files n [] x = some x
      run_on_files n (a ∷ acts) x = do x' ← act_on_files n a x; run_on_files (suc n) acts x'
