-- ===== src/Log/Rolling.antt =====
-- log/LogFile.h, and Logger::append_unlocked and Logger::rollFile of log/Logger.cpp: a log that goes
-- on with a new LogFile. fwrite() is a parameter: how many of the bytes it takes at its n-th call. The
-- clock's readings are arguments. The name that the constructor gets is left out: it is made of the second
-- `opened` and localtime_r, and the file of that name is opened to append, so that it may have bytes of an
-- earlier LogFile already.
pub mod Writes
pub mod Files
use libiak.Prelude.{
  ℕ, zero, suc, ◌+◌, ◌-◌, ◌*◌, ◌/◌, Bool, true, false, not, ◌&&◌, List, [], ◌∷◌, ◌++◌, length, take,
  drop, ltb, ◌==◌, if◌then◌else◌,
}

-- class LogFile, less the buffer of its FILE: the second it was opened in, the bytes that were appended
-- to the file through it, and, as `flushed`, how many of these were there at the last fflush().
pub record LogFile : Type 0 where
  pub opened : ℕ
  pub appended : List ℕ
  pub written_bytes : ℕ
  pub flushed : ℕ

-- LogFile::LogFile: nothing is appended yet, whatever the file has.
unfoldable pub open_file : ℕ → LogFile
open_file now = record { opened = now; appended = []; written_bytes = 0; flushed = 0 }

-- LogFile::flush
unfoldable pub flush : LogFile → LogFile
flush f = record f { flushed = length f.appended }

-- class Logger, less its options and its mutex; `older` are the files it has left, the newest first.
pub record Logger : Type 0 where
  pub count : ℕ
  pub start_of_period : ℕ
  pub last_roll : ℕ
  pub last_flush : ℕ
  pub file : LogFile
  pub older : List LogFile

abbrev pub check_time_roll : ℕ
check_time_roll = 1024

abbrev pub roll_per_seconds : ℕ
roll_per_seconds = 60 * 60 * 24

-- The start of the day `now` is in.
abbrev pub period : ℕ → ℕ
period now = now / roll_per_seconds * roll_per_seconds

-- Logger::rollFile
unfoldable pub roll_file : ℕ → Logger → Logger
unfolding open_file
roll_file now l =
    if ltb l.last_roll now
    then record l {
      last_roll = now;
      last_flush = now;
      start_of_period = period now;
      file = open_file now;
      older = l.file ∷ l.older;
    }
    else l

module _ (fwrite : ℕ → List ℕ → ℕ) where
  -- The `while` of LogFile::append, from its n-th call of fwrite() on, with the bytes that remain: the
  -- bytes that go to the file. It ends by then (the fuel is the number of bytes), since each call but
  -- the last takes a byte.
  unfoldable pub write_rest : ℕ → ℕ → List ℕ → List ℕ
  write_rest zero n line = []
  write_rest (suc fuel) n [] = []
  write_rest (suc fuel) n (b ∷ line) =
      let x = fwrite n (b ∷ line) in
      let rest = write_rest fuel (suc n) (drop x (b ∷ line)) in
      if x == 0 then [] else take x (b ∷ line) ++ rest

  -- LogFile::append
  unfoldable pub append_file : List ℕ → LogFile → LogFile
  unfolding write_rest
  append_file line f =
      let n = fwrite 0 line in
      record f {
        appended = f.appended ++ (take n line ++ write_rest (length line) 1 (drop n line));
        written_bytes = f.written_bytes + length line;
      }

  module _ (roll_size flush_interval : ℕ) where
    -- Logger::append_unlocked after `logFile_->append`: `now` is its reading of the clock, `later`
    -- that of rollFile.
    unfoldable pub after_append : ℕ → ℕ → Logger → Logger
    unfolding roll_file flush
    after_append now later l =
        if ltb 0 roll_size && ltb roll_size l.file.written_bytes
        then roll_file later l
        else (if ltb check_time_roll l.count
            then (if not (period now == l.start_of_period)
                then roll_file later (record l { count = 0 })
                else (if ltb flush_interval (now - l.last_flush)
                    then record l { count = 0; last_flush = now; file = flush l.file }
                    else record l { count = 0 }))
            else record l { count = suc l.count })

    -- Logger::append_unlocked
    unfoldable pub append_unlocked : ℕ → ℕ → List ℕ → Logger → Logger
    unfolding append_file
    append_unlocked now later line l =
        after_append now later (record l { file = append_file line l.file })
