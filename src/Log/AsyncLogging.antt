-- ===== src/Log/AsyncLogging.antt =====
-- log/AsyncLogging.cpp: the loggers that have lines for the writing thread. The loggers are named by
-- numbers, and `loggers` is the store of their states. An append runs under the mutex, as one step; so
-- do the swaps; the files are written in between, a logger at a time. The condition variable may wake
-- the thread when nothing is registered; the swap then moves nothing.
pub mod Registered
pub mod Moves
pub mod Swaps
pub mod Kept
pub mod Rounds
pub mod Stopping
mod Tests
use libiak.Prelude.{
  ℕ, zero, suc, ◌+◌, ◌≡◌, Bool, true, false, List, [], ◌∷◌, ◌++◌, Option, none, some, ◌==◌,
  if◌then◌else◌, ◌>>=◌,
}
use libiak.Log.AsyncLogger.{AsyncLogger, new_logger, append_to_buffer, swap_buffers, write_buffers}

pub record AsyncLogging : Type 0 where
  pub loggers : ℕ → AsyncLogger
  -- asyncLoggers_
  pub registered : List ℕ
  -- What threadFunc has still to write of its asyncLoggersToWrite
  pub to_write : List ℕ

-- AsyncLogging::AsyncLogging, with the loggers that AsyncLogger::make will make
unfoldable pub new_logging : AsyncLogging
new_logging = record { loggers = λ i. new_logger; registered = []; to_write = [] }

abbrev pub update : ℕ → AsyncLogger → (ℕ → AsyncLogger) → ℕ → AsyncLogger
update i s f j = if i == j then s else f j

-- The loop of AsyncLogging::swapAsyncLoggersToWrite
unfoldable pub swap_all : List ℕ → (ℕ → AsyncLogger) → Option (ℕ → AsyncLogger)
swap_all [] f = some f
swap_all (i ∷ is) f = do s ← swap_buffers (f i); swap_all is (update i s f)

-- AsyncLogging::swapAsyncLoggersToWrite, after the wait
unfoldable pub swap_to_write : AsyncLogging → Option AsyncLogging
unfolding swap_all
swap_to_write a = do
  f ← swap_all a.registered a.loggers
  some (record { loggers = f; registered = []; to_write = a.registered })

-- A turn of AsyncLogging::threadFunc: a swap, or the next appendBuffers_unlocked of its loop
unfoldable pub thread_turn : AsyncLogging → Option AsyncLogging
unfolding swap_to_write
thread_turn a = elim a.to_write [
  | [] ↦ swap_to_write a
  | i ∷ is ↦ do
    s ← write_buffers (a.loggers i)
    some (record a { loggers = update i s a.loggers; to_write = is })
]

module _ (size : ℕ) where
  -- AsyncLogging::append
  unfoldable pub append : ℕ → List ℕ → AsyncLogging → Option AsyncLogging
  append i line a = do
    s ← append_to_buffer size line (a.loggers i)
    some (record a {
      loggers = update i s a.loggers;
      registered = if (a.loggers i).not_empty then a.registered else a.registered ++ i ∷ [];
    })

  -- What happens next: a thread logs a line with some logger, or the writing thread has its turn.
  unfoldable pub act : Option (ℕ × List ℕ) → AsyncLogging → Option AsyncLogging
  unfolding append thread_turn
  act none a = thread_turn a
  act (some (i, line)) a = append i line a

  unfoldable pub run : List (Option (ℕ × List ℕ)) → AsyncLogging → Option AsyncLogging
  unfolding act
  run [] a = some a
  run (x ∷ xs) a = do a' ← act x a; run xs a'
