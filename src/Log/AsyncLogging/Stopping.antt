-- ===== src/Log/AsyncLogging/Stopping.antt =====
-- start(), stop(), threadFunc and the wait of swapAsyncLoggersToWrite of log/AsyncLogging.h and
-- log/AsyncLogging.cpp, between the thread that writes, a thread that stops it and threads that log. Only how
-- many loggers are registered is kept; the loggers themselves are in the parent.
pub mod Hangs
mod Tests
use libiak.Prelude.{
  ℕ, zero, suc, ◌+◌, Bool, true, false, List, [], ◌∷◌, Option, none, some, if◌then◌else◌, ◌>>=◌,
}

-- Where the writing thread is: before the test of running_; before it takes the mutex; in cv_.wait; woken, before
-- it has the mutex back; before the buffers that it took are written; at its end.
pub data Place : Type 0 where
  testing locking waiting woken writing ended : Place

-- Where the thread that calls stop() is: before it; behind `running_ = false`; in join(); behind it.
pub data Stop : Type 0 where
  not_called cleared joining joined : Stop

pub record Stopping : Type 0 where
  pub running : Bool
  pub place : Place
  pub stop : Stop
  pub registered : ℕ
  -- The loggers that threadFunc took and has not written
  pub taken : ℕ
  -- How many were written
  pub written : ℕ

-- Behind start()
unfoldable pub started : Stopping
started = record {
  running = true;
  place = testing;
  stop = not_called;
  registered = 0;
  taken = 0;
  written = 0;
}

-- swapAsyncLoggersToWrite behind its wait
abbrev pub swap_registered : Stopping → Stopping
swap_registered s = record s { place = writing; taken = s.registered; registered = 0 }

-- swapAsyncLoggersToWrite with the mutex: the test, and cv_.wait or the rest
abbrev pub test_registered : ℕ → Stopping → Stopping
test_registered zero s = record s { place = waiting }
test_registered (suc n) s = swap_registered s

-- The next step of threadFunc; `none` where it sleeps in cv_.wait or has ended
abbrev pub step_at : Place → Stopping → Option Stopping
step_at testing s = some (record s { place = if s.running then locking else ended })
step_at locking s = some (test_registered s.registered s)
step_at waiting s = none
step_at woken s = some (swap_registered s)
step_at writing s = some (record s { place = testing; taken = 0; written = s.written + s.taken })
step_at ended s = none

-- cv_.notify_one
abbrev pub wake : Place → Place
wake testing = testing
wake locking = locking
wake waiting = woken
wake woken = woken
wake writing = writing
wake ended = ended

abbrev pub notify : Stopping → Stopping
notify s = record s { place = wake s.place }

-- Whether join() returns
abbrev pub has_ended : Place → Bool
has_ended testing = false
has_ended locking = false
has_ended waiting = false
has_ended woken = false
has_ended writing = false
has_ended ended = true

-- The next step of stop(); `none` where join() sleeps or stop() is done
abbrev pub stop_at : Stop → Stopping → Option Stopping
stop_at not_called s = some (record s { running = false; stop = cleared })
stop_at cleared s = some (record (notify s) { stop = joining })
stop_at joining s = if has_ended s.place then some (record s { stop = joined }) else none
stop_at joined s = none

-- The append of a line to a logger that has none
unfoldable pub register : Stopping → Stopping
register s = notify (record s { registered = s.registered + 1 })

pub data Act : Type 0 where
  thread_goes_on stop_goes_on registers : Act

-- An act that cannot be taken leaves all as it is.
abbrev pub or_same : Stopping → Option Stopping → Stopping
or_same s none = s
or_same s (some s') = s'

unfoldable pub act : Act → Stopping → Stopping
act thread_goes_on s = or_same s (step_at s.place s)
act stop_goes_on s = or_same s (stop_at s.stop s)
act registers s = register s

unfoldable pub run : List Act → Stopping → Stopping
run [] s = s
run (a ∷ acts) s = run acts (act a s)
