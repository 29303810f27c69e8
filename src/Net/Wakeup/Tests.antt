-- ===== src/Net/Wakeup/Tests.antt =====
-- The theorems on the wakeup of net/EventLoop.cpp at a loop to which two functors are posted.
use mathlib.Core.Bool.{false≢true}
use libiak.Prelude.{
  ℕ, ◌≡◌, ◌>>=◌, some, inl, refl, arith, ◌++◌, true, false, List, [], ◌∷◌, replicate,
}
use libiak.Net.Wakeup.{
  Running, polling, wakeup_channel, begin_loop, push, set_quit, wakeup, turn, poll_wakeup, Act,
  posts, quits, signals, turns, returns, act, run,
}
use libiak.Net.Wakeup.Awake.{IsAwake, Stays, functors, posted, run-Stays, begin_loop-IsAwake}
use libiak.Net.Wakeup.Runs.{Runs, run-turns-Runs}

-- A functor is posted while the loop handles events, and another while it runs the first; the second wakes it
-- again, and while it waits to run, the loop is told to quit.
abbrev acts : List (Act ℕ)
acts =
    returns
    ∷ posts 1
    ∷ turns
    ∷ turns
    ∷ signals
    ∷ posts 2
    ∷ turns
    ∷ signals
    ∷ turns
    ∷ turns
    ∷ turns
    ∷ turns
    ∷ quits
    ∷ signals
    ∷ turns
    ∷ turns
    ∷ []

acts_ran : (run acts (begin_loop 3) >>= λ l. some l.ran) ≡ some (1 ∷ 2 ∷ [])
unfolding run act begin_loop push set_quit wakeup turn poll_wakeup
acts_ran = refl

run-Stays_example :
    Stays 3 (functors 3 (begin_loop {F = ℕ} 3) ++ posted 3 acts) (run acts (begin_loop 3))
run-Stays_example = run-Stays 3 acts (begin_loop 3) (begin_loop-IsAwake 3)

abbrev woken : Running ℕ
woken = record {
  stage = polling;
  quit = true;
  posting = 0;
  signalled = true;
  channel = wakeup_channel 3;
  active = false;
  pending = 1 ∷ 2 ∷ [];
  taken = [];
  ran = [];
}

woken-IsAwake : IsAwake 3 woken
woken-IsAwake = record {
  pending_seen = λ e q. absurd (false≢true q);
  quit_seen = λ e q. absurd (false≢true q);
  taken_seen = λ e. refl;
  ready = (refl, refl);
}

run-turns-Runs_example : Runs true (1 ∷ 2 ∷ []) (run (replicate 6 turns) woken)
run-turns-Runs_example = run-turns-Runs 3 woken woken-IsAwake refl refl (inl (omega arith))
