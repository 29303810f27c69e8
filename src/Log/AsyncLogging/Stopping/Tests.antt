-- ===== src/Log/AsyncLogging/Stopping/Tests.antt =====
-- The theorem on stop() of log/AsyncLogging.h at a thread that it comes too early for.
use libiak.Prelude.{◌≡◌, refl, true, false, [], ◌∷◌, ◌++◌}
use libiak.Log.AsyncLogging.Stopping.{
  locking, waiting, not_called, joining, Stopping, started, register, thread_goes_on, registers,
  act, run,
}
use libiak.Log.AsyncLogging.Stopping.Hangs.{only_these, too_early, IsHung, run-IsHung}

-- One logger was written, and the thread has tested running_ again.
abbrev about_to_wait : Stopping
about_to_wait = record {
  running = true;
  place = locking;
  stop = not_called;
  registered = 0;
  taken = 0;
  written = 1;
}

about_to_wait_lem :
    run (registers ∷ thread_goes_on ∷ thread_goes_on ∷ thread_goes_on ∷ thread_goes_on ∷ []) started
    ≡ about_to_wait
unfolding run act started register
about_to_wait_lem = refl

-- The thread sleeps, and stop() is in join().
asleep_for_good :
    run too_early about_to_wait
    ≡ record about_to_wait { running = false; place = waiting; stop = joining }
unfolding run act
asleep_for_good = refl

run-IsHung_example : IsHung (run (too_early ++ only_these (true ∷ false ∷ true ∷ [])) about_to_wait)
run-IsHung_example = run-IsHung (true ∷ false ∷ true ∷ []) about_to_wait refl refl refl
