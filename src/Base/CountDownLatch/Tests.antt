-- ===== src/Base/CountDownLatch/Tests.antt =====
-- The theorems on base/CountDownLatch.h at a latch that two threads wait for.
use libiak.Prelude.{List, [], ◌∷◌, pos}
use libiak.Base.CountDownLatch.{new_latch, Act, waits, downs, resumes, wakes, run}
use libiak.Base.CountDownLatch.Gate.{Gates, all_downs, all_waits, run-Gates}

-- One thread wakes too early and sleeps again.
abbrev acts : List Act
acts = waits ∷ waits ∷ downs ∷ wakes ∷ resumes ∷ downs ∷ resumes ∷ waits ∷ []

run-Gates_example : Gates 2 (all_downs acts) (all_waits acts) (run acts (new_latch (pos 2)))
run-Gates_example = run-Gates 2 acts
