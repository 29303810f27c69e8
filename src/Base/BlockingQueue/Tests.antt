-- ===== src/Base/BlockingQueue/Tests.antt =====
-- The theorems on base/BlockingQueue.h at a queue with a sleeping thread.
use libiak.Prelude.{ℕ, ◌≡◌, refl, arith, ◌++◌, List, [], ◌∷◌, some}
use libiak.Base.BlockingQueue.{
  BlockingQueue, new_queue, put, take, resume, Act, puts, takes, resumes, wakes, act, run,
}
use libiak.Base.BlockingQueue.Served.{IsServed, Serves, items, put_by_all, run-Serves}

-- Two threads sleep; one is woken for the first item, and a third thread takes that item before it.
abbrev acts : List (Act ℕ)
acts = takes ∷ takes ∷ puts 4 ∷ takes ∷ resumes ∷ puts 5 ∷ wakes ∷ puts 6 ∷ []

new_queue-IsServed : IsServed (new_queue {A = ℕ})
unfolding new_queue
new_queue-IsServed = λ p. omega arith

ran : BlockingQueue ℕ
ran = record { queue = 5 ∷ 6 ∷ []; waiting = 0; awake = 2; taken = 4 ∷ [] }

queue_ran : run acts new_queue ≡ some ran
unfolding run act new_queue put take resume ran
queue_ran = refl

run-Serves_example : Serves (items (new_queue {A = ℕ}) ++ put_by_all acts) (run acts new_queue)
run-Serves_example = run-Serves acts new_queue new_queue-IsServed

abbrev woken : BlockingQueue ℕ
woken = record { queue = 5 ∷ 6 ∷ []; waiting = 1; awake = 3; taken = 4 ∷ [] }
