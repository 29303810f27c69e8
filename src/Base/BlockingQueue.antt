-- ===== src/Base/BlockingQueue.antt =====
-- base/BlockingQueue.h: a queue between threads. What a thread does between taking the mutex and giving
-- it up, by returning or in cv_.wait, is one step. `waiting` counts the threads in cv_.wait, `awake` those
-- that were woken and have not got the mutex back; `taken` is what take() returned, in order.
pub mod Served
mod Tests
use libiak.Prelude.{
  ℕ, zero, suc, ◌+◌, ◌-◌, Bool, true, false, List, [], ◌∷◌, ◌++◌, Option, none, some, length,
  if◌then◌else◌, ◌>>=◌,
}

-- class BlockingQueue, and its threads
pub record BlockingQueue {ℓ} (A : Type ℓ) : Type ℓ where
  pub queue : List A
  pub waiting : ℕ
  pub awake : ℕ
  pub taken : List A

module _ {ℓ} {A : Type ℓ} where
  -- BlockingQueue::BlockingQueue
  unfoldable pub new_queue : BlockingQueue A
  new_queue = record { queue = []; waiting = 0; awake = 0; taken = [] }

  -- A thread leaves cv_.wait, if there is one.
  abbrev pub wake_one : ℕ → BlockingQueue A → BlockingQueue A
  wake_one zero q = q
  wake_one (suc n) q = record q { waiting = n; awake = q.awake + 1 }

  -- cv_.notify_one
  abbrev pub notify_one : BlockingQueue A → BlockingQueue A
  notify_one q = wake_one q.waiting q

  -- BlockingQueue::put
  unfoldable pub put : A → BlockingQueue A → BlockingQueue A
  put x q = notify_one (record q { queue = q.queue ++ x ∷ [] })

  -- What a thread in take() does once it has the mutex: the test of the loop, and then cv_.wait or the
  -- rest of the function.
  abbrev pub test_and_take : List A → BlockingQueue A → BlockingQueue A
  test_and_take [] q = record q { waiting = q.waiting + 1 }
  test_and_take (x ∷ xs) q = record q { queue = xs; taken = q.taken ++ x ∷ [] }

  -- BlockingQueue::take, as it is called
  unfoldable pub take : BlockingQueue A → BlockingQueue A
  take q = test_and_take q.queue q

  -- The test again, in a thread that was woken
  abbrev pub resume_one : ℕ → BlockingQueue A → Option (BlockingQueue A)
  resume_one zero q = none
  resume_one (suc n) q = some (test_and_take q.queue (record q { awake = n }))

  -- BlockingQueue::take, behind cv_.wait
  unfoldable pub resume : BlockingQueue A → Option (BlockingQueue A)
  resume q = resume_one q.awake q

  -- BlockingQueue::size
  abbrev pub size : BlockingQueue A → ℕ
  size q = length q.queue

-- What happens next: a thread calls put or take, a woken thread gets the mutex, or a thread wakes though
-- nobody notified it.
pub data Act {ℓ} (A : Type ℓ) : Type ℓ where
  puts : A → Act A
  takes resumes wakes : Act A

module _ {ℓ} {A : Type ℓ} where
  unfoldable pub act : Act A → BlockingQueue A → Option (BlockingQueue A)
  act (puts x) q = some (put x q)
  act takes q = some (take q)
  act resumes q = resume q
  act wakes q = some (notify_one q)

  -- Steps of any threads, in any order; `none` where a thread resumes that does not wait for the mutex.
  unfoldable pub run : List (Act A) → BlockingQueue A → Option (BlockingQueue A)
  run [] q = some q
  run (a ∷ acts) q = do q' ← act a q; run acts q'
