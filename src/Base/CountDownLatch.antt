-- ===== src/Base/CountDownLatch.antt =====
-- base/CountDownLatch.h: a gate that opens when it was counted down. What a thread does between taking
-- the mutex and giving it up is one step. `waiting` counts the threads in cv_.wait, `awake` those that
-- were woken and have not got the mutex back, and `passed` those that have returned from wait().
pub mod Gate
mod Tests
use libiak.Prelude.{
  ℕ, zero, suc, ◌+◌, ◌==◌, Bool, true, false, List, [], ◌∷◌, Option, none, some, if◌then◌else◌,
  ◌>>=◌, ℤ, pos, negsuc, abs,
}

-- class CountDownLatch, and its threads
pub record CountDownLatch : Type 0 where
  pub count : ℤ
  pub waiting : ℕ
  pub awake : ℕ
  pub passed : ℕ

-- CountDownLatch::CountDownLatch
unfoldable pub new_latch : ℤ → CountDownLatch
new_latch count = record { count = count; waiting = 0; awake = 0; passed = 0 }

abbrev pub is_positive : ℤ → Bool
is_positive (pos zero) = false
is_positive (pos (suc n)) = true
is_positive (negsuc n) = false

-- --count_
abbrev pub decrement : ℤ → ℤ
decrement (pos zero) = negsuc 0
decrement (pos (suc n)) = pos n
decrement (negsuc n) = negsuc (suc n)

-- The test of the loop of wait(): the thread sleeps or returns.
abbrev pub test : CountDownLatch → CountDownLatch
test l =
    if is_positive l.count
    then record l { waiting = l.waiting + 1 }
    else record l { passed = l.passed + 1 }

-- CountDownLatch::wait, as it is called
unfoldable pub wait : CountDownLatch → CountDownLatch
wait l = test l

-- CountDownLatch::wait, behind cv_.wait
abbrev pub resume_one : ℕ → CountDownLatch → Option CountDownLatch
resume_one zero l = none
resume_one (suc n) l = some (test (record l { awake = n }))

unfoldable pub resume : CountDownLatch → Option CountDownLatch
resume l = resume_one l.awake l

-- cv_.notify_all
abbrev pub notify_all : CountDownLatch → CountDownLatch
notify_all l = record l { awake = l.awake + l.waiting; waiting = 0 }

-- CountDownLatch::countDown
unfoldable pub count_down : CountDownLatch → CountDownLatch
count_down l =
    let l' : CountDownLatch = record l { count = decrement l.count } in
    if abs l'.count == 0 then notify_all l' else l'

-- CountDownLatch::getCount
abbrev pub get_count : CountDownLatch → ℤ
get_count l = l.count

-- A thread leaves cv_.wait though nobody notified it.
abbrev pub wake_one : ℕ → CountDownLatch → Option CountDownLatch
wake_one zero l = none
wake_one (suc n) l = some (record l { waiting = n; awake = l.awake + 1 })

pub data Act : Type 0 where
  waits downs resumes wakes : Act

unfoldable pub act : Act → CountDownLatch → Option CountDownLatch
act waits l = some (wait l)
act downs l = some (count_down l)
act resumes l = resume l
act wakes l = wake_one l.waiting l

-- Steps of any threads, in any order; `none` where a step is not there to be taken.
unfoldable pub run : List Act → CountDownLatch → Option CountDownLatch
run [] l = some l
run (a ∷ acts) l = do l' ← act a l; run acts l'
