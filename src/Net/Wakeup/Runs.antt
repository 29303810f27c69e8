-- ===== src/Net/Wakeup/Runs.antt =====
-- What was posted is run, and quit() is obeyed, in as many steps of the loop as there are functors and four
-- more.
use mathlib.Core.Path.{subst}
use mathlib.Core.Bool.{false≢true}
use libiak.Prelude.{
  ℕ, suc, ◌<◌, ◌≡◌, ◌⊎◌, inl, inr, refl, sym, ap, ◌∙◌, Bool, true, false, List, [], ◌∷◌, ◌++◌,
  Option, some, length, replicate, append-nil, append_assoc, if◌then◌else◌, arith,
}
use libiak.Net.Wakeup.{polling, running, stopped, Running, poll_wakeup, turn, turns, act, run}
use libiak.Net.Wakeup.Watch.{is_quiet, comes_to_functors, comes_to_quit, is_running}
use libiak.Net.Wakeup.Awake.{IsAwake, functors}

module _ {ℓ} {F : Type ℓ} where
  -- All functors ran, and the loop is back in epoll_wait, or done if it was told to quit.
  pub data Runs (quit : Bool) (fs : List F) : Option (Running F) → Type ℓ where
    all_ran :
        (l : Running F)
        → l.stage ≡ (if quit then stopped else polling)
        → l.ran ≡ fs
        → l.taken ≡ []
        → l.pending ≡ []
        → Runs quit fs (some l)

  run_taken-Runs :
      (fs : List F) (l : Running F)
      → l.pending ≡ []
      → Runs l.quit
          (l.ran ++ fs)
          (run (replicate (suc (length fs)) turns) (record l { stage = running; taken = fs }))
  unfolding run act turn
  run_taken-Runs [] l e = all_ran _ refl (sym (append-nil l.ran)) refl e
  run_taken-Runs (f ∷ fs) l e =
      subst
        (λ xs. Runs l.quit xs (
          run (replicate (suc (length fs)) turns)
            (record l { stage = running; taken = fs; ran = l.ran ++ f ∷ [] })))
        (append_assoc l.ran (f ∷ []) fs) (run_taken-Runs fs (record l { ran = l.ran ++ f ∷ [] }) e)

  signalled_lem :
      (b q : Bool) (fs : List F)
      → (is_quiet 0 b ≡ true → fs ≡ [])
      → (is_quiet 0 b ≡ true → q ≡ false)
      → (0 < length fs) ⊎ (q ≡ true)
      → b ≡ true
  signalled_lem true q fs h k w = refl
  signalled_lem false q fs h k (inl w) = absurd (omega (arith, ap length (h refl)))
  signalled_lem false q fs h k (inr w) = absurd (false≢true (sym (k refl) ∙ w))

  from_polling :
      (l : Running F)
      → l.signalled ≡ true
      → Runs l.quit (l.ran ++ l.pending) (
          run
            (replicate (suc (suc (suc (suc (length l.pending))))) turns)
            (record l { stage = polling }))
  unfolding run act turn poll_wakeup
  from_polling l e = rw e (
      run_taken-Runs l.pending
        (record l { pending = []; signalled = false; active = false; channel = _ }) refl)

  -- When a loop is in epoll_wait, and the threads that posted functors to it or told it to quit have come
  -- through, it wakes, runs all functors in the order of their posts, and is back in epoll_wait, or done if it
  -- was told to quit, in a step for each functor and four more.
  pub run-turns-Runs :
      (fd : ℕ) (l : Running F)
      → IsAwake fd l
      → l.stage ≡ polling
      → l.posting ≡ 0
      → (0 < length l.pending) ⊎ (l.quit ≡ true)
      → Runs l.quit
          (functors fd l)
          (run (replicate (suc (suc (suc (suc (length l.pending))))) turns) l)
  run-turns-Runs fd l v at none_posting work =
      let woken =
        signalled_lem l.signalled l.quit l.pending
          (λ q.
            v.pending_seen (ap comes_to_functors at)
              (ap (λ n. is_quiet n l.signalled) none_posting ∙ q))
          (λ q.
            v.quit_seen (ap comes_to_quit at) (ap (λ n. is_quiet n l.signalled) none_posting ∙ q))
          work in
      let nothing_taken = v.taken_seen (ap is_running at) in
      subst
        (λ st. Runs l.quit (functors fd l) (
          run (replicate (suc (suc (suc (suc (length l.pending))))) turns)
            (record l { stage = st })))
        (sym at)
        (subst
          (λ xs. Runs l.quit (l.ran ++ (xs ++ l.pending)) (
            run (replicate (suc (suc (suc (suc (length l.pending))))) turns)
              (record l { stage = polling })))
          (sym nothing_taken) (from_polling l woken))
