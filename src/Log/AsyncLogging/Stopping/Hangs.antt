-- ===== src/Log/AsyncLogging/Stopping/Hangs.antt =====
-- What stop() does to the thread that writes.
use mathlib.Core.Path.{subst}
use libiak.Prelude.{
  ℕ, ◌+◌, ◌++◌, ◌≡◌, refl, sym, ap, ◌∙◌, Bool, true, false, List, [], ◌∷◌, none, some,
  if◌then◌else◌, if-holds,
}
use libiak.Log.AsyncLogging.Stopping.{
  Place, locking, waiting, ended, Stop, not_called, cleared, joining, joined, Stopping, step_at,
  wake, has_ended, stop_at, register, Act, thread_goes_on, stop_goes_on, registers, or_same, act,
  run,
}

-- Acts of the thread that writes and of stop()
abbrev pub only_these : List Bool → List Act
only_these [] = []
only_these (true ∷ bs) = thread_goes_on ∷ only_these bs
only_these (false ∷ bs) = stop_goes_on ∷ only_these bs

pub record IsHung (s : Stopping) : Type 0 where
  pub sleeps : s.place ≡ waiting
  pub joins : s.stop ≡ joining

asleep : (s : Stopping) → IsHung s → or_same s (step_at s.place s) ≡ s
asleep s h = ap (λ p. or_same s (step_at p s)) h.sleeps

join_waits : (s : Stopping) → IsHung s → or_same s (stop_at s.stop s) ≡ s
join_waits s h =
    ap (λ t. or_same s (stop_at t s)) h.joins
    ∙ ap (λ p. or_same s (if has_ended p then some (record s { stop = joined }) else none)) h.sleeps

only_these-IsHung : (bs : List Bool) (s : Stopping) → IsHung s → IsHung (run (only_these bs) s)
unfolding run act
only_these-IsHung [] s h = h
only_these-IsHung (true ∷ bs) s h =
    subst (λ x. IsHung (run (only_these bs) x)) (sym (asleep s h)) (only_these-IsHung bs s h)
only_these-IsHung (false ∷ bs) s h =
    subst (λ x. IsHung (run (only_these bs) x)) (sym (join_waits s h)) (only_these-IsHung bs s h)

-- Where `running_` was tested and the mutex is not taken yet, stop() is called but for the end of join(), and
-- then the thread goes on
abbrev pub too_early : List Act
too_early = stop_goes_on ∷ stop_goes_on ∷ thread_goes_on ∷ []

HungAt : Place → ℕ → Stop → List Bool → Stopping → Type 0
HungAt p n t bs s =
    IsHung (run (too_early ++ only_these bs) (record s { place = p; registered = n; stop = t }))

-- Where the thread that writes has tested running_ and has not yet taken the mutex, and no logger is
-- registered, a stop() that clears running_, notifies and goes on to join() before the thread does leaves both
-- hung: the thread goes on to sleep in cv_.wait, and however often the two go on it stays there, and stop() in
-- join(), as long as nobody logs and the condition variable does not wake the thread by itself.
pub run-IsHung :
    (bs : List Bool) (s : Stopping)
    → s.place ≡ locking
    → s.registered ≡ 0
    → s.stop ≡ not_called
    → IsHung (run (too_early ++ only_these bs) s)
unfolding run act HungAt
run-IsHung bs s at_lock nobody before =
    let hung : HungAt locking 0 not_called bs s =
      only_these-IsHung bs
        (record s { running = false; place = waiting; registered = 0; stop = joining })
        (record { sleeps = refl; joins = refl }) in
    subst (λ p. HungAt p s.registered s.stop bs s) (sym at_lock)
      (subst (λ n. HungAt locking n s.stop bs s) (sym nobody)
        (subst (λ t. HungAt locking 0 t bs s) (sym before) hung))

-- A thread that sleeps when stop() is called wakes and ends, and join() returns.
pub stop-joins :
    (s : Stopping)
    → (run
        (stop_goes_on ∷ stop_goes_on ∷ thread_goes_on ∷ thread_goes_on ∷ thread_goes_on
          ∷ stop_goes_on ∷ [])
        (record s { place = waiting; stop = not_called })).stop
      ≡ joined
unfolding run act
stop-joins s = refl

stop_at-keeps :
    (t : Stop) (s : Stopping)
    → s.place ≡ ended
    → ((or_same s (stop_at t s)).written ≡ s.written) × ((or_same s (stop_at t s)).place ≡ ended)
stop_at-keeps not_called s e = (refl, e)
stop_at-keeps cleared s e = (refl, ap wake e)
stop_at-keeps joining s e =
    if-holds (has_ended s.place)
      (λ o. ((or_same s o).written ≡ s.written) × ((or_same s o).place ≡ ended)) _ _ (refl, e)
      (refl, e)
stop_at-keeps joined s e = (refl, e)

-- What is registered when the thread has ended is never written.
pub run-written :
    (acts : List Act) (s : Stopping) → s.place ≡ ended → (run acts s).written ≡ s.written
unfolding run act register
run-written [] s e = refl
run-written (thread_goes_on ∷ acts) s e =
    let same : or_same s (step_at s.place s) ≡ s = ap (λ p. or_same s (step_at p s)) e in
    ap (λ x. (run acts x).written) same ∙ run-written acts s e
run-written (stop_goes_on ∷ acts) s e =
    let (same, at_end) = stop_at-keeps s.stop s e in
    run-written acts (or_same s (stop_at s.stop s)) at_end ∙ same
run-written (registers ∷ acts) s e =
    run-written acts (record s { place = wake s.place; registered = s.registered + 1 }) (ap wake e)
