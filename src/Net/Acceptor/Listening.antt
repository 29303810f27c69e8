-- ===== src/Net/Acceptor/Listening.antt =====
-- Acceptor::listen and Acceptor::close from any thread, with their tasks run by the loop.
use libiak.Prelude.{
  ℕ, ◌≡◌, ◌⊎◌, inl, inr, refl, sym, ◌∙◌, not, ◌||◌, Bool, true, false, List, [], ◌∷◌, ◌++◌,
  if-cases,
}
use mathlib.Core.Bool.{true≢false}
use libiak.Net.Channel.{Channel, Request, new_channel, enable_read, close_channel}
use libiak.Net.Acceptor.{
  Acceptor, Task, listen_task, close_task, new_acceptor, listen, close, listen_in_loop,
  close_in_loop,
}

-- An acceptor and the tasks it has queued in its loop.
pub record System : Type 0 where
  pub acceptor : Acceptor
  pub pending : List Task

pub data Call : Type 0 where
  listens closes : Call

abbrev pub call : Call → Acceptor → Acceptor × List Task
call listens a = listen a
call closes a = close a

abbrev pub run_task : Task → Acceptor → Acceptor
run_task listen_task a = (listen_in_loop a).0
run_task close_task a = (close_in_loop a).0

-- A call queues its task, whatever thread makes it (EventLoop::runInLoop always queues); the loop runs
-- the oldest task.
pub data Step : System → System → Type 0 where
  queued :
      (x : Call) (s : System)
      → Step s (record {
        acceptor = (call x s.acceptor).0;
        pending = s.pending ++ (call x s.acceptor).1;
      })
  served :
      (t : Task) (a : Acceptor) (ts : List Task)
      → Step
          (record { acceptor = a; pending = t ∷ ts })
          (record { acceptor = run_task t a; pending = ts })

pub data Reaches : System → System → Type 0 where
  here : (s : System) → Reaches s s
  then : (s t u : System) → Step s t → Reaches t u → Reaches s u

abbrev Waits : List Task → Type 0
Waits [] = ⊥
Waits (listen_task ∷ ts) = Waits ts
Waits (close_task ∷ ts) = Unit {0}

Waits-append : (ts us : List Task) → Waits ts → Waits (ts ++ us)
Waits-append [] us w = elim w [ ]
Waits-append (listen_task ∷ ts) us w = Waits-append ts us w
Waits-append (close_task ∷ ts) us w = tt

Waits-end : (ts : List Task) → Waits (ts ++ close_task ∷ [])
Waits-end [] = tt
Waits-end (listen_task ∷ ts) = Waits-end ts
Waits-end (close_task ∷ ts) = tt

-- A channel is open only while the acceptor accepts or its close is still to run.
abbrev IsHeld : Acceptor → List Task → Type 0
IsHeld a ts = (a.accepts ≡ true) ⊎ (a.channel.started ≡ false) ⊎ Waits ts

IsHeld-append : (a : Acceptor) (ts us : List Task) → IsHeld a ts → IsHeld a (ts ++ us)
IsHeld-append a ts us (inl e) = inl e
IsHeld-append a ts us (inr (inl e)) = inr (inl e)
IsHeld-append a ts us (inr (inr w)) = inr (inr (Waits-append ts us w))

close_channel-started : (c : Channel) → (close_channel c).0.started ≡ false
unfolding close_channel
close_channel-started c =
    if-cases c.started (λ (r : Channel × List Request). r.0.started ≡ false) _ _ (λ e. refl)
      (λ e. e)

queued-IsHeld :
    (x : Call) (a : Acceptor) (ts : List Task)
    → IsHeld a ts
    → IsHeld ((call x a).0) (ts ++ (call x a).1)
unfolding listen close
queued-IsHeld listens a ts h =
    if-cases a.accepts (λ (r : Acceptor × List Task). IsHeld (r.0) (ts ++ r.1)) _ _ (λ e. inl e)
      (λ e. inl refl)
queued-IsHeld closes a ts h =
    if-cases a.accepts (λ (r : Acceptor × List Task). IsHeld (r.0) (ts ++ r.1)) _ _
      (λ e. inr (inr (Waits-end ts))) (λ e. IsHeld-append a ts [] h)

not_or-false : (a b : Bool) → not a || b ≡ false → a ≡ true
not_or-false true b h = refl
not_or-false false b h = absurd (true≢false h)

run_task-IsHeld :
    (t : Task) (a : Acceptor) (ts : List Task) → IsHeld a (t ∷ ts) → IsHeld (run_task t a) ts
unfolding listen_in_loop close_in_loop
run_task-IsHeld listen_task a ts h =
    if-cases (not a.accepts || a.listenning) (λ (r : Acceptor × List Request). IsHeld (r.0) ts) _ _
      (λ e. h) (λ e. inl (not_or-false a.accepts a.listenning e))
run_task-IsHeld close_task a ts h =
    if-cases a.accepts (λ (r : Acceptor × List Request). IsHeld (r.0) ts) _ _ (λ e. inl e)
      (λ e. inr (inl (close_channel-started a.channel)))

Step-IsHeld : (s t : System) → Step s t → IsHeld s.acceptor s.pending → IsHeld t.acceptor t.pending
Step-IsHeld _ _ (queued x s) h = queued-IsHeld x s.acceptor s.pending h
Step-IsHeld _ _ (served x a ts) h = run_task-IsHeld x a ts h

Reaches-IsHeld :
    (s t : System) → Reaches s t → IsHeld s.acceptor s.pending → IsHeld t.acceptor t.pending
Reaches-IsHeld _ _ (here s) h = h
Reaches-IsHeld _ _ (then s t u x r) h = Reaches-IsHeld t u r (Step-IsHeld s t x h)

abbrev pub new_system : ℕ → System
new_system fd = record { acceptor = new_acceptor fd; pending = [] }

-- Whatever threads call listen() and close(): when no task is left to run and the last call was a
-- close(), the channel of the listening socket is not open.
pub closed_lem :
    (fd : ℕ) (a : Acceptor)
    → Reaches (new_system fd) (record { acceptor = a; pending = [] })
    → a.accepts ≡ false
    → a.channel.started ≡ false
unfolding new_acceptor new_channel enable_read
closed_lem fd a r e =
    elim (Reaches-IsHeld (new_system fd) (record { acceptor = a; pending = [] }) r
      (inr (inl refl))) [
        | inl on ↦ absurd (true≢false (sym on ∙ e))
        | inr (inl shut) ↦ shut
        | inr (inr w) ↦ elim w [ ]
      ]

-- It has listened, and its channel is shut.
abbrev pub IsDeaf : Acceptor → Type 0
IsDeaf a = (a.listenning ≡ true) × (a.channel.started ≡ false)

or-true : (a b : Bool) → b ≡ true → a || b ≡ true
or-true true b h = refl
or-true false b h = h

call-IsDeaf : (x : Call) (a : Acceptor) → IsDeaf a → IsDeaf ((call x a).0)
unfolding listen close
call-IsDeaf listens a h =
    if-cases a.accepts (λ (r : Acceptor × List Task). IsDeaf (r.0)) _ _ (λ e. h) (λ e. h)
call-IsDeaf closes a h =
    if-cases a.accepts (λ (r : Acceptor × List Task). IsDeaf (r.0)) _ _ (λ e. h) (λ e. h)

run_task-IsDeaf : (t : Task) (a : Acceptor) → IsDeaf a → IsDeaf (run_task t a)
unfolding listen_in_loop close_in_loop
run_task-IsDeaf listen_task a h =
    if-cases (not a.accepts || a.listenning) (λ (r : Acceptor × List Request). IsDeaf (r.0)) _ _
      (λ e. h) (λ e. absurd (true≢false (sym (or-true (not a.accepts) a.listenning (h.0)) ∙ e)))
run_task-IsDeaf close_task a h =
    if-cases a.accepts (λ (r : Acceptor × List Request). IsDeaf (r.0)) _ _ (λ e. h)
      (λ e. (h.0, close_channel-started a.channel))

Step-IsDeaf : (s t : System) → Step s t → IsDeaf s.acceptor → IsDeaf t.acceptor
Step-IsDeaf _ _ (queued x s) h = call-IsDeaf x s.acceptor h
Step-IsDeaf _ _ (served x a ts) h = run_task-IsDeaf x a h

-- An acceptor that has listened and whose channel is shut stays so, whatever threads call listen()
-- and close() and whatever tasks run: `listenning_` is never reset, so it cannot listen again.
pub Reaches-IsDeaf : (s t : System) → Reaches s t → IsDeaf s.acceptor → IsDeaf t.acceptor
Reaches-IsDeaf _ _ (here s) h = h
Reaches-IsDeaf _ _ (then s t u x r) h = Reaches-IsDeaf t u r (Step-IsDeaf s t x h)
