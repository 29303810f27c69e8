-- ===== src/Net/TcpClient/Single.antt =====
-- A client has one connection at most, and one attempt to make it.
use mathlib.Core.Path.{subst}
use mathlib.Core.Bool.{true≢false, false≢true}
use libiak.Prelude.{
  ℕ, ◌≡◌, refl, sym, ap, ◌∙◌, Bool, true, false, not, ◌||◌, List, [], ◌∷◌, ◌++◌, append-nil, Option,
  none, some, if◌then◌else◌, if-cases, if-holds, ◌>>=◌, length, arith,
}
use libiak.Net.Channel.{Channel, enable_write, open_channel}
use libiak.Net.Connector.{
  Connector, Task, connect_task, close_task, reset_task, Result, connected, pending, retry, refused,
  handed, Done, attempt, connect_in_loop, reset_channel, finish, on_write,
}
use libiak.Net.TcpClient.{
  set_retry, on_connect, World, hand_over, settle, run_task, Act, calls, retries, turns, writable,
  closes, act, run,
}
use libiak.Net.TcpClient.Phase.{
  Queued, Phase, idle, queued, connecting, established, held, IsSingle, Holds, calls-Holds,
  closes-Holds,
}

-- A connection is handed over to a client that has none.
hand-IsSingle :
    (fd : ℕ) (w : World)
    → IsSingle w
    → Queued w.tasks false
    → w.client.connector.connecting ≡ false
    → w.client.connection ≡ none
    → w.client.connects ≡ true
    → IsSingle (hand_over (handed fd ∷ []) w)
unfolding on_connect
hand-IsSingle fd w v q a b c = record {
  phase = established w.made q a refl c;
  accounted =
      ap (λ ds. ds ++ w.made ∷ [])
        (sym (append-nil w.destroyed) ∙ ap (λ o. w.destroyed ++ held o) (sym b) ∙ v.accounted);
}

-- The connector does nothing.
settle-nothing : (w : World) → IsSingle w → IsSingle (settle w (w.client.connector, [], [], []))
settle-nothing w v = subst (λ ts. IsSingle (record w { tasks = ts })) (sym (append-nil w.tasks)) v

or-true : (b : Bool) → b || true ≡ true
or-true true = refl
or-true false = refl

pub on_write-nothing :
    (ok : Bool) (c : Connector) → c.connecting ≡ false → on_write true ok c ≡ some (c, [], [], [])
unfolding on_write
on_write-nothing ok c e =
    let shut : (not c.connects || not c.connecting) ≡ true = rw e (or-true (not c.connects)) in
    if-cases (not c.connects || not c.connecting) (λ o. o ≡ some (c, [], [], [])) _ _ (λ f. refl)
      (λ f. absurd (true≢false (sym shut ∙ f)))

some-if : (b : Bool) (x y : Done) → (if b then some x else some y) ≡ some (if b then x else y)
some-if true x y = refl
some-if false x y = refl

on_write-channel :
    (ok : Bool) (c : Connector) (ch : Channel)
    → c.channel ≡ some ch
    → on_write true ok c
      ≡ some (if not c.connects || not c.connecting then (c, [], [], []) else finish true ok ch c)
unfolding on_write
on_write-channel ok c ch e = rw e (some-if (not c.connects || not c.connecting) _ _)

-- The channel of a connecting socket is there, and the socket goes to the client or the connector tries again.
finish-IsSingle :
    (ok : Bool) (w : World) (ch : Channel)
    → IsSingle w
    → w.tasks ≡ []
    → w.client.connection ≡ none
    → w.client.connects ≡ true
    → IsSingle (settle w (finish true ok ch w.client.connector))
unfolding finish
finish-IsSingle true w ch v q c d =
    hand-IsSingle ch.fd _
      (record {
        phase = idle (subst (λ ts. Queued (ts ++ reset_task ∷ []) false) (sym q) refl) refl c;
        accounted = v.accounted;
      })
      (subst (λ ts. Queued (ts ++ reset_task ∷ []) false) (sym q) refl) refl c d
finish-IsSingle false w ch v q c d = record {
  phase =
      queued (subst (λ ts. Queued (ts ++ reset_task ∷ connect_task ∷ []) true) (sym q) (refl, refl))
        refl c d;
  accounted = v.accounted;
}

writable_phase-Holds : (ok : Bool) (w : World) → IsSingle w → Phase w → Holds (act (writable ok) w)
unfolding act
writable_phase-Holds ok w v (idle q a b) =
    rw (on_write-nothing ok w.client.connector a) (settle-nothing w v)
writable_phase-Holds ok w v (queued q a b c) =
    rw (on_write-nothing ok w.client.connector a) (settle-nothing w v)
writable_phase-Holds ok w v (established k q a b c) =
    rw (on_write-nothing ok w.client.connector a) (settle-nothing w v)
writable_phase-Holds ok w v (connecting ch q a b c d) =
    rw (on_write-channel ok w.client.connector ch b) (
      if-holds (not w.client.connector.connects || not w.client.connector.connecting)
        (λ r. Holds (some (settle w r))) _ _ (settle-nothing w v) (finish-IsSingle ok w ch v q c d))

unqueued : (w : World) (t : Task) (ts : List Task) → w.tasks ≡ [] → w.tasks ≡ t ∷ ts → ⊥
unqueued w t ts q e = omega (arith, ap length (sym q ∙ e))

-- connectInLoop, when nothing else waits
attempt-IsSingle :
    (fd : ℕ) (result : Result) (w : World)
    → IsSingle w
    → w.tasks ≡ []
    → w.client.connection ≡ none
    → w.client.connects ≡ true
    → w.client.connector.connecting ≡ false
    → IsSingle (settle w (attempt true fd result w.client.connector))
unfolding attempt open_channel enable_write
attempt-IsSingle fd connected w v q b c a =
    let waits : Queued (w.tasks ++ []) false = subst (λ ts. Queued (ts ++ []) false) (sym q) refl in
    hand-IsSingle fd _ (settle-nothing w v) waits a b c
attempt-IsSingle fd pending w v q b c a = record {
  phase = connecting _ (ap (λ ts. ts ++ []) q) refl refl b c;
  accounted = v.accounted;
}
attempt-IsSingle fd retry w v q b c a = record {
  phase = queued (subst (λ ts. Queued (ts ++ connect_task ∷ []) true) (sym q) (refl, refl)) a b c;
  accounted = v.accounted;
}
attempt-IsSingle fd refused w v q b c a = settle-nothing w v

connect_task-Holds :
    (fd : ℕ) (result : Result) (ts : List Task) (w : World)
    → IsSingle w
    → w.tasks ≡ connect_task ∷ ts
    → Phase w
    → Holds (run_task fd result (connect_task ∷ ts) w)
unfolding connect_in_loop
connect_task-Holds fd result ts w v e (idle q a b) =
    absurd (false≢true (subst (λ ts. Queued ts false) e q).1)
connect_task-Holds fd result ts w v e (established id q a b c) =
    absurd (false≢true (subst (λ ts. Queued ts false) e q).1)
connect_task-Holds fd result ts w v e (connecting ch q a b c d) =
    absurd (unqueued w connect_task ts q e)
connect_task-Holds fd result ts w v e (queued q a b c) =
    let w' : World = record w { tasks = ts } in
    let last : ts ≡ [] = (subst (λ ts. Queued ts true) e q).0 in
    let v' : IsSingle w' = record {
      phase = idle (subst (λ ts. Queued ts false) (sym last) refl) a b;
      accounted = v.accounted;
    } in
    if-holds (not w.client.connector.connects || w.client.connector.connecting)
      (λ (d : Done). IsSingle (settle w' d)) _ _ (settle-nothing w' v')
      (attempt-IsSingle fd result w' v' last b c a)

run_task-Holds :
    (fd : ℕ) (result : Result) (ts : List Task) (w : World)
    → IsSingle w
    → w.tasks ≡ ts
    → Phase w
    → Holds (run_task fd result ts w)
unfolding reset_channel
run_task-Holds fd result [] w v e p = v
run_task-Holds fd result (connect_task ∷ ts) w v e p = connect_task-Holds fd result ts w v e p
run_task-Holds fd result (close_task ∷ ts) w v e (idle q a b) =
    absurd (subst (λ ts. Queued ts false) e q)
run_task-Holds fd result (close_task ∷ ts) w v e (queued q a b c) =
    absurd (subst (λ ts. Queued ts true) e q)
run_task-Holds fd result (close_task ∷ ts) w v e (established k q a b c) =
    absurd (subst (λ ts. Queued ts false) e q)
run_task-Holds fd result (close_task ∷ ts) w v e (connecting ch q a b c d) =
    absurd (unqueued w close_task ts q e)
run_task-Holds fd result (reset_task ∷ ts) w v e (idle q a b) = record {
  phase = idle (subst (λ ts. Queued ts false) e q) a b;
  accounted = v.accounted;
}
run_task-Holds fd result (reset_task ∷ ts) w v e (queued q a b c) = record {
  phase = queued (subst (λ ts. Queued ts true) e q) a b c;
  accounted = v.accounted;
}
run_task-Holds fd result (reset_task ∷ ts) w v e (established k q a b c) = record {
  phase = established k (subst (λ ts. Queued ts false) e q) a b c;
  accounted = v.accounted;
}
run_task-Holds fd result (reset_task ∷ ts) w v e (connecting ch q a b c d) =
    absurd (unqueued w reset_task ts q e)

retries-Holds : (again : Bool) (w : World) → IsSingle w → Holds (act (retries again) w)
unfolding act
retries-Holds again w v = record { phase = go v.phase; accounted = v.accounted }
  where
    go : Phase w → Phase (record w { client = set_retry again w.client })
    go (idle q a b) = idle q a b
    go (queued q a b c) = queued q a b c
    go (connecting ch q a b c d) = connecting ch q a b c d
    go (established k q a b c) = established k q a b c

act-Holds : (a : Act) (w : World) → IsSingle w → Holds (act a w)
unfolding act
act-Holds calls w v = calls-Holds w v
act-Holds (retries again) w v = retries-Holds again w v
act-Holds (turns fd result) w v = run_task-Holds fd result w.tasks w v refl v.phase
act-Holds (writable ok) w v = writable_phase-Holds ok w v v.phase
act-Holds (closes id) w v = closes-Holds id w v

-- From a client as it is made, or any such one: whatever is called, however the attempts to connect end, and
-- whenever connections close, even after the client let go of them, the connector never reads a channel that
-- is not set; at any time there is one attempt at most, in a task or at a socket, and none while there is a
-- connection; and each connection that was made is destroyed, once, before the next is made, but for the one
-- that the client has.
pub run-Holds : (acts : List Act) (w : World) → IsSingle w → Holds (run acts w)
unfolding run
run-Holds [] w v = v
run-Holds (a ∷ acts) w v = go (act a w) (act-Holds a w v) (λ w' v'. run-Holds acts w' v')
  where
    go :
        (o : Option World)
        → Holds o
        → ((w' : World) → IsSingle w' → Holds (run acts w'))
        → Holds (o >>= run acts)
    go none bad next = bad
    go (some w') v' next = next w' v'
