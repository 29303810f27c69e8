-- ===== src/Net/TcpClient/Stuck.antt =====
-- A client whose attempt to connect was given up.
use mathlib.Core.Path.{subst}
use mathlib.Core.Bool.{true≢false, false≢true}
use libiak.Prelude.{
  ℕ, ◌≡◌, refl, sym, ◌∙◌, true, false, List, [], ◌∷◌, ◌++◌, append-nil, Option, none, some,
  if-cases, if-holds, not, ◌||◌, ◌>>=◌,
}
use libiak.Net.Connector.{
  Task, connect_task, close_task, reset_task, Result, refused, Done, attempt, connect_in_loop,
  reset_channel,
}
use libiak.Net.TcpClient.{
  TcpClient, connect, is_current, on_close, World, settle, run_task, Act, calls, retries, turns,
  writable, closes, act, run,
}
use libiak.Net.TcpClient.Phase.{Queued, none-current}
use libiak.Net.TcpClient.Single.{on_write-nothing}

-- No connection, no socket and no task to make one, and connect() was called.
pub record IsStuck (w : World) : Type 0 where
  pub called : w.client.connects ≡ true
  pub waits : Queued w.tasks false
  pub no_socket : w.client.connector.connecting ≡ false
  pub no_connection : w.client.connection ≡ none

-- Such a client, with this number of connections made
pub data StaysStuck (made : ℕ) : Option World → Type 0 where
  stuck : (w : World) → w.made ≡ made → IsStuck w → StaysStuck made (some w)

more_tasks : (w : World) → IsStuck w → IsStuck (record w { tasks = w.tasks ++ [] })
more_tasks w v = record {
  called = v.called;
  waits = subst (λ ts. Queued ts false) (sym (append-nil w.tasks)) v.waits;
  no_socket = v.no_socket;
  no_connection = v.no_connection;
}

run_task-StaysStuck :
    (fd : ℕ) (result : Result) (ts : List Task) (w : World)
    → IsStuck (record w { tasks = ts })
    → w.tasks ≡ ts
    → StaysStuck w.made (run_task fd result ts w)
unfolding reset_channel
run_task-StaysStuck fd result [] w v e = stuck w refl (record {
  called = v.called;
  waits = subst (λ ts. Queued ts false) (sym e) refl;
  no_socket = v.no_socket;
  no_connection = v.no_connection;
})
run_task-StaysStuck fd result (connect_task ∷ ts) w v e = absurd (false≢true v.waits.1)
run_task-StaysStuck fd result (close_task ∷ ts) w v e = absurd v.waits
run_task-StaysStuck fd result (reset_task ∷ ts) w v e = stuck _ refl (record {
  called = v.called;
  waits = v.waits;
  no_socket = v.no_socket;
  no_connection = v.no_connection;
})

act-StaysStuck : (a : Act) (w : World) → IsStuck w → StaysStuck w.made (act a w)
unfolding act connect on_close
act-StaysStuck calls w v =
    if-cases w.client.connects
      (λ (r : TcpClient × List Task).
        StaysStuck w.made (some (record w { client = r.0; tasks = w.tasks ++ r.1 })))
      _ _ (λ e. stuck _ refl (more_tasks w v)) (λ e. absurd (true≢false (sym v.called ∙ e)))
act-StaysStuck (retries again) w v = stuck _ refl (record {
  called = v.called;
  waits = v.waits;
  no_socket = v.no_socket;
  no_connection = v.no_connection;
})
act-StaysStuck (turns fd result) w v = run_task-StaysStuck fd result w.tasks w v refl
act-StaysStuck (writable ok) w v =
    rw (on_write-nothing ok w.client.connector v.no_socket) (stuck _ refl (more_tasks w v))
act-StaysStuck (closes id) w v =
    if-cases (is_current id w.client.connection)
      (λ (r : TcpClient × List ℕ × List Task).
        StaysStuck w.made (
          some (record w { client = r.0; tasks = w.tasks ++ r.2; destroyed = w.destroyed ++ r.1 })))
      _ _ (λ e. absurd (true≢false (sym e ∙ none-current id w.client.connection v.no_connection)))
      (λ e. stuck _ refl (
        subst (λ ds. IsStuck (record w { tasks = w.tasks ++ []; destroyed = ds }))
          (sym (append-nil w.destroyed)) (more_tasks w v)))

stuck-StaysStuck : (acts : List Act) (w : World) → IsStuck w → StaysStuck w.made (run acts w)
unfolding run
stuck-StaysStuck [] w v = stuck w refl v
stuck-StaysStuck (a ∷ acts) w v =
    go (act a w) (act-StaysStuck a w v) (λ w' v'. stuck-StaysStuck acts w' v')
  where
    go :
        (o : Option World)
        → StaysStuck w.made o
        → ((w' : World) → IsStuck w' → StaysStuck w'.made (run acts w'))
        → StaysStuck w.made (o >>= run acts)
    go none s next = elim s [ ]
    go (some w') s next = elim s as (λ o s. StaysStuck w.made (o >>= run acts)) [
      | stuck x e v' ↦ subst (λ n. StaysStuck n (run acts x)) e (next x v')
    ]

-- The attempt is given up, whichever way the guard of connectInLoop goes.
refused_lem :
    (fd : ℕ) (w : World)
    → w.client.connects ≡ true
    → w.client.connector.connecting ≡ false
    → w.client.connection ≡ none
    → IsStuck
        (settle (record w { tasks = [] }) (connect_in_loop true fd refused w.client.connector))
unfolding connect_in_loop attempt
refused_lem fd w called no_socket no_connection =
    if-holds (not w.client.connector.connects || w.client.connector.connecting)
      (λ (d : Done). IsStuck (settle (record w { tasks = [] }) d)) _ _
      (record {
        called = called;
        waits = refl;
        no_socket = no_socket;
        no_connection = no_connection;
      })
      (record {
        called = called;
        waits = refl;
        no_socket = no_socket;
        no_connection = no_connection;
      })

refused_made :
    (fd : ℕ) (w : World)
    → (settle (record w { tasks = [] }) (connect_in_loop true fd refused w.client.connector)).made
      ≡ w.made
unfolding connect_in_loop attempt
refused_made fd w =
    if-holds (not w.client.connector.connects || w.client.connector.connecting)
      (λ (d : Done). (settle (record w { tasks = [] }) d).made ≡ w.made) _ _ refl refl

-- Where connect() was called on a client that has no connection and no connecting socket, and its loop runs
-- connectInLoop, the only task that waits, and connect(2) fails with an error that Connector does not try again
-- after, the client never makes another connection, whatever is called and happens then, connect() included.
pub run-StaysStuck :
    (fd : ℕ) (acts : List Act) (w : World)
    → w.client.connects ≡ true
    → w.tasks ≡ connect_task ∷ []
    → w.client.connector.connecting ≡ false
    → w.client.connection ≡ none
    → StaysStuck w.made (run (turns fd refused ∷ acts) w)
unfolding run act
run-StaysStuck fd acts w called waits no_socket no_connection =
    let w' : World =
      settle (record w { tasks = [] }) (connect_in_loop true fd refused w.client.connector) in
    let stays = stuck-StaysStuck acts w' (refused_lem fd w called no_socket no_connection) in
    subst (λ ts. StaysStuck w.made (run_task fd refused ts w >>= run acts)) (sym waits)
      (subst (λ n. StaysStuck n (run acts w')) (refused_made fd w) stays)
