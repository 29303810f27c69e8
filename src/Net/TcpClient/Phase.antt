-- ===== src/Net/TcpClient/Phase.antt =====
-- What a client is at, and how connect() and the end of a connection change it.
use mathlib.Core.Path.{subst}
use mathlib.Core.Bool.{true≢false, false≢true}
use libiak.Prelude.{
  ℕ, zero, suc, ◌≡◌, refl, sym, ap, ◌∙◌, Bool, true, false, not, List, [], ◌∷◌, ◌++◌, append-nil,
  Option, none, some, ==→eq, if-cases,
}
use libiak.Net.Channel.{Channel}
use libiak.Net.Connector as Conn
use libiak.Net.Connector.{
  Connector, new_connector, Task, connect_task, close_task, reset_task, Result, connected, pending,
  retry, refused, Ending, handed, closed, left_open, Done, attempt, connect_in_loop, close_in_loop,
  reset_channel, finish, on_write,
}
use libiak.Net.TcpClient.{
  TcpClient, connect, is_current, close_current, on_close, World, calls, closes, act,
}

-- Tasks of the connector: resets, and then one connectInLoop, if `attempts`.
abbrev pub Queued : List Task → Bool → Type 0
Queued [] attempts = attempts ≡ false
Queued (reset_task ∷ ts) attempts = Queued ts attempts
Queued (connect_task ∷ ts) attempts = (ts ≡ []) × (attempts ≡ true)
Queued (close_task ∷ ts) attempts = ⊥

-- What a client is at: nothing; an attempt waits in the loop; a socket is being connected, and no task waits;
-- or it has a connection.
pub data Phase (w : World) : Type 0 where
  idle :
      Queued w.tasks false
      → w.client.connector.connecting ≡ false
      → w.client.connection ≡ none
      → Phase w
  queued :
      Queued w.tasks true
      → w.client.connector.connecting ≡ false
      → w.client.connection ≡ none
      → w.client.connects ≡ true
      → Phase w
  connecting :
      (ch : Channel)
      → w.tasks ≡ []
      → w.client.connector.connecting ≡ true
      → w.client.connector.channel ≡ some ch
      → w.client.connection ≡ none
      → w.client.connects ≡ true
      → Phase w
  established :
      (id : ℕ)
      → Queued w.tasks false
      → w.client.connector.connecting ≡ false
      → w.client.connection ≡ some id
      → w.client.connects ≡ true
      → Phase w

abbrev pub up_to : ℕ → List ℕ
up_to zero = []
up_to (suc n) = up_to n ++ n ∷ []

abbrev pub held : Option ℕ → List ℕ
held none = []
held (some id) = id ∷ []

-- The connections that were made are those destroyed, and then the one that the client has.
pub record IsSingle (w : World) : Type 0 where
  pub phase : Phase w
  pub accounted : w.destroyed ++ held w.client.connection ≡ up_to w.made

-- No fault, and such a client.
abbrev pub Holds : Option World → Type 0
Holds none = ⊥
Holds (some w) = IsSingle w

Queued-attempt : (ts : List Task) → Queued ts false → Queued (ts ++ connect_task ∷ []) true
Queued-attempt [] q = (refl, refl)
Queued-attempt (reset_task ∷ ts) q = Queued-attempt ts q
Queued-attempt (connect_task ∷ ts) (e, f) = absurd (false≢true f)
Queued-attempt (close_task ∷ ts) q = absurd q

pub calls-Holds : (w : World) → IsSingle w → Holds (act calls w)
unfolding act connect Conn.connect
calls-Holds w v =
    if-cases w.client.connects
      (λ (r : TcpClient × List Task). IsSingle (record w { client = r.0; tasks = w.tasks ++ r.1 }))
      _ _ (λ e. subst (λ ts. IsSingle (record w { tasks = ts })) (sym (append-nil w.tasks)) v)
      (λ e. elim v.phase as (λ p. IsSingle _) [
        | idle q a b ↦ record {
          phase = queued (Queued-attempt w.tasks q) a b refl;
          accounted = v.accounted;
        }
        | queued q a b c ↦ absurd (true≢false (sym c ∙ e))
        | connecting ch q a b c d ↦ absurd (true≢false (sym d ∙ e))
        | established id q a b c ↦ absurd (true≢false (sym c ∙ e))
      ])

held-current : (id : ℕ) (o : Option ℕ) → is_current id o ≡ true → held o ≡ id ∷ []
held-current id none e = absurd (false≢true e)
held-current id (some k) e = ap held (ap some (==→eq k id e))

pub none-current : (id : ℕ) (o : Option ℕ) → o ≡ none → is_current id o ≡ false
none-current id o e = ap (is_current id) e

-- The client lets go of its connection, and the connector begins again or does not.
close_current-IsSingle :
    (id : ℕ) (w : World)
    → IsSingle w
    → is_current id w.client.connection ≡ true
    → Queued w.tasks false
    → w.client.connector.connecting ≡ false
    → w.client.connects ≡ true
    → let r = close_current id w.client in
      IsSingle (record w { client = r.0; tasks = w.tasks ++ r.2; destroyed = w.destroyed ++ r.1 })
unfolding Conn.connect
close_current-IsSingle id w v e q a c =
    let gone : (w.destroyed ++ id ∷ []) ++ [] ≡ up_to w.made =
      append-nil (w.destroyed ++ id ∷ [])
      ∙ ap (λ ds. w.destroyed ++ ds) (sym (held-current id w.client.connection e))
      ∙ v.accounted in
    let goes : TcpClient × List ℕ × List Task → Type 0 = λ r.
      IsSingle
        (record w { client = r.0; tasks = w.tasks ++ r.2; destroyed = w.destroyed ++ r.1 }) in
    if-cases (not w.client.connects) goes _ _ (λ n. absurd (true≢false (sym n ∙ ap not c)))
      (λ n.
        if-cases w.client.retry goes _ _
          (λ r. record { phase = queued (Queued-attempt w.tasks q) a refl c; accounted = gone })
          (λ r. record {
            phase = idle (subst (λ ts. Queued ts false) (sym (append-nil w.tasks)) q) a refl;
            accounted = gone;
          }))

close_phase-IsSingle :
    (id : ℕ) (w : World)
    → IsSingle w
    → is_current id w.client.connection ≡ true
    → Phase w
    → let r = close_current id w.client in
      IsSingle (record w { client = r.0; tasks = w.tasks ++ r.2; destroyed = w.destroyed ++ r.1 })
close_phase-IsSingle id w v e (idle q a b) = absurd (true≢false (sym e ∙ none-current id _ b))
close_phase-IsSingle id w v e (queued q a b c) = absurd (true≢false (sym e ∙ none-current id _ b))
close_phase-IsSingle id w v e (connecting ch q a b c d) =
    absurd (true≢false (sym e ∙ none-current id _ c))
close_phase-IsSingle id w v e (established k q a b c) = close_current-IsSingle id w v e q a c

pub closes-Holds : (id : ℕ) (w : World) → IsSingle w → Holds (act (closes id) w)
unfolding act on_close Conn.connect
closes-Holds id w v =
    if-cases (is_current id w.client.connection)
      (λ (r : TcpClient × List ℕ × List Task).
        IsSingle
          (record w { client = r.0; tasks = w.tasks ++ r.2; destroyed = w.destroyed ++ r.1 }))
      _ _ (λ e. close_phase-IsSingle id w v e v.phase)
      (λ e.
        subst (λ ts. IsSingle (record w { tasks = ts; destroyed = w.destroyed ++ [] }))
          (sym (append-nil w.tasks))
          (subst (λ ds. IsSingle (record w { destroyed = ds })) (sym (append-nil w.destroyed)) v))
