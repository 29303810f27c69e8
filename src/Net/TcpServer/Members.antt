-- ===== src/Net/TcpServer/Members.antt =====
-- The map of a server holds just the connections that it has not destroyed.
use mathlib.Core.Path.{subst}
use libiak.Prelude.{
  ℕ, suc, ◌+◌, ◌≤◌, ◌<◌, ◌≡◌, inl, inr, refl, ap, ◌∙◌, true, false, List, [], ◌∷◌, ◌++◌, Option,
  none, some, ◌==◌, Bool-cases, if◌then◌else◌, if-cases, arith, ◌>>=◌,
}
use libiak.Net.TcpServer.{
  TcpServer, get_loop, next_index, choose_loop, assign, erase, on_accept, on_close,
  remove_connection, connections_of, close_server,
}
use libiak.Net.TcpServer.Counts.{
  as_first, as_second, times, as_pair, without, as_first-append, as_second-append, as_pair-append,
  times-append, assign-fresh, as_pair-le, as_pair-le_first, erase-without, as_first-without,
  as_second-without, as_pair-without,
}

-- A server in its loop: the number of connections it made; those, with their descriptors, that are
-- not destroyed; the tasks given to its loop; and the connections destroyed.
pub record World : Type 0 where
  pub server : TcpServer
  pub made : ℕ
  pub live : List (ℕ × ℕ)
  pub tasks : List (ℕ × ℕ)
  pub destroyed : List ℕ

-- What happens to it. The system hands over no descriptor that a live connection still has; and a
-- connection that is live calls its close callback once.
pub data Step (w : World) : World → Type 0 where
  accept :
      (fd loop : ℕ) (s : TcpServer)
      → as_first fd w.live ≡ 0
      → on_accept fd w.made w.server ≡ some (loop, s)
      → Step w (record w { server = s; made = suc w.made; live = w.live ++ (fd, w.made) ∷ [] })
  close :
      (fd c : ℕ)
      → as_pair fd c w.live ≡ 1
      → as_second c w.tasks ≡ 0
      → Step w (record w { tasks = w.tasks ++ on_close fd c ∷ [] })
  remove :
      (fd c : ℕ) (rest : List (ℕ × ℕ))
      → w.tasks ≡ (fd, c) ∷ rest
      → Step w (record w {
        server = (remove_connection (fd, c) w.server).0;
        live = without c w.live;
        tasks = rest;
        destroyed = w.destroyed ++ (remove_connection (fd, c) w.server).1 ∷ [];
      })

-- The map holds the live connections, which are all those made that were not destroyed, each once.
pub record IsConsistent (w : World) : Type 0 where
  pub held : w.server.connections ≡ w.live
  pub descriptors : (fd : ℕ) → as_first fd w.live ≤ 1
  pub fresh : (c : ℕ) → w.made ≤ c → as_second c w.live + times c w.destroyed ≡ 0
  pub once : (c : ℕ) → c < w.made → as_second c w.live + times c w.destroyed ≡ 1
  pub closing : (fd c : ℕ) → as_pair fd c w.tasks ≤ as_pair fd c w.live
  pub closing_once : (c : ℕ) → as_second c w.tasks ≤ 1

-- If a connection is accepted, the map is this.
abbrev Assigned : List (ℕ × ℕ) → Option (ℕ × TcpServer) → Type 0
Assigned xs none = Unit {0}
Assigned xs (some (loop, s)) = s.connections ≡ xs

choose_loop-Assigned : (s : TcpServer) → Assigned s.connections (choose_loop s)
unfolding choose_loop
choose_loop-Assigned s =
    elim s.loop_thread_pool
      as (λ p. Assigned s.connections (choose_loop (record s { loop_thread_pool = p }))) [
        | none ↦ refl
        | some pool ↦
            if-cases (pool.count == 0) (Assigned s.connections) _ _ (λ e. tt)
              (λ e.
                elim (get_loop (next_index s.index_loop pool.count) pool)
                  as (λ l. Assigned s.connections (
                    l >>= λ loop. some (
                      loop,
                      record s {
                        loop_thread_pool = some pool;
                        index_loop = next_index s.index_loop pool.count;
                      },
                    ))) [ none ↦ tt | some loop ↦ refl ])
      ]

Assigned-bind :
    (fd c : ℕ) (xs : List (ℕ × ℕ)) (o : Option (ℕ × TcpServer))
    → Assigned xs o
    → Assigned
        (assign fd c xs)
        (o >>= λ r. some (r.0, record r.1 { connections = assign fd c r.1.connections }))
Assigned-bind fd c xs none h = tt
Assigned-bind fd c xs (some (loop, s)) h = ap (assign fd c) h

on_accept-Assigned :
    (fd c : ℕ) (s : TcpServer) → Assigned (assign fd c s.connections) (on_accept fd c s)
unfolding on_accept
on_accept-Assigned fd c s =
    Assigned-bind fd c s.connections (choose_loop s) (choose_loop-Assigned s)

accept-IsConsistent :
    (w : World) (fd loop : ℕ) (s : TcpServer)
    → IsConsistent w
    → as_first fd w.live ≡ 0
    → on_accept fd w.made w.server ≡ some (loop, s)
    → IsConsistent (record w { server = s; made = suc w.made; live = w.live ++ (fd, w.made) ∷ [] })
accept-IsConsistent w fd loop s v new e = record {
  held =
      subst (Assigned (assign fd w.made w.server.connections)) e
        (on_accept-Assigned fd w.made w.server)
      ∙ ap (assign fd w.made) v.held
      ∙ assign-fresh fd w.made w.live new;
  descriptors = λ n. ground (arith, as_first-append n w.live ((fd, w.made) ∷ []), v.descriptors n);
  fresh = λ c h. ground (arith, as_second-append c w.live ((fd, w.made) ∷ []), v.fresh c);
  once = λ c h. ground (arith, as_second-append c w.live ((fd, w.made) ∷ []), v.once c, v.fresh c);
  closing = λ n c. ground (arith, as_pair-append n c w.live ((fd, w.made) ∷ []), v.closing n c);
  closing_once = v.closing_once;
}

close-IsConsistent :
    (w : World) (fd c : ℕ)
    → IsConsistent w
    → as_pair fd c w.live ≡ 1
    → as_second c w.tasks ≡ 0
    → IsConsistent (record w { tasks = w.tasks ++ on_close fd c ∷ [] })
close-IsConsistent w fd c v there new = record {
  held = v.held;
  descriptors = v.descriptors;
  fresh = v.fresh;
  once = v.once;
  closing = λ n k.
      grind
        (arith, as_pair-append n k w.tasks ((fd, c) ∷ []), as_pair-le n k w.tasks, v.closing n k);
  closing_once = λ k. ground (arith, as_second-append k w.tasks ((fd, c) ∷ []), v.closing_once k);
}

self : (n : ℕ) → (n == n) ≡ true
self n = ground arith

-- The task at the front closes a live connection, which is there once.
front_live :
    (w : World) (fd c : ℕ) (rest : List (ℕ × ℕ))
    → IsConsistent w
    → w.tasks ≡ (fd, c) ∷ rest
    → (as_pair fd c w.live ≡ 1) × (as_second c w.live ≡ 1)
front_live w fd c rest v e =
    let listed : 1 ≤ as_pair fd c w.tasks = ground (arith, ap (as_pair fd c) e, self fd, self c) in
    let pair : as_pair fd c w.live ≡ 1 =
      omega (arith, listed, v.closing fd c, as_pair-le_first fd c w.live, v.descriptors fd) in
    (pair, ground (arith, pair, as_pair-le fd c w.live, v.once c, v.fresh c))

remove-IsConsistent :
    (w : World) (fd c : ℕ) (rest : List (ℕ × ℕ))
    → IsConsistent w
    → w.tasks ≡ (fd, c) ∷ rest
    → IsConsistent (record w {
      server = (remove_connection (fd, c) w.server).0;
      live = without c w.live;
      tasks = rest;
      destroyed = w.destroyed ++ (remove_connection (fd, c) w.server).1 ∷ [];
    })
unfolding remove_connection
remove-IsConsistent w fd c rest v e =
    let (pair, second) = front_live w fd c rest v e in
    let less = λ (k : ℕ). as_second-without k c w.live (omega (arith, second)) in
    record {
      held =
          ap (erase fd) v.held
          ∙ erase-without fd c w.live pair (v.descriptors fd) (omega (arith, second));
      descriptors = λ n. omega (arith, as_first-without n c w.live, v.descriptors n);
      fresh = λ k h. ground (arith, less k, times-append k w.destroyed (c ∷ []), v.fresh k);
      once = λ k h. ground (arith, less k, times-append k w.destroyed (c ∷ []), v.once k);
      closing = λ n k. elim (Bool-cases (c == k)) [
        | inl same ↦ ground (arith, ap (as_second k) e, v.closing_once k, as_pair-le n k rest)
        | inr other ↦
            ground (arith, ap (as_pair n k) e, as_pair-without n k c w.live other, v.closing n k)
      ];
      closing_once = λ k. omega (arith, ap (as_second k) e, v.closing_once k);
    }

-- What a server comes to, step by step
pub data Steps (w : World) : World → Type 0 where
  none_yet : Steps w w
  one_more : (u x : World) → Steps w u → Step u x → Steps w x

Step-IsConsistent : (w x : World) → Step w x → IsConsistent w → IsConsistent x
Step-IsConsistent w x (accept fd loop s new e) v = accept-IsConsistent w fd loop s v new e
Step-IsConsistent w x (close fd c there new) v = close-IsConsistent w fd c v there new
Step-IsConsistent w x (remove fd c rest e) v = remove-IsConsistent w fd c rest v e

Steps-IsConsistent : (w x : World) → IsConsistent w → Steps w x → IsConsistent x
Steps-IsConsistent w x v none_yet = v
Steps-IsConsistent w x v (one_more u y steps step) =
    Step-IsConsistent u x step (Steps-IsConsistent w u v steps)

-- A server before it accepted anything
abbrev pub start : TcpServer → World
start s = record { server = s; made = 0; live = []; tasks = []; destroyed = [] }

start-IsConsistent : (s : TcpServer) → s.connections ≡ [] → IsConsistent (start s)
start-IsConsistent s e = record {
  held = e;
  descriptors = λ fd. omega arith;
  fresh = λ c h. omega arith;
  once = λ c h. absurd (omega arith);
  closing = λ fd c. omega arith;
  closing_once = λ c. omega arith;
}

-- Whatever connections a server accepts, closes and removes, in any order that the system and the
-- connections allow: its map holds just the live connections, under their descriptors; each
-- connection it made is live or was destroyed, once; and its destructor, if it listens, destroys
-- those that are live.
pub Steps-Holds :
    (s : TcpServer) (w : World)
    → s.connections ≡ []
    → Steps (start s) w
    → IsConsistent w
      × (close_server w.server
          ≡ (if w.server.listens then (true, connections_of w.live) else (false, [])))
unfolding close_server
Steps-Holds s w e steps =
    let v = Steps-IsConsistent (start s) w (start-IsConsistent s e) steps in
    (v, ap (λ xs. if w.server.listens then (true, connections_of xs) else (false, [])) v.held)
