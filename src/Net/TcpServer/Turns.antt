-- ===== src/Net/TcpServer/Turns.antt =====
-- The loops of a pool take their turns.
use mathlib.Core.Path.{subst}
use native.Mathlib.Nat.{mod-add-mod, mod-lt}
use libiak.Prelude.{
  ℕ, zero, suc, ◌+◌, ◌%◌, ◌<◌, ◌^◌, ◌≡◌, refl, ap, sym, ◌∙◌, false, List, [], ◌∷◌, Option, some,
  get_elem?, length, ◌==◌, arith, ◌>>=◌, add32-eq, lt→ltb, ap₂,
}
use libiak.Net.TcpServer.{
  TcpServer, loops_from, new_pool, get_loop, next_index, choose_loop, assign, on_accept, accept_all,
}

loops_from-get_elem? : (first n i : ℕ) → i < n → get_elem? (loops_from first n) i ≡ some (first + i)
loops_from-get_elem? first zero i h = absurd (omega arith)
loops_from-get_elem? first (suc n) zero h = ap some (omega arith)
loops_from-get_elem? first (suc n) (suc i) h =
    loops_from-get_elem? (first + 1) n i (omega arith) ∙ ap some (omega arith)

-- A server with a pool of `count` loops
pub record HasPool (count : ℕ) (s : TcpServer) : Type 0 where
  pub pool : s.loop_thread_pool ≡ some (new_pool count)
  pub some_loop : 0 < count
  pub word : count < 2 ^ 32
  pub index : s.index_loop < count

-- The loops that come after the one of the index, round and round
abbrev pub turns : ℕ → ℕ → ℕ → List ℕ
turns count index zero = []
turns count index (suc n) = (index + 1) % count ∷ turns count (index + 1) n

turns-mod : (count index n : ℕ) → turns count (index % count) n ≡ turns count index n
turns-mod count index zero = refl
turns-mod count index (suc n) =
    let same = mod-add-mod index count 1 in
    ap₂ ◌∷◌ same (
      sym (turns-mod count (index % count + 1) n)
      ∙ ap (λ i. turns count i n) same
      ∙ turns-mod count (index + 1) n)

-- The server after it accepted a descriptor
abbrev pub accepted : ℕ → ℕ → ℕ → TcpServer → TcpServer
accepted count fd c s = record s {
  connections = assign fd c s.connections;
  index_loop = (s.index_loop + 1) % count;
}

on_accept_lem :
    (count fd c : ℕ) (s : TcpServer)
    → HasPool count s
    → on_accept fd c s ≡ some ((s.index_loop + 1) % count, accepted count fd c s)
unfolding on_accept choose_loop get_loop new_pool
on_accept_lem count fd c s v =
    let some_loops : (count == 0) ≡ false = ground (arith, v.some_loop) in
    let next : next_index s.index_loop count ≡ (s.index_loop + 1) % count =
      ap (λ i. i % count) (add32-eq s.index_loop 1 (omega (arith, v.index, v.word))) in
    let inside : (s.index_loop + 1) % count < count = mod-lt (s.index_loop + 1) v.some_loop in
    let same : 0 + (s.index_loop + 1) % count ≡ (s.index_loop + 1) % count = omega arith in
    rw
      (
        v.pool,
        some_loops,
        next,
        lt→ltb _ _ inside,
        loops_from-get_elem? 0 count _ inside ∙ ap some same,
      )
      refl

accepted-HasPool :
    (count fd c : ℕ) (s : TcpServer) → HasPool count s → HasPool count (accepted count fd c s)
accepted-HasPool count fd c s v = record {
  pool = v.pool;
  some_loop = v.some_loop;
  word = v.word;
  index = mod-lt (s.index_loop + 1) v.some_loop;
}

-- The loops given, and a server that has its pool still
pub data Gives (count : ℕ) (loops : List ℕ) : Option (List ℕ × TcpServer) → Type 0 where
  gives : (s : TcpServer) → HasPool count s → Gives count loops (some (loops, s))

-- A server with a pool of loops, as many as a word counts and at least one, gives the connections that
-- it accepts one after another to the loops of the pool in turn, beginning behind its index, round and
-- round; it never meets a null loop, and its index stays inside the pool.
pub accept_all-Gives :
    (count : ℕ) (fds : List ℕ) (c : ℕ) (s : TcpServer)
    → HasPool count s
    → Gives count (turns count s.index_loop (length fds)) (accept_all fds c s)
unfolding accept_all
accept_all-Gives count [] c s v = gives s v
accept_all-Gives count (fd ∷ fds) c s v =
    rw (on_accept_lem count fd c s v)
      (elim (accept_all-Gives count fds (suc c) (accepted count fd c s)
          (accepted-HasPool count fd c s v))
        as (λ o x.
          Gives count (turns count s.index_loop (suc (length fds)))
            (o >>= λ r. some ((s.index_loop + 1) % count ∷ r.0, r.1))) [
              | gives s' w ↦
                  subst
                    (λ ls. Gives count ls (
                      some (
                        (s.index_loop + 1) % count
                            ∷ turns count ((s.index_loop + 1) % count) (length fds),
                        s',
                      )))
                    (ap (◌∷◌ ((s.index_loop + 1) % count))
                      (turns-mod count (s.index_loop + 1) (length fds)))
                    (gives s' w)
            ])
