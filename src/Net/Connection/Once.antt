-- ===== src/Net/Connection/Once.antt =====
-- The connect, disconnect and close callbacks of a connection over the tasks of its life.
use libiak.Prelude.{
  ℕ, suc, ◌+◌, ◌≡◌, refl, Bool, true, false, List, [], ◌∷◌, ◌++◌, Option, none, some, arith,
  if-cases, if◌then◌else◌, inl,
}
use libiak.Net.Buffer.{BufferPool, take_buffer, IsValid}
use libiak.Net.ReadBuffers.{ReadBuffers}
use libiak.Net.ReadBuffers.Held.{IsReadable}
use libiak.Net.WriteBuffers.{WriteBuffers}
use libiak.Net.WriteBuffers.WriteData.{IsWritable, IsPool}
use libiak.Net.Connection.{
  Connection, Task, establish_task, shutdown_task, close_task, destroy_task, Called, connect_called,
  disconnect_called, close_called, shutdown_in_loop, destroy_in_loop, on_close, establish_in_loop,
  run_task, run_tasks,
}

abbrev pub once : Bool → ℕ
once b = if b then 1 else 0

abbrev pub connects : List Called → ℕ
connects [] = 0
connects (connect_called ∷ cs) = suc (connects cs)
connects (disconnect_called ∷ cs) = connects cs
connects (close_called ∷ cs) = connects cs

abbrev pub disconnects : List Called → ℕ
disconnects [] = 0
disconnects (connect_called ∷ cs) = disconnects cs
disconnects (disconnect_called ∷ cs) = suc (disconnects cs)
disconnects (close_called ∷ cs) = disconnects cs

abbrev pub closes : List Called → ℕ
closes [] = 0
closes (connect_called ∷ cs) = closes cs
closes (disconnect_called ∷ cs) = closes cs
closes (close_called ∷ cs) = suc (closes cs)

connects-append : (xs ys : List Called) → connects (xs ++ ys) ≡ connects xs + connects ys
connects-append [] ys = omega arith
connects-append (connect_called ∷ xs) ys = omega (arith, connects-append xs ys)
connects-append (disconnect_called ∷ xs) ys = connects-append xs ys
connects-append (close_called ∷ xs) ys = connects-append xs ys

disconnects-append :
    (xs ys : List Called) → disconnects (xs ++ ys) ≡ disconnects xs + disconnects ys
disconnects-append [] ys = omega arith
disconnects-append (connect_called ∷ xs) ys = disconnects-append xs ys
disconnects-append (disconnect_called ∷ xs) ys = omega (arith, disconnects-append xs ys)
disconnects-append (close_called ∷ xs) ys = disconnects-append xs ys

closes-append : (xs ys : List Called) → closes (xs ++ ys) ≡ closes xs + closes ys
closes-append [] ys = omega arith
closes-append (connect_called ∷ xs) ys = closes-append xs ys
closes-append (disconnect_called ∷ xs) ys = closes-append xs ys
closes-append (close_called ∷ xs) ys = omega (arith, closes-append xs ys)

-- The callbacks called on the way from one state to another are what its flags say.
pub record Counts (c c' : Connection) (called : List Called) : Type 0 where
  pub connected : once c.established + connects called ≡ once c'.established
  pub disconnected : once c.closed + disconnects called ≡ once c'.closed
  pub closing : once c.closed + closes called ≡ once c'.closed

abbrev pub ReadReady : Bool → Option ReadBuffers → Type 0
ReadReady false r = Unit {0}
ReadReady true none = ⊥
ReadReady true (some r) = IsReadable r

abbrev pub WriteReady : Bool → Option WriteBuffers → Type 0
WriteReady false w = Unit {0}
WriteReady true none = ⊥
WriteReady true (some w) = IsWritable w

-- An established connection has its buffers.
abbrev pub IsReady : Connection → Type 0
IsReady c = ReadReady c.established c.reads × WriteReady c.established c.writes

module _ (new_chars : ℕ → List ℕ) (pool : BufferPool) (p : IsPool new_chars pool) where
  take_buffer-IsValid : IsValid (take_buffer new_chars pool)
  unfolding take_buffer
  take_buffer-IsValid = record {
    storage = p.allocates;
    some_room = p.some_room;
    small = p.small;
    count_in = omega arith;
    pop_in = omega arith;
    push_in = omega arith;
    range = inl refl;
  }

  run_task-Counts :
      (t : Task) (c : Connection)
      → IsReady c
      → let (c', called) = run_task new_chars pool t c in Counts c c' called × IsReady c'
  unfolding run_task establish_in_loop shutdown_in_loop destroy_in_loop on_close take_buffer
  run_task-Counts establish_task c r =
      if-cases c.established (λ (o : Connection × List Called). Counts c o.0 o.1 × IsReady o.0) _ _
        (λ e. (
          record { connected = omega arith; disconnected = omega arith; closing = omega arith },
          r,
        ))
        (λ e. (
          record { connected = rw e refl; disconnected = omega arith; closing = omega arith },
          (
            record { chain = take_buffer-IsValid; sized = refl; small = omega arith },
            record { chain = take_buffer-IsValid; sized = refl },
          ),
        ))
  run_task-Counts shutdown_task c r =
      (record { connected = omega arith; disconnected = omega arith; closing = omega arith }, r)
  run_task-Counts close_task c r =
      if-cases c.closed (λ (o : Connection × List Called). Counts c o.0 o.1 × IsReady o.0) _ _
        (λ e. (
          record { connected = omega arith; disconnected = omega arith; closing = omega arith },
          r,
        ))
        (λ e.
          (record { connected = omega arith; disconnected = rw e refl; closing = rw e refl }, r))
  run_task-Counts destroy_task c r =
      (record { connected = omega arith; disconnected = omega arith; closing = omega arith }, r)

  -- Whatever of these four tasks of a connection run, in whatever order (establishInLoop,
  -- shutdownInLoop, onClose and destroyInLoop): the connect callback, the disconnect callback and the
  -- close callback are called as often as the flags of the connection change, so at most once each;
  -- establishing makes well-formed buffers, and none of the four leaves others.
  pub run_tasks-Counts :
      (ts : List Task) (c : Connection)
      → IsReady c
      → let (c', called) = run_tasks new_chars pool ts c in Counts c c' called × IsReady c'
  unfolding run_tasks
  run_tasks-Counts [] c r =
      (record { connected = omega arith; disconnected = omega arith; closing = omega arith }, r)
  run_tasks-Counts (t ∷ ts) c r =
      let (k, r') = run_task-Counts t c r in
      let (k', r'') = run_tasks-Counts ts (run_task new_chars pool t c).0 r' in
      let called = (run_task new_chars pool t c).1 in
      let more = (run_tasks new_chars pool ts (run_task new_chars pool t c).0).1 in
      (
        record {
          connected = omega (arith, k.connected, k'.connected, connects-append called more);
          disconnected =
              omega (arith, k.disconnected, k'.disconnected, disconnects-append called more);
          closing = omega (arith, k.closing, k'.closing, closes-append called more);
        },
        r'',
      )
