-- ===== src/Net/WriteBuffers/WriteData.antt =====
-- writeData over the whole chain: the loop that takes new blocks ends, and all bytes are kept.
use mathlib.Core.Path.{subst}
use libiak.Prelude.{
  ℕ, zero, suc, ◌<◌, ◌≤◌, ◌≡◌, ◌^◌, ◌+◌, ◌-◌, ◌⊎◌, refl, sym, ap, ◌∙◌, List, [], ◌∷◌, ◌++◌, Option,
  none, some, true, take, drop, length, arith, ltb, ltb→lt, ltb→le, Bool-cases, ◌==◌, ==→eq, inl,
  inr, u32, sub32, Bool, length-append, length-take, length-drop, take-append-drop, take_all,
  append-nil, append_assoc,
}
use libiak.Net.Buffer.{Buffer, BufferPool, take_buffer, IsValid, put}
use libiak.Net.Buffer.Chain.{
  held, IsChain, held-append, IsChain-append, held-tail, IsChain-tail, tail-IsValid,
}
use libiak.Net.WriteBuffers.{
  WriteBuffers, write_tail, fill_tail, write_more, grown, write_chain, write_data,
}
use libiak.Net.Buffer.Extends.{Extends, Extends-put}
use libiak.Net.WriteBuffers.Append.{write_tail-Extends, fill_tail-Extends}

-- The byte count kept by the connection is the number of bytes held.
pub record IsWritable (w : WriteBuffers) : Type 0 where
  pub chain : IsChain w.front w.tail
  pub sized : w.size ≡ length (held w.front w.tail)

-- The chain then holds `old` and `src`.
abbrev Holds : List ℕ → Option (List Buffer × Buffer) → Type 0
Holds bytes none = ⊥
Holds bytes (some (front, tail)) = (held front tail ≡ bytes) × IsChain front tail

Holds-regroup :
    (old first rest src bytes : List ℕ) (r : Option (List Buffer × Buffer))
    → bytes ≡ old ++ first
    → first ++ rest ≡ src
    → Holds (bytes ++ rest) r
    → Holds (old ++ src) r
Holds-regroup old first rest src bytes r e f h =
    subst (λ xs. Holds xs r)
      (ap (λ xs. xs ++ rest) e ∙ append_assoc old first rest ∙ ap (λ xs. old ++ xs) f) h

-- What `new char[n]` and the pool of an event loop guarantee.
pub record IsPool (new_chars : ℕ → List ℕ) (pool : BufferPool) : Type 0 where
  pub allocates : length (new_chars pool.capacity) ≡ pool.capacity
  pub some_room : 0 < pool.capacity
  pub small : pool.capacity < 2 ^ 31

module _ (new_chars : ℕ → List ℕ) (pool : BufferPool) (p : IsPool new_chars pool) where
  pub take_buffer-IsValid : IsValid (take_buffer new_chars pool)
  unfolding take_buffer
  take_buffer-IsValid = omega (arith, p.allocates, p.some_room, p.small)

  -- A new block that gets `src`.
  fresh-Extends :
      (src : List ℕ) (push : ℕ)
      → length src ≤ pool.capacity
      → (push ≡ length src) ⊎ (push + pool.capacity ≡ length src)
      → Extends
          (take_buffer new_chars pool)
          (record (take_buffer new_chars pool) {
            buffer = put (take_buffer new_chars pool).buffer 0 src;
            push = push;
            count = length src;
          })
          src
  unfolding take_buffer
  fresh-Extends src push h r =
      Extends-put (take_buffer new_chars pool) src push (length src) take_buffer-IsValid
        (omega arith) (omega arith) (omega arith) (omega arith) (omega arith)

  -- A chain whose tail is followed by a block with `src`.
  Holds-append :
      (front : List Buffer) (tail last : Buffer) (src : List ℕ)
      → IsChain front tail
      → Extends (take_buffer new_chars pool) last src
      → Holds (held front tail ++ src) (some (front ++ tail ∷ [], last))
  unfolding take_buffer
  Holds-append front tail last src c e = (
    held-append front tail last ∙ ap (λ bytes. held front tail ++ bytes) e.bytes,
    IsChain-append front tail last c e.valid e.same_pop,
  )

  -- The loop ends with all bytes in the chain.
  write_more-Holds :
      (fuel : ℕ) (front : List Buffer) (tail : Buffer) (src : List ℕ)
      → IsChain front tail
      → length src < fuel
      → Holds (held front tail ++ src) (write_more new_chars pool fuel front tail src)
  unfolding write_more take_buffer
  write_more-Holds zero front tail src c h = absurd (omega arith)
  write_more-Holds (suc fuel) front tail src c h = elim (Bool-cases (length src == 0)) [
    | inl e ↦ rw e (no_bytes src (==→eq _ _ e))
    | inr e ↦ rw e (elim (Bool-cases (ltb pool.capacity (length src))) [
      | inl more ↦ rw more (
          let lt : pool.capacity < length src = ltb→lt _ _ more in
          let step = Holds-append front tail _ (take pool.capacity src) c (full_block lt) in
          Holds-regroup (held front tail) (take pool.capacity src) (drop pool.capacity src) src _ _
            step.0 (take-append-drop pool.capacity src)
            (write_more-Holds fuel _ _ (drop pool.capacity src) step.1
              (omega (arith, p.some_room, length-drop pool.capacity src))))
      | inr last ↦ rw last (
          Holds-append front tail _ src c
            (fresh-Extends src (length src) (ltb→le _ _ last) (inl refl)))
    ])
  ]
    where
      no_bytes : (s : List ℕ) → length s ≡ 0 → Holds (held front tail ++ s) (some (front, tail))
      no_bytes [] z = (sym (append-nil (held front tail)), c)
      no_bytes (x ∷ s) z = absurd (omega arith)

      full_block :
          pool.capacity < length src
          → Extends
              (take_buffer new_chars pool)
              (record (take_buffer new_chars pool) {
                buffer = put (take_buffer new_chars pool).buffer 0 (take pool.capacity src);
                push = 0;
                count = pool.capacity;
              })
              (take pool.capacity src)
      full_block lt =
          let size : length (take pool.capacity src) ≡ pool.capacity =
            omega (arith, length-take pool.capacity src) in
          rw size at (
            fresh-Extends (take pool.capacity src) 0 (omega (arith, size))
              (inr (omega (arith, size))))

  -- What writeData leaves: all bytes in order, a well-formed chain and the right byte count.
  abbrev pub Appended : List ℕ → WriteBuffers → Option (Bool × WriteBuffers) → Type 0
  Appended src w none = ⊥
  Appended src w (some (result, w')) =
      (result ≡ true) × (held w'.front w'.tail ≡ held w.front w.tail ++ src) × IsWritable w'

  grown-Appended :
      (src : List ℕ) (w : WriteBuffers) (r : Option (List Buffer × Buffer))
      → IsWritable w
      → w.size + length src < 2 ^ 64
      → Holds (held w.front w.tail ++ src) r
      → Appended src w (grown new_chars pool (length src) w r)
  grown-Appended src w none v h g = g
  grown-Appended src w (some (front, tail)) v h g = (
    refl,
    g.0,
    record {
      chain = g.1;
      sized = omega (arith, v.sized, ap length g.0, length-append (held w.front w.tail) src);
    },
  )

  -- A tail that took more bytes.
  Holds-tail :
      (front : List Buffer) (tail tail' : Buffer) (more : List ℕ)
      → IsChain front tail
      → Extends tail tail' more
      → Holds (held front tail ++ more) (some (front, tail'))
  Holds-tail front tail tail' more c e =
      (held-tail front tail tail' more e.bytes, IsChain-tail front tail tail' c e.valid e.same_pop)

  -- The room of the tail is filled, and the loop takes the rest.
  fill_and_more-Holds :
      (src : List ℕ) (front : List Buffer) (tail : Buffer) (room fuel : ℕ)
      → IsChain front tail
      → tail.count + room ≡ tail.capacity
      → room ≤ length src
      → length src < 2 ^ 32
      → length src < fuel
      → Holds (held front tail ++ src) (
          write_more new_chars pool fuel front
            (fill_tail tail room src)
            (take (sub32 (u32 (length src)) room) (drop room src)))
  fill_and_more-Holds src front tail room fuel c e h small enough =
      let v = tail-IsValid front tail c in
      let filled =
        Holds-tail front tail (fill_tail tail room src) (take room src) c
          (fill_tail-Extends tail room src v e h) in
      let all : take (sub32 (u32 (length src)) room) (drop room src) ≡ drop room src =
        take_all _ (drop room src) (omega (arith, length-drop room src)) in
      rw all (
        Holds-regroup (held front tail) (take room src) (drop room src) src _ _ filled.0
          (take-append-drop room src)
          (write_more-Holds fuel front (fill_tail tail room src) (drop room src) filled.1
            (omega (arith, length-drop room src))))

  write_chain-Holds :
      (src : List ℕ) (front : List Buffer) (tail : Buffer)
      → IsChain front tail
      → length src < 2 ^ 32
      → Holds (held front tail ++ src) (write_chain new_chars pool src front tail)
  unfolding write_chain
  write_chain-Holds src front tail c small =
      let v = tail-IsValid front tail c in
      let room = sub32 tail.capacity tail.count in
      let e : room ≡ tail.capacity - tail.count = omega (arith, v.count_in, v.small) in
      elim (Bool-cases (ltb (length src) room)) [
        | inl fits ↦ rw fits (
            Holds-tail front tail (write_tail tail src) src c
              (write_tail-Extends tail src v (omega (arith, ltb→lt _ _ fits))))
        | inr over ↦ rw over (elim (Bool-cases (ltb 0 room)) [
          | inl some_room ↦ rw some_room (
              fill_and_more-Holds src front tail room (suc (length src)) c
                (omega (arith, v.count_in)) (ltb→le _ _ over) small (omega arith))
          | inr full ↦
              let all : take (u32 (length src)) src ≡ src = take_all _ src (omega arith) in
              rw (full, all) (write_more-Holds (suc (length src)) front tail src c (omega arith))
        ])
      ]

  -- writeData of at least one byte and fewer than 2^32 returns true: its loop over new blocks ends,
  -- the bytes stand behind those that waited before, no byte that waited is touched, the chain
  -- stays well formed and `writeSize_` is its byte count, provided that the sum fits a size_t.
  pub write_data-Appended :
      (x : ℕ) (src : List ℕ) (w : WriteBuffers)
      → IsWritable w
      → length (x ∷ src) < 2 ^ 32
      → w.size + length (x ∷ src) < 2 ^ 64
      → Appended (x ∷ src) w (write_data new_chars pool (some (x ∷ src)) w)
  unfolding write_data
  write_data-Appended x src w v small h =
      grown-Appended (x ∷ src) w _ v h (write_chain-Holds (x ∷ src) w.front w.tail v.chain small)
