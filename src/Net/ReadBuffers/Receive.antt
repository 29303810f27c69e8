-- ===== src/Net/ReadBuffers/Receive.antt =====
-- A round of onRead stores what it received behind the bytes that the connection holds.
use native.Mathlib.Nat.{mod-eq_of_lt, mod-eq-sub-mod}
use mathlib.Core.Path.{subst}
use libiak.Prelude.{
  ℕ, ◌<◌, ◌≤◌, ◌≡◌, ◌^◌, ◌+◌, ◌-◌, ◌%◌, ◌⊎◌, ◌↔◌, inl, inr, refl, sym, ap, ap₂, ◌∙◌, List, [], ◌∷◌,
  ◌++◌, take, drop, length, arith, ltb, ltb→lt, ltb→le, Bool-cases, if◌then◌else◌, u32, add32,
  sub32, lt→ltb, le→ltb, length-append, length-drop, length-take, take-append-take,
  take-append-drop, take_all, append-nil, append_assoc,
}
use libiak.Net.Buffer.{Buffer, IsValid, at, window, contents, put}
use libiak.Net.Buffer.Copy.{put-nil}
use libiak.Net.Buffer.Store.{stored, Fits}
use libiak.Net.Buffer.Extends.{Extends, Extends-stored, Extends-put}
use libiak.Net.Buffer.Chain.{
  held, IsChain, held-append, IsChain-append, held-tail, IsChain-tail, tail-IsValid,
}
use libiak.Net.ReadBuffers.{
  ReadBuffers, room, room_size, scatter, fill, receive, received, again, not_readable,
}
use libiak.Net.ReadBuffers.Held.{IsReadable}

-- The segments of the tail cover its room.
pub room_size-eq : (b : Buffer) → IsValid b → room_size (room b) ≡ b.capacity - b.count
unfolding room
room_size-eq b v = ground (arith, v.small, v.count_in, v.push_in, v.pop_in, v.range)

room-full : (b : Buffer) → IsValid b → b.count ≡ b.capacity → room b ≡ []
unfolding room
room-full b v e = ground (arith, v.small)

-- What readv stores into the tail, as one or two copies: before and after the end of the block.
record Split (b : Buffer) (n : ℕ) (src : List ℕ) (bytes : List ℕ) : Type 0 where
  before : List ℕ
  after : List ℕ
  memory : bytes ≡ stored b before after
  joined : before ++ after ≡ take n src
  fits : Fits b before after

one_copy :
    (b : Buffer) (src : List ℕ) (n m : ℕ)
    → n ≡ m
    → b.count + n ≤ b.capacity
    → b.push + n ≤ b.capacity
    → Split b m src (put b.buffer b.push (take n src))
one_copy b src n m e h k = record {
  before = take n src;
  after = [];
  memory = sym (put-nil (put b.buffer b.push (take n src)));
  joined = append-nil (take n src) ∙ ap (λ i. take i src) e;
  fits = omega (arith, length-take n src);
}

two_copies :
    (b : Buffer) (src : List ℕ) (n m k : ℕ)
    → n + m ≡ k
    → b.count + n + m ≤ b.capacity
    → b.push + n ≡ b.capacity
    → Split b k src (put (put b.buffer b.push (take n src)) 0 (take m (drop n src)))
two_copies b src n m k e h f = record {
  before = take n src;
  after = take m (drop n src);
  memory = refl;
  joined = take-append-take n m src ∙ ap (λ i. take i src) e;
  fits = record {
    room = omega (arith, length-take n src, length-take m (drop n src));
    first = omega (arith, length-take n src);
    second = after_end;
  };
}
  where
    after_end : (length (take m (drop n src)) ≡ 0) ⊎ (b.push + length (take n src) ≡ b.capacity)
    after_end =
        let l1 = length-take n src in
        let l2 = length-take m (drop n src) in
        let l3 = length-drop n src in
        elim (Bool-cases (ltb (length src) n)) [
          | inl short ↦ let lt : length src < n = ltb→lt _ _ short in inl (omega (arith, l2, l3))
          | inr long ↦ let le : n ≤ length src = ltb→le _ _ long in inr (omega (arith, l1))
        ]

scatter-Split :
    (b : Buffer) (src : List ℕ)
    → IsValid b
    → b.count < b.capacity
    → Split b (b.capacity - b.count) src (scatter b.buffer (room b) src)
unfolding scatter room
scatter-Split b src v h =
    let some_left : 0 < sub32 b.capacity b.count = omega (arith, v.small) in
    let left : sub32 b.capacity b.count ≡ b.capacity - b.count = omega (arith, v.small) in
    let rear : sub32 b.capacity b.push ≡ b.capacity - b.push = omega (arith, v.small, v.push_in) in
    rw (lt→ltb _ _ some_left) (elim (Bool-cases (ltb b.push b.pop)) [
      | inl e ↦
          let lt : b.push < b.pop = ltb→lt _ _ e in
          rw (e, left)
            (one_copy b src (b.capacity - b.count) (b.capacity - b.count) refl (omega arith)
              (omega (arith, v.range, v.pop_in)))
      | inr e ↦
          let le : b.pop ≤ b.push = ltb→le _ _ e in
          rw (e, rear)
            (elim (Bool-cases (ltb 0 b.pop)) [
              | inl behind ↦ rw behind (
                  two_copies b src (b.capacity - b.push) b.pop (b.capacity - b.count)
                    (omega (arith, v.range, v.push_in)) (omega (arith, v.range, v.push_in))
                    (omega (arith, v.push_in)))
              | inr begin ↦
                  let zero_pop : b.pop ≤ 0 = ltb→le _ _ begin in
                  rw begin (
                    one_copy b src (b.capacity - b.push) (b.capacity - b.count)
                      (omega (arith, v.range, v.push_in)) (omega (arith, v.range, v.push_in))
                      (omega (arith, v.push_in)))
            ])
    ])

-- The memory of the tail after readv.
abbrev after_readv : Buffer → List ℕ → Buffer
after_readv b src = record b { buffer = scatter b.buffer (room b) src }

-- With counters that agree, the tail then holds what it held and what fitted into it.
Split-Extends :
    (b : Buffer) (src : List ℕ) (push count : ℕ)
    → IsValid b
    → Split b (b.capacity - b.count) src (scatter b.buffer (room b) src)
    → count ≡ b.count + length (take (b.capacity - b.count) src)
    → push ≤ b.capacity
    → (push ≡ b.pop + count) ⊎ (push + b.capacity ≡ b.pop + count)
    → Extends b
        (record (after_readv b src) { push = push; count = count })
        (take (b.capacity - b.count) src)
Split-Extends b src push count v s c p r = rw (← s.memory) at (
    Extends-stored b s.before s.after (take (b.capacity - b.count) src) push count v s.fits s.joined
      (omega (arith, c, ap length s.joined, length-append s.before s.after)) p r)

-- The block behind the tail before it is used.
pub record IsFresh (b : Buffer) : Type 0 where
  pub valid : IsValid b
  pub no_count : b.count ≡ 0
  pub no_pop : b.pop ≡ 0
  pub no_push : b.push ≡ 0

fresh-Extends :
    (next : Buffer) (src : List ℕ) (n : ℕ)
    → IsFresh next
    → n ≡ length src
    → n ≤ next.capacity
    → (contents (record next { buffer = put next.buffer 0 src; count = n; push = n }) ≡ src)
      × IsValid (record next { buffer = put next.buffer 0 src; count = n; push = n })
fresh-Extends next src n f e h =
    let x =
      subst
        (λ off.
          Extends next (record next { buffer = put next.buffer off src; count = n; push = n }) src)
        f.no_push
        (Extends-put next src n n f.valid (omega (arith, f.no_push)) (omega (arith, f.no_count))
          (omega (arith, f.no_count)) (omega arith) (omega (arith, f.no_pop))) in
    (x.bytes ∙ ap (λ k. window (at next) next.pop k ++ src) f.no_count, x.valid)

-- What a round leaves of a chain that held `old`.
abbrev Left : List ℕ → List Buffer × Buffer → Type 0
Left bytes (front, tail) = (held front tail ≡ bytes) × IsChain front tail

Left-tail :
    (front : List Buffer) (tail tail' : Buffer) (more : List ℕ)
    → IsChain front tail
    → Extends tail tail' more
    → Left (held front tail ++ more) (front, tail')
Left-tail front tail tail' more c e =
    (held-tail front tail tail' more e.bytes, IsChain-tail front tail tail' c e.valid e.same_pop)

mod_wrapped :
    (n m : ℕ) → 0 < m → n < m + m → ((n % m ≡ n) × (n < m)) ⊎ ((n % m + m ≡ n) × (n % m < m))
mod_wrapped n m pos h = ground (
  arith,
  mod-eq_of_lt {n = n} {m = m},
  mod-eq-sub-mod {n = n} {m = m},
  mod-eq_of_lt {n = n - m} {m = m},
)

-- "fill tail": less than the room of the tail came in.
fill-less :
    (front : List Buffer) (tail : Buffer) (src : List ℕ)
    → IsChain front tail
    → length src < tail.capacity - tail.count
    → Left (held front tail ++ src) (
      front,
      record (after_readv tail src) {
        push = add32 tail.push (u32 (length src)) % tail.capacity;
        count = add32 tail.count (u32 (length src));
      },
    )
fill-less front tail src c h =
    let v = tail-IsValid front tail c in
    let all : take (tail.capacity - tail.count) src ≡ src = take_all _ src (omega arith) in
    let plain : add32 tail.push (u32 (length src)) ≡ tail.push + length src =
      omega (arith, v.small, v.push_in) in
    let wrap =
      mod_wrapped (tail.push + length src) tail.capacity v.some_room (omega (arith, v.push_in)) in
    rw plain (
      Left-tail front tail _ src c (
        rw all at (
          Split-Extends tail src ((tail.push + length src) % tail.capacity)
            (add32 tail.count (u32 (length src))) v (scatter-Split tail src v (omega arith))
            (omega (arith, v.small, ap length all)) (omega (arith, wrap))
            (omega (arith, wrap, v.range, v.push_in, v.pop_in, v.count_in, v.small)))))

full-Extends :
    (b : Buffer) (src : List ℕ)
    → IsValid b
    → b.capacity - b.count ≤ length src
    → Extends b
        (record (after_readv b src) { push = b.pop; count = b.capacity })
        (take (b.capacity - b.count) src)
unfolding scatter
full-Extends b src v h = elim (Bool-cases (ltb b.count b.capacity)) [
  | inl some_left ↦
      Split-Extends b src b.pop b.capacity v (scatter-Split b src v (ltb→lt _ _ some_left))
        (omega (arith, v.count_in, length-take (b.capacity - b.count) src)) v.pop_in (inr refl)
  | inr none_left ↦
      let full : b.count ≡ b.capacity = omega (arith, ltb→le _ _ none_left, v.count_in) in
      let nothing : b.capacity - b.count ≡ 0 = omega arith in
      rw (room-full b v full, nothing)
        (record {
          valid = record {
            storage = v.storage;
            some_room = v.some_room;
            small = v.small;
            count_in = omega arith;
            pop_in = v.pop_in;
            push_in = v.pop_in;
            range = inr refl;
          };
          bytes = ap (window (at b) b.pop) (sym full) ∙ sym (append-nil (contents b));
          same_pop = refl;
        })
]

-- "tail full"
fill-full :
    (front : List Buffer) (tail : Buffer) (src : List ℕ)
    → IsChain front tail
    → tail.capacity - tail.count ≤ length src
    → Left
        (held front tail ++ take (tail.capacity - tail.count) src)
        (front, record (after_readv tail src) { push = tail.pop; count = tail.capacity })
fill-full front tail src c h =
    Left-tail front tail _ _ c (full-Extends tail src (tail-IsValid front tail c) h)

-- "fill next": the rest went into the block behind the tail.
fill-next :
    (front : List Buffer) (tail next : Buffer) (src : List ℕ) (n : ℕ)
    → IsChain front tail
    → IsFresh next
    → n ≡ length src - (tail.capacity - tail.count)
    → 0 < n
    → n ≤ next.capacity
    → Left (held front tail ++ src) (
      front ++ record (after_readv tail src) { push = tail.pop; count = tail.capacity } ∷ [],
      record next {
        buffer = put next.buffer 0 (drop (tail.capacity - tail.count) src);
        count = n;
        push = n;
      },
    )
fill-next front tail next src n c f e pos h =
    let full = record (after_readv tail src) { push = tail.pop; count = tail.capacity } in
    let step = fill-full front tail src c (omega arith) in
    let rear = tail.capacity - tail.count in
    let last = fresh-Extends next (drop rear src) n f (omega (arith, length-drop rear src)) h in
    (
      held-append front full _
          ∙ ap₂ ◌++◌ step.0 last.0
          ∙ append_assoc (held front tail) (take rear src) (drop rear src)
          ∙ ap (λ bytes. held front tail ++ bytes) (take-append-drop rear src),
      IsChain-append front full _ step.1 last.1 f.no_pop,
    )

fill-Left :
    (front : List Buffer) (tail next : Buffer) (src : List ℕ)
    → IsChain front tail
    → IsFresh next
    → 0 < length src
    → length src ≤ tail.capacity - tail.count + next.capacity
    → let (full, tail', spare) =
        fill
          (length src)
          (after_readv tail src)
          (record next { buffer = put next.buffer 0 (drop (room_size (room tail)) src) }) in
      Left (held front tail ++ src) (front ++ full, tail')
unfolding fill
fill-Left front tail next src c f pos h =
    let v = tail-IsValid front tail c in
    let rear : sub32 tail.capacity tail.count ≡ tail.capacity - tail.count =
      omega (arith, v.small, v.count_in) in
    rw (room_size-eq tail v, rear)
      (elim (Bool-cases (ltb (length src) (tail.capacity - tail.count))) [
        | inl less ↦ rw (less, append-nil) (fill-less front tail src c (ltb→lt _ _ less))
        | inr enough ↦
            let le = ltb→le _ _ enough in
            rw enough (elim (Bool-cases (ltb (tail.capacity - tail.count) (length src))) [
              | inl more ↦
                  let lt = ltb→lt _ _ more in
                  rw more (
                    fill-next front tail next src
                      (sub32 (u32 (length src)) (tail.capacity - tail.count)) c f
                      (omega (arith, v.small, f.valid.small))
                      (omega (arith, v.small, f.valid.small))
                      (omega (arith, v.small, f.valid.small)))
              | inr exact ↦
                  let all : take (tail.capacity - tail.count) src ≡ src =
                    take_all _ src (ltb→le _ _ exact) in
                  rw (exact, append-nil) (rw all at (fill-full front tail src c le))
            ])
      ])

stops_short : (n m : ℕ) → n ≤ m → ((if ltb n m then not_readable else again) ≡ again) ↔ (n ≡ m)
stops_short n m h = ground arith

-- A round of onRead that received `src`, at least one byte and no more than what was offered to
-- readv, stores it behind the bytes held before, which it keeps; the chain stays well formed and
-- `readSize_` stays its byte count; and the loop goes on exactly if all that was offered was used.
pub receive_lem :
    (src : List ℕ) (next : Buffer) (r : ReadBuffers)
    → IsReadable r
    → IsFresh next
    → 0 < length src
    → length src ≤ room_size (room r.tail) + next.capacity
    → r.size + length src < 2 ^ 32
    → let (r', round) = receive (received src) next r in
      (held r'.front r'.tail ≡ held r.front r.tail ++ src)
      × IsReadable r'
      × ((round ≡ again) ↔ (length src ≡ room_size (room r.tail) + next.capacity))
unfolding receive
receive_lem src next r v f pos h small =
    let t = tail-IsValid r.front r.tail v.chain in
    let e = room_size-eq r.tail t in
    let l = fill-Left r.front r.tail next src v.chain f pos (omega arith) in
    let size : add32 (sub32 r.tail.capacity r.tail.count) next.capacity
        ≡ room_size (room r.tail) + next.capacity =
      omega (arith, t.small, t.count_in, f.valid.small) in
    rw (size, le→ltb _ _ h)
      (
        l.0,
        record {
          chain = l.1;
          sized = omega (arith, v.sized, ap length l.0, length-append (held r.front r.tail) src);
          small = omega arith;
        },
        stops_short (length src) (room_size (room r.tail) + next.capacity) h,
      )
