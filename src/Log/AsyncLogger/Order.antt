-- ===== src/Log/AsyncLogger/Order.antt =====
-- No line is lost, reordered or split by the hand-over to the writing thread, and no null pointer or
-- empty vector is read.
use mathlib.Core.Path.{subst}
use libiak.Prelude.{
  ℕ, suc, ◌+◌, ◌-◌, ◌≤◌, ◌≡◌, inl, inr, refl, sym, ap, ◌∙◌, true, false, List, [], ◌∷◌, ◌++◌,
  Option, none, some, length, ltb, if◌then◌else◌, arith, append-nil, append_assoc, Bool-cases,
  ◌>>=◌, ltb→lt, lt→ltb, ltb→le, length-append,
}
use libiak.Log.AsyncLogger.{
  AsyncLogger, LogBuffer, Phase, idle, swapped, avail, append_bytes, new_logger, or_new,
  append_current, append_to_buffer, exchange, swap_buffers, pop_back, refill, joined, write_buffers,
  act, run, swap_current,
}

abbrev pub or_nothing : Option LogBuffer → List ℕ
or_nothing none = []
or_nothing (some b) = b

-- All bytes on their way, the oldest first.
abbrev pub stream : AsyncLogger → List ℕ
stream s = s.written ++ (joined s.to_write ++ (joined s.buffers ++ or_nothing s.current))

-- A pointer that is null, or a buffer with nothing in it.
abbrev pub IsClear : Option LogBuffer → Type 0
IsClear none = Unit {0}
IsClear (some b) = b ≡ []

abbrev pub missing : Option LogBuffer → ℕ
missing none = 1
missing (some b) = 0

abbrev pub InPhase : Phase → Option LogBuffer → Option LogBuffer → List LogBuffer → Type 0
InPhase idle b1 b2 to_write = (missing b1 ≡ 0) × (missing b2 ≡ 0) × (to_write ≡ [])
InPhase swapped b1 b2 to_write = missing b1 + missing b2 ≤ length to_write

pub record IsSound (s : AsyncLogger) : Type 0 where
  pub has_current : missing s.current ≡ 0
  pub next_clear : IsClear s.next
  pub buffer1_clear : IsClear s.buffer1
  pub buffer2_clear : IsClear s.buffer2
  pub next_used : missing s.next ≤ length s.buffers
  pub in_phase : InPhase s.phase s.buffer1 s.buffer2 s.to_write

joined-append : (xs ys : List LogBuffer) → joined (xs ++ ys) ≡ joined xs ++ joined ys
joined-append [] ys = refl
joined-append (x ∷ xs) ys =
    ap (λ bs. x ++ bs) (joined-append xs ys) ∙ sym (append_assoc x (joined xs) (joined ys))

-- A line that fits into an empty buffer is appended; a longer one is dropped.
abbrev pub accepted : ℕ → Option (List ℕ) → List ℕ
accepted size none = []
accepted size (some line) = if ltb (length line) size then line else []

-- A step ends, sound, with the line behind the bytes that were on their way.
abbrev pub Goes : ℕ → Option (List ℕ) → AsyncLogger → Option AsyncLogger → Type 0
Goes size a s none = ⊥
Goes size a s (some s') = (stream s' ≡ stream s ++ accepted size a) × IsSound s'

append_bytes-nil :
    (size : ℕ) (next : Option LogBuffer) (line : List ℕ)
    → IsClear next
    → append_bytes size (or_new next) line ≡ accepted size (some line)
unfolding append_bytes
append_bytes-nil size none line c = let all : size - 0 ≡ size = omega arith in rw all
append_bytes-nil size (some b) line c = let all : size - 0 ≡ size = omega arith in rw (c, all)

module _ (size : ℕ) (line : List ℕ) (b : LogBuffer) (s : AsyncLogger) where
  -- The line goes behind the bytes of the current buffer.
  fits-stream :
      ltb (length line) (avail size b) ≡ true
      → s.written ++ (joined s.to_write ++ (joined s.buffers ++ append_bytes size b line))
        ≡ (s.written ++ (joined s.to_write ++ (joined s.buffers ++ b))) ++ accepted size (some line)
  unfolding append_bytes
  fits-stream e =
      let short : ltb (length line) size ≡ true = lt→ltb _ _ (omega (arith, ltb→lt _ _ e)) in
      rw (e, short) (simp append_assoc)

  -- The current buffer is full, and the line goes into the next.
  full-stream :
      IsClear s.next
      → s.written
          ++ (joined s.to_write
              ++ (joined (s.buffers ++ b ∷ []) ++ append_bytes size (or_new s.next) line))
        ≡ (s.written ++ (joined s.to_write ++ (joined s.buffers ++ b))) ++ accepted size (some line)
  full-stream c =
      rw (append_bytes-nil size s.next line c, joined-append s.buffers (b ∷ []))
        (simp (append_assoc, append-nil))

append_current-Goes :
    (size : ℕ) (line b : List ℕ) (s : AsyncLogger)
    → IsSound s
    → s.current ≡ some b
    → Goes size (some line) s (some (append_current size line b s))
unfolding append_current
append_current-Goes size line b s v e =
    let stands =
      ap
        (λ cur.
          (s.written ++ (joined s.to_write ++ (joined s.buffers ++ or_nothing cur)))
          ++ accepted size (some line))
        (sym e) in
    elim (Bool-cases (ltb (length line) (avail size b))) [
      | inl fits ↦ rw fits (
        fits-stream size line b s fits ∙ stands,
        record {
          has_current = refl;
          next_clear = v.next_clear;
          buffer1_clear = v.buffer1_clear;
          buffer2_clear = v.buffer2_clear;
          next_used = v.next_used;
          in_phase = v.in_phase;
        },
      )
      | inr full ↦ rw full (
        full-stream size line b s v.next_clear ∙ stands,
        record {
          has_current = refl;
          next_clear = tt;
          buffer1_clear = v.buffer1_clear;
          buffer2_clear = v.buffer2_clear;
          next_used = omega (arith, length-append s.buffers (b ∷ []));
          in_phase = v.in_phase;
        },
      )
    ]

-- A pointer that is not null has a buffer.
present :
    (size : ℕ) (a : Option (List ℕ)) (s : AsyncLogger) (f : LogBuffer → Option AsyncLogger)
    (p : Option LogBuffer)
    → missing p ≡ 0
    → ((b : LogBuffer) → p ≡ some b → Goes size a s (f b))
    → Goes size a s (p >>= f)
present size a s f none h k = absurd (omega arith)
present size a s f (some b) h k = k b refl

pub append-Goes :
    (size : ℕ) (line : List ℕ) (s : AsyncLogger)
    → IsSound s
    → Goes size (some line) s (append_to_buffer size line s)
unfolding append_to_buffer
append-Goes size line s v =
    present size (some line) s _ s.current v.has_current
      (λ b e. append_current-Goes size line b s v e)

-- The pointers after `if (!nextBuffer_) nextBuffer_.swap(buffer2_)` and the swap of the vectors.
exchange-IsSound :
    (s : AsyncLogger)
    → missing s.current ≡ 0
    → IsClear s.next
    → IsClear s.buffer1
    → IsClear s.buffer2
    → missing s.buffer2 ≡ 0
    → s.to_write ≡ []
    → missing s.buffer1 + missing s.next ≤ length s.buffers
    → IsSound (exchange s)
exchange-IsSound s c n b1 b2 has2 w used = pointers s.next n used
  where
    pointers :
        (next : Option LogBuffer)
        → IsClear next
        → missing s.buffer1 + missing next ≤ length s.buffers
        → IsSound (exchange (record s { next = next }))
    pointers none n used = record {
      has_current = c;
      next_clear = b2;
      buffer1_clear = b1;
      buffer2_clear = tt;
      next_used = omega arith;
      in_phase = used;
    }
    pointers (some d) n used = record {
      has_current = c;
      next_clear = n;
      buffer1_clear = b1;
      buffer2_clear = b2;
      next_used = omega arith;
      in_phase = omega arith;
    }

pub clear-nothing : (b : Option LogBuffer) → IsClear b → or_nothing b ≡ []
clear-nothing none c = refl
clear-nothing (some b) c = c

pub empty-nil : (b : LogBuffer) → ltb 0 (length b) ≡ false → b ≡ []
empty-nil [] e = refl
empty-nil (x ∷ b) e = absurd (omega (arith, ltb→le _ _ e))

pub swap_current-cases {ℓ} :
    (P : AsyncLogger → Type ℓ) (b : LogBuffer) (s : AsyncLogger)
    → (ltb 0 (length b) ≡ true
        → P (record s { buffers = s.buffers ++ b ∷ []; current = s.buffer1; buffer1 = none }))
    → (ltb 0 (length b) ≡ false → P s)
    → P (swap_current b s)
unfolding swap_current
swap_current-cases P b s full empty = elim (Bool-cases (ltb 0 (length b))) [
  | inl e ↦ rw e (full e)
  | inr e ↦ rw e (empty e)
]

swap_current-Goes :
    (size : ℕ) (b : LogBuffer) (s : AsyncLogger)
    → IsSound s
    → InPhase idle s.buffer1 s.buffer2 s.to_write
    → s.current ≡ some b
    → Goes size none s (some (exchange (swap_current b s)))
swap_current-Goes size b s v (p1, p2, w) e =
    let nothing_to_write = ap joined w in
    let here = ap or_nothing e in
    swap_current-cases (λ x. Goes size none s (some (exchange x))) b s
      (λ full. (
        rw
            (
              nothing_to_write,
              here,
              joined-append s.buffers (b ∷ []),
              clear-nothing s.buffer1 v.buffer1_clear,
            )
            (simp (append_assoc, append-nil)),
        exchange-IsSound
            (record s { buffers = s.buffers ++ b ∷ []; current = s.buffer1; buffer1 = none }) p1
            v.next_clear tt v.buffer2_clear p2 w
            (omega (arith, v.next_used, length-append s.buffers (b ∷ []))),
      ))
      (λ empty. (
        rw nothing_to_write (simp append-nil),
        exchange-IsSound s v.has_current v.next_clear v.buffer1_clear v.buffer2_clear p2 w
            (omega (arith, v.next_used, p1)),
      ))

pub swap-Goes :
    (size : ℕ) (s : AsyncLogger)
    → IsSound s
    → InPhase idle s.buffer1 s.buffer2 s.to_write
    → Goes size none s (swap_buffers s)
unfolding swap_buffers
swap-Goes size s v p =
    present size none s _ s.current v.has_current (λ b e. swap_current-Goes size b s v p e)

length-pop_back : (b : LogBuffer) (bs : List LogBuffer) → length (pop_back b bs) ≡ length bs
length-pop_back b [] = refl
length-pop_back b (d ∷ ds) = ap suc (length-pop_back d ds)

-- A buffer is found for a null pointer, as long as the vector is not empty.
refill-keeps :
    (b : Option LogBuffer) (bs : List LogBuffer)
    → missing b ≤ length bs
    → IsClear b
    → (d : LogBuffer) × (rest : List LogBuffer) × (refill b bs ≡ some (d, rest))
      × (length rest + missing b ≡ length bs)
      × (d ≡ [])
unfolding refill
refill-keeps (some b) bs h c = (b, bs, refl, omega arith, c)
refill-keeps none [] h c = absurd (omega arith)
refill-keeps none (b ∷ bs) h c =
    ([], pop_back b bs, refl, omega (arith, length-pop_back b bs), refl)

pub write-Goes :
    (size : ℕ) (s : AsyncLogger)
    → IsSound s
    → InPhase swapped s.buffer1 s.buffer2 s.to_write
    → Goes size none s (write_buffers s)
unfolding write_buffers
write-Goes size s v p =
    let (b1, rest, e1, l1, c1) = refill-keeps s.buffer1 s.to_write (omega arith) v.buffer1_clear in
    let (b2, left, e2, l2, c2) = refill-keeps s.buffer2 rest (omega arith) v.buffer2_clear in
    rw (e1, e2)
      (
        simp (append_assoc, append-nil),
        record {
          has_current = v.has_current;
          next_clear = v.next_clear;
          buffer1_clear = c1;
          buffer2_clear = c2;
          next_used = v.next_used;
          in_phase = (refl, refl, refl);
        },
      )

-- The writing thread goes on from where it is.
writer-Goes :
    (size : ℕ) (s : AsyncLogger) (p : Phase)
    → IsSound s
    → InPhase p s.buffer1 s.buffer2 s.to_write
    → Goes size none s (elim p [ idle ↦ swap_buffers s | swapped ↦ write_buffers s ])
writer-Goes size s idle v h = swap-Goes size s v h
writer-Goes size s swapped v h = write-Goes size s v h

pub act-Goes :
    (size : ℕ) (a : Option (List ℕ)) (s : AsyncLogger) → IsSound s → Goes size a s (act size a s)
unfolding act
act-Goes size (some line) s v = append-Goes size line s v
act-Goes size none s v = writer-Goes size s s.phase v v.in_phase

-- The bytes of the lines that are appended, in their order; a line that does not fit into an empty
-- buffer counts for nothing.
abbrev pub lines : ℕ → List (Option (List ℕ)) → List ℕ
lines size [] = []
lines size (a ∷ acts) = accepted size a ++ lines size acts

-- A run ends, sound, with these bytes on their way.
abbrev pub Arrives : List ℕ → Option AsyncLogger → Type 0
Arrives bytes none = ⊥
Arrives bytes (some s) = (stream s ≡ bytes) × IsSound s

-- Any interleaving of threads that append lines with the writing thread, from a sound state, runs
-- without reading a null pointer or the end of an empty vector, and ends in a sound state; the bytes
-- written, being written and still buffered, in this order, are those at the start followed by the
-- appended lines in the order of their appends, less the lines that do not fit an empty buffer.
pub run-Arrives :
    (size : ℕ) (acts : List (Option (List ℕ))) (s : AsyncLogger)
    → IsSound s
    → Arrives (stream s ++ lines size acts) (run size acts s)
unfolding run
run-Arrives size [] s v = (sym (append-nil (stream s)), v)
run-Arrives size (a ∷ acts) s v =
    step (act size a s) (act-Goes size a s v) (λ s' w. run-Arrives size acts s' w)
  where
    step :
        (r : Option AsyncLogger)
        → Goes size a s r
        → ((s' : AsyncLogger)
            → IsSound s'
            → Arrives (stream s' ++ lines size acts) (run size acts s'))
        → Arrives (stream s ++ (accepted size a ++ lines size acts)) (r >>= run size acts)
    step none bad rest = elim bad [ ]
    step (some s') (e, w) rest =
        subst (λ bytes. Arrives bytes (run size acts s'))
          (ap (λ xs. xs ++ lines size acts) e
            ∙ append_assoc (stream s) (accepted size a) (lines size acts))
          (rest s' w)

pub new_logger-IsSound : IsSound new_logger
unfolding new_logger
new_logger-IsSound = record {
  has_current = refl;
  next_clear = refl;
  buffer1_clear = refl;
  buffer2_clear = refl;
  next_used = omega arith;
  in_phase = (refl, refl, refl);
}
