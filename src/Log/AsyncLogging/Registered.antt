-- ===== src/Log/AsyncLogging/Registered.antt =====
-- A logger is registered just while it has lines that the writing thread has not taken, so that its
-- swaps and writes alternate.
use mathlib.Core.Path.{subst}
use libiak.Prelude.{
  ℕ, ◌+◌, ◌≡◌, refl, Bool, true, false, List, [], ◌∷◌, ◌++◌, Option, none, some, length, ltb, ◌==◌,
  if◌then◌else◌, arith, append-nil, if-cases, ◌>>=◌,
}
use libiak.Log.AsyncLogger.{
  AsyncLogger, Phase, idle, swapped, avail, append_current, append_to_buffer, swap_buffers, refill,
  joined, write_buffers,
}
use libiak.Log.AsyncLogger.Order.{
  or_nothing, stream, IsSound, accepted, Goes, InPhase, IsClear, append-Goes, swap-Goes, write-Goes,
  swap_current-cases, clear-nothing, empty-nil,
}

-- How often a logger stands in a list.
abbrev pub times : ℕ → List ℕ → ℕ
times j [] = 0
times j (i ∷ is) = (if i == j then 1 else 0) + times j is

abbrev pub flag : Bool → ℕ
flag true = 1
flag false = 0

abbrev pub busy : Phase → ℕ
busy idle = 0
busy swapped = 1

-- The bytes of a logger that the writing thread has not taken
abbrev pub waiting : AsyncLogger → List ℕ
waiting s = joined s.buffers ++ or_nothing s.current

-- A logger that is registered `r` times, and is to be written `w` times
pub record Fits (r w : ℕ) (s : AsyncLogger) : Type 0 where
  pub sound : IsSound s
  pub flagged : r ≡ flag s.not_empty
  pub taken : w ≡ busy s.phase
  pub rest : r ≡ 0 → waiting s ≡ []

-- A step of one logger
pub data Steps (r w : ℕ) (bytes : List ℕ) : Option AsyncLogger → Type 0 where
  steps : (s : AsyncLogger) → Fits r w s → stream s ≡ bytes → Steps r w bytes (some s)

-- The flags and the waiting bytes of such a logger
abbrev Marked : ℕ → ℕ → AsyncLogger → Type 0
Marked r w x = (r ≡ flag x.not_empty) × (w ≡ busy x.phase) × (r ≡ 0 → waiting x ≡ [])

-- What a step does, if it ends
abbrev Ends : (AsyncLogger → Type 0) → Option AsyncLogger → Type 0
Ends P none = Unit {0}
Ends P (some s) = P s

Ends-bind {ℓ} :
    {A : Type ℓ} (P : AsyncLogger → Type 0) (p : Option A) (f : A → Option AsyncLogger)
    → ((b : A) → p ≡ some b → Ends P (f b))
    → Ends P (p >>= f)
Ends-bind P none f h = tt
Ends-bind P (some b) f h = h b refl

-- A step goes well, and leaves the flags and the waiting bytes as told.
Steps-both :
    (size : ℕ) (a : Option (List ℕ)) (s : AsyncLogger) (r w : ℕ) (o : Option AsyncLogger)
    → Goes size a s o
    → Ends (Marked r w) o
    → Steps r w (stream s ++ accepted size a) o
Steps-both size a s r w none bad e = elim bad [ ]
Steps-both size a s r w (some x) (kept, sound) (f, t, rest) =
    steps x (record { sound = sound; flagged = f; taken = t; rest = rest }) kept

pub busy-idle : (p : Phase) → 0 ≡ busy p → p ≡ idle
busy-idle idle e = refl
busy-idle swapped e = absurd (omega arith)

busy-swapped : (p : Phase) → 1 ≡ busy p → p ≡ swapped
busy-swapped idle e = absurd (omega arith)
busy-swapped swapped e = refl

pub phase-InPhase :
    (s : AsyncLogger) (p : Phase)
    → IsSound s
    → s.phase ≡ p
    → InPhase p s.buffer1 s.buffer2 s.to_write
phase-InPhase s p v e = subst (λ q. InPhase q s.buffer1 s.buffer2 s.to_write) e v.in_phase

append-Ends :
    (size : ℕ) (line : List ℕ) (s : AsyncLogger)
    → Ends (Marked 1 (busy s.phase)) (append_to_buffer size line s)
unfolding append_to_buffer append_current
append-Ends size line s = Ends-bind (Marked 1 (busy s.phase)) s.current _ (λ b e.
    if-cases (ltb (length line) (avail size b)) (Marked 1 (busy s.phase)) _ _
      (λ fits. (refl, refl, λ z. absurd (omega arith)))
      (λ full. (refl, refl, λ z. absurd (omega arith))))

pub append-Steps :
    (size : ℕ) (line : List ℕ) (r w : ℕ) (s : AsyncLogger)
    → Fits r w s
    → Steps 1 w (stream s ++ accepted size (some line)) (append_to_buffer size line s)
append-Steps size line r w s v = rw v.taken (
    Steps-both size (some line) s 1 (busy s.phase) (append_to_buffer size line s)
      (append-Goes size line s v.sound) (append-Ends size line s))

swap-Ends :
    (s : AsyncLogger) → IsClear s.buffer1 → s.to_write ≡ [] → Ends (Marked 0 1) (swap_buffers s)
unfolding swap_buffers
swap-Ends s clear none_left = Ends-bind (Marked 0 1) s.current _ (λ b e. (
  refl,
  refl,
  λ z.
      swap_current-cases (λ x. joined x.to_write ++ or_nothing x.current ≡ []) b s
        (λ full. rw none_left (clear-nothing s.buffer1 clear))
        (λ empty. rw (none_left, e) (empty-nil b empty)),
))

pub swap-Steps : (s : AsyncLogger) → Fits 1 0 s → Steps 0 1 (stream s) (swap_buffers s)
swap-Steps s v =
    let phase = phase-InPhase s idle v.sound (busy-idle s.phase v.taken) in
    subst (λ bytes. Steps 0 1 bytes (swap_buffers s)) (append-nil (stream s))
      (Steps-both 0 none s 0 1 (swap_buffers s) (swap-Goes 0 s v.sound phase)
        (swap-Ends s v.sound.buffer1_clear (phase.2)))

write-Ends : (r : ℕ) (s : AsyncLogger) → Fits r 1 s → Ends (Marked r 0) (write_buffers s)
unfolding write_buffers
write-Ends r s v = Ends-bind (Marked r 0) (refill s.buffer1 s.to_write) _ (λ one e.
    Ends-bind (Marked r 0) (refill s.buffer2 one.1) _ (λ two e'. (v.flagged, refl, v.rest)))

pub write-Steps : (r : ℕ) (s : AsyncLogger) → Fits r 1 s → Steps r 0 (stream s) (write_buffers s)
write-Steps r s v =
    subst (λ bytes. Steps r 0 bytes (write_buffers s)) (append-nil (stream s))
      (Steps-both 0 none s r 0 (write_buffers s)
        (write-Goes 0 s v.sound (phase-InPhase s swapped v.sound (busy-swapped s.phase v.taken)))
        (write-Ends r s v))
