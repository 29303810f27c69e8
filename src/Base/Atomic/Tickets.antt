-- ===== src/Base/Atomic/Tickets.antt =====
-- What incrementAndGet returns.
use libiak.Prelude.{
  ℕ, zero, suc, ◌+◌, ◌<◌, ◌≡◌, inl, inr, Bool-cases, refl, Bool, true, false, List, [], ◌∷◌, Option,
  none, some, if◌then◌else◌, ltb, ltb→lt, ltb→le, lt→ltb, le→ltb, arith, ◌>>=◌, ℤ, pos, ◌+ℤ◌,
}
use libiak.Base.Atomic.{Width, int32, int64, half, increment_and_get, add_and_get, get_and_add}

-- `n` calls of incrementAndGet, of any threads: what they return, in their order, and the value behind them
abbrev pub increments : Width → ℕ → ℤ → Option (List ℤ × ℤ)
increments w zero value = some ([], value)
increments w (suc n) value = do
  (sum, value') ← increment_and_get w value
  (sums, value'') ← increments w n value'
  some (sum ∷ sums, value'')

-- v + 1, ..., v + n
abbrev pub numbers_after : ℕ → ℕ → List ℤ
numbers_after v zero = []
numbers_after v (suc n) = pos (suc v) ∷ numbers_after (suc v) n

increment-pos :
    (w : Width) (v : ℕ)
    → v < half w
    → increment_and_get w (pos v)
      ≡ (if ltb (suc v) (half w) then some (pos (suc v), pos (suc v)) else none)
unfolding increment_and_get add_and_get get_and_add ◌+ℤ◌
increment-pos int32 v h = ground arith
increment-pos int64 v h = ground arith

-- What the next call returns, in front
abbrev ticket_first : ℤ → List ℤ × ℤ → List ℤ × ℤ
ticket_first t r = (t ∷ r.0, r.1)

if-ticket_first :
    (b : Bool) (t : ℤ) (x : List ℤ × ℤ)
    → ((if b then some x else none) >>= λ (r : List ℤ × ℤ). some (ticket_first t r))
      ≡ (if b then some (ticket_first t x) else none)
if-ticket_first true t x = refl
if-ticket_first false t x = refl

-- While the value is not negative, n calls of incrementAndGet, in whatever order the threads make them, return
-- the n numbers behind it, each to one call, and the value is the last of them; or, if these do not all fit
-- the type, a signed sum overflows.
pub increments-distinct :
    (w : Width) (n v : ℕ)
    → v < half w
    → increments w n (pos v)
      ≡ (if ltb (v + n) (half w) then some (numbers_after v n, pos (v + n)) else none)
increments-distinct w zero v h =
    let same : v + 0 ≡ v = omega arith in rw (same, lt→ltb v (half w) h) refl
increments-distinct w (suc n) v h =
    let sum : v + suc n ≡ suc v + n = omega arith in
    let call = increment-pos w v h in
    elim (Bool-cases (ltb (suc v) (half w))) [
      | inl e ↦
          rw (call, e, sum, increments-distinct w n (suc v) (ltb→lt _ _ e))
            (if-ticket_first (ltb (suc v + n) (half w)) (pos (suc v))
              (numbers_after (suc v) n, pos (suc v + n)))
      | inr e ↦
          let beyond : ltb (suc v + n) (half w) ≡ false =
            le→ltb _ _ (omega (arith, ltb→le _ _ e)) in
          rw (call, e, sum, beyond) refl
    ]
