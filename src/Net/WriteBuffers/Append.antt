-- ===== src/Net/WriteBuffers/Append.antt =====
-- writeData appends the bytes to those that wait to be sent.
use native.Mathlib.Nat.{mod-eq_of_lt, mod_self}
use libiak.Prelude.{
  ℕ, ◌<◌, ◌≤◌, ◌≡◌, ◌+◌, ◌-◌, ◌%◌, ◌⊎◌, inl, inr, refl, ap, ◌∙◌, List, take, drop, length, arith,
  ltb, ltb→lt, ltb→le, Bool-cases, u32, add32, sub32, length-take, length-drop, take-append-take,
  take-append-drop,
}
use libiak.Net.Buffer.{Buffer, IsValid}
use libiak.Net.Buffer.Extends.{Extends, Extends-stored, Extends-put}
use libiak.Net.WriteBuffers.{write_tail, fill_tail}

mod_or_zero : (n m : ℕ) → 0 < m → n ≤ m → ((n % m ≡ n) × (n < m)) ⊎ ((n % m ≡ 0) × (n ≡ m))
mod_or_zero n m pos h = ground (arith, mod-eq_of_lt {n = n} {m = m}, mod_self m)

-- writeData into a tail with more room than the bytes need.
pub write_tail-Extends :
    (b : Buffer) (src : List ℕ)
    → IsValid b
    → b.count + length src < b.capacity
    → Extends b (write_tail b src) src
unfolding write_tail
write_tail-Extends b src v h = elim (Bool-cases (ltb (sub32 b.capacity b.push) (length src))) [
  | inl e ↦ rw e (
      let rear = sub32 b.capacity b.push in
      let lt : rear < length src = ltb→lt _ _ e in
      let l1 = length-take rear src in
      let l2 = length-drop rear src in
      Extends-stored b (take rear src) (drop rear src) src _ _ v
        (record {
          room = omega (arith, v.small, l1, l2);
          first = omega (arith, v.small, v.push_in, l1);
          second = inr (omega (arith, v.small, v.push_in, l1));
        })
        (take-append-drop rear src) (omega (arith, v.small, l1, l2))
        (omega (arith, v.small, v.push_in)) (omega (arith, v.small, v.push_in, v.pop_in, v.range)))
  | inr e ↦ rw e (
      let le : length src ≤ sub32 b.capacity b.push = ltb→le _ _ e in
      let wrap =
        mod_or_zero (b.push + length src) b.capacity v.some_room
          (omega (arith, v.small, v.push_in)) in
      let plain : add32 b.push (u32 (length src)) ≡ b.push + length src =
        omega (arith, v.small, v.push_in) in
      rw plain (
        Extends-put b src _ _ v (omega (arith, v.small, v.push_in)) (omega arith)
          (omega (arith, v.small)) (omega (arith, wrap, v.push_in))
          (omega (arith, v.small, wrap, v.push_in, v.pop_in, v.range))))
]

-- writeData into a tail that the bytes fill.
pub fill_tail-Extends :
    (b : Buffer) (n : ℕ) (src : List ℕ)
    → IsValid b
    → b.count + n ≡ b.capacity
    → n ≤ length src
    → Extends b (fill_tail b n src) (take n src)
unfolding fill_tail
fill_tail-Extends b n src v h k = elim (Bool-cases (ltb (sub32 b.capacity b.push) n)) [
  | inl e ↦ rw e (
      let rear = sub32 b.capacity b.push in
      let lt : rear < n = ltb→lt _ _ e in
      let l1 = length-take rear src in
      let l2 = length-take (n - rear) (drop rear src) in
      let l3 = length-drop rear src in
      let sum : rear + (n - rear) ≡ n = omega arith in
      Extends-stored b (take rear src) (take (n - rear) (drop rear src)) (take n src) _ _ v
        (record {
          room = omega (arith, v.small, l1, l2, l3);
          first = omega (arith, v.small, v.push_in, l1);
          second = inr (omega (arith, v.small, v.push_in, l1));
        })
        (take-append-take rear (n - rear) src ∙ ap (λ m. take m src) sum)
        (omega (arith, v.small, l1, l2, l3)) v.pop_in (inr refl))
  | inr e ↦ rw e (
      let le : n ≤ sub32 b.capacity b.push = ltb→le _ _ e in
      let l1 = length-take n src in
      Extends-put b (take n src) _ _ v (omega (arith, v.small, v.push_in, l1)) (omega (arith, l1))
        (omega (arith, l1)) v.pop_in (inr refl))
]
