-- ===== src/Net/Buffer/Extends.antt =====
-- A block that got more bytes behind those that it holds.
use libiak.Prelude.{
  ℕ, ◌+◌, ◌≤◌, ◌≡◌, ◌⊎◌, inl, refl, ap, ◌∙◌, List, [], ◌++◌, length, arith, length-append,
  append-nil,
}
use libiak.Net.Buffer.{Buffer, IsValid, at, window, contents, put}
use libiak.Net.Buffer.Copy.{put-nil}
use libiak.Net.Buffer.Store.{stored, Fits, length-stored, window-stored}

-- The block `b'` holds what `b` holds and then `more`.
pub record Extends (b b' : Buffer) (more : List ℕ) : Type 0 where
  pub valid : IsValid b'
  pub bytes : contents b' ≡ contents b ++ more
  pub same_pop : b'.pop ≡ b.pop

-- One block after copies that fit, with counters that agree.
pub Extends-stored :
    (b : Buffer) (s1 s2 more : List ℕ) (push count : ℕ)
    → IsValid b
    → Fits b s1 s2
    → s1 ++ s2 ≡ more
    → count ≡ b.count + length s1 + length s2
    → push ≤ b.capacity
    → (push ≡ b.pop + count) ⊎ (push + b.capacity ≡ b.pop + count)
    → Extends b (record b { buffer = stored b s1 s2; push = push; count = count }) more
Extends-stored b s1 s2 more push count v f e c p r = record {
  valid = record {
    storage = length-stored b s1 s2 v f;
    some_room = v.some_room;
    small = v.small;
    count_in = omega (arith, f.room);
    pop_in = v.pop_in;
    push_in = p;
    range = r;
  };
  bytes =
      let total : count ≡ b.count + length (s1 ++ s2) = omega (arith, length-append s1 s2) in
      ap (window (at (record b { buffer = stored b s1 s2 })) b.pop) total
      ∙ window-stored b s1 s2 v f
      ∙ ap (λ xs. contents b ++ xs) e;
  same_pop = refl;
}

-- The same after one copy.
pub Extends-put :
    (b : Buffer) (src : List ℕ) (push count : ℕ)
    → IsValid b
    → b.push + length src ≤ b.capacity
    → b.count + length src ≤ b.capacity
    → count ≡ b.count + length src
    → push ≤ b.capacity
    → (push ≡ b.pop + count) ⊎ (push + b.capacity ≡ b.pop + count)
    → Extends b (record b { buffer = put b.buffer b.push src; push = push; count = count }) src
Extends-put b src push count v f g c p r = rw (put-nil (put b.buffer b.push src)) at (
    Extends-stored b src [] src push count v
      (record { room = omega arith; first = f; second = inl refl }) (append-nil src) (omega arith) p
      r)
