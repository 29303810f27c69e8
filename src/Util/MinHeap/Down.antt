-- ===== src/Util/MinHeap/Down.antt =====
-- siftdown restores the heap order after the last node is put at the root.
use libiak.Prelude.{
  ℕ, zero, suc, ◌+◌, ◌-◌, ◌*◌, ◌≤◌, ◌<◌, ◌≡◌, refl, List, Option, some, length, get_elem?, ltb,
  if◌then◌else◌, if-cases, arith, ◌>>=◌,
}
use mathlib.Core.Logic.{◌≢◌}
use libiak.Util.MinHeap.{comp, swap, smaller_child, sift_down_loop, sift_down}
use libiak.Util.MinHeap.Slots.{
  get_elem?-get_or, exchanged, length-exchanged, swap-exchanged, SameNodes-exchanged,
}
use libiak.Util.MinHeap.Up.{parent, rank_at, Sifts, sifted, Sifts-after, rank_at-exchanged}

module _ {ℓ} {A : Type ℓ} (rank : A → ℕ) (d : A) where
  -- Only the node at `i` may be too large for its children, which are no smaller than its parent.
  record IsSinking (heap : List A) (i : ℕ) : Type 0 where
    others :
        (c : ℕ)
        → 0 < c
        → c < length heap
        → parent c ≢ i
        → rank_at rank d heap (parent c) ≤ rank_at rank d heap c
    across :
        (c : ℕ)
        → 0 < c
        → c < length heap
        → parent c ≡ i
        → 0 < i
        → rank_at rank d heap (parent i) ≤ rank_at rank d heap c

  -- `m` is the child of `i` with the smaller rank.
  record IsSmallerChild (heap : List A) (i m : ℕ) : Type 0 where
    inside : m < length heap
    above : parent m ≡ i
    beyond : i < m
    smallest :
        (c : ℕ)
        → 0 < c
        → c < length heap
        → parent c ≡ i
        → rank_at rank d heap m ≤ rank_at rank d heap c

  data Chooses (heap : List A) (i : ℕ) : Option ℕ → Type 0 where
    chosen : (m : ℕ) → IsSmallerChild heap i m → Chooses heap i (some m)

  smaller_child-Chooses :
      (heap : List A) (i : ℕ)
      → i * 2 + 1 < length heap
      → Chooses heap i (smaller_child rank (i * 2 + 1) heap)
  unfolding smaller_child
  smaller_child-Chooses heap i h =
      if-cases (ltb (i * 2 + 1) (length heap - 1)) (Chooses heap i) _ _
        (λ both.
          rw
            (
              get_elem?-get_or d heap (i * 2 + 1) h,
              get_elem?-get_or d heap (i * 2 + 1 + 1) (ground arith),
            )
            (if-cases (ltb (rank_at rank d heap (i * 2 + 1 + 1)) (rank_at rank d heap (i * 2 + 1)))
              (λ m. Chooses heap i (some m)) _ _
              (λ right. chosen _ (record {
                inside = ground arith;
                above = omega arith;
                beyond = omega arith;
                smallest = λ c p q r. grind arith;
              }))
              (λ left. chosen _ (record {
                inside = h;
                above = omega arith;
                beyond = omega arith;
                smallest = λ c p q r. grind arith;
              }))))
        (λ single. chosen _ (record {
          inside = h;
          above = omega arith;
          beyond = omega arith;
          smallest = λ c p q r. grind arith;
        }))

  IsSinking-exchanged :
      (heap : List A) (i m : ℕ)
      → IsSinking heap i
      → IsSmallerChild heap i m
      → rank_at rank d heap m < rank_at rank d heap i
      → IsSinking (exchanged d heap i m) m
  IsSinking-exchanged heap i m v s smaller =
      let size = length-exchanged d heap i m in
      let at : (c : ℕ) → _ =
        λ c. rank_at-exchanged rank d heap i m c (omega (arith, s.inside, s.beyond)) s.inside in
      record {
        others = λ c p q r. ground (
          arith,
          s.above,
          s.beyond,
          size,
          at c,
          at (parent c),
          v.others c,
          v.across m,
          s.smallest c,
        );
        across =
            λ c p q r t. ground (arith, s.above, s.beyond, size, at c, at (parent m), v.others c);
      }

  -- A round that goes on with `next`
  sift_down_round :
      (heap : List A) (index : ℕ) (next : ℕ → List A → Option (List A))
      → index < length heap
      → IsSinking heap index
      → ((m : ℕ)
          → index < m
          → m < length heap
          → IsSinking (exchanged d heap index m) m
          → Sifts rank d (exchanged d heap index m) (next m (exchanged d heap index m)))
      → (r : Option ℕ) → Chooses heap index r
      → Sifts rank d heap (
          r >>= λ child. get_elem? heap child >>= λ x. get_elem? heap index >>= λ y.
          if comp rank x y
          then (swap rank heap index child >>= λ heap'. next child heap')
          else some heap)
  sift_down_round heap index next hi v continues r (chosen m s) =
      rw
        (
          get_elem?-get_or d heap m s.inside,
          get_elem?-get_or d heap index hi,
          swap-exchanged d rank heap index m hi s.inside,
        )
        (if-cases (ltb (rank_at rank d heap m) (rank_at rank d heap index)) (Sifts rank d heap) _ _
          (λ smaller.
            Sifts-after rank d heap (exchanged d heap index m) _
              (SameNodes-exchanged d rank heap index m hi s.inside)
              (continues m s.beyond s.inside (IsSinking-exchanged heap index m v s (ground arith))))
          (λ settled. sifted heap (λ c p q. grind (arith, v.others c, s.smallest c)) (λ p. refl)))

  sift_down_loop-Sifts :
      (fuel index : ℕ) (heap : List A)
      → length heap - index < fuel
      → IsSinking heap index
      → Sifts rank d heap (sift_down_loop rank fuel index heap)
  unfolding sift_down_loop
  sift_down_loop-Sifts zero index heap f v = absurd (omega arith)
  sift_down_loop-Sifts (suc fuel) index heap f v =
      if-cases (ltb (index * 2 + 1) (length heap)) (Sifts rank d heap) _ _
        (λ e.
          sift_down_round heap index (sift_down_loop rank fuel) (ground arith) v
            (λ m p q sinking.
              sift_down_loop-Sifts fuel m (exchanged d heap index m)
                (omega (arith, length-exchanged d heap index m)) sinking)
            (smaller_child rank (index * 2 + 1) heap)
            (smaller_child-Chooses heap index (ground arith)))
        (λ e. sifted heap (λ c p q. ground (arith, v.others c)) (λ p. refl))

  -- siftdown of a vector in order but for its root
  pub sift_down-Sifts :
      (heap : List A)
      → ((c : ℕ)
          → 0 < c
          → c < length heap
          → parent c ≢ 0
          → rank_at rank d heap (parent c) ≤ rank_at rank d heap c)
      → Sifts rank d heap (sift_down rank heap)
  unfolding sift_down
  sift_down-Sifts heap ordered =
      sift_down_loop-Sifts (suc (length heap)) 0 heap (omega arith)
        (record { others = ordered; across = λ c p q r t. absurd (omega arith) })
