-- ===== src/Util/MinHeap/Up.antt =====
-- siftup restores the heap order after a node is put at the end.
use libiak.Prelude.{
  ℕ, zero, suc, ◌-◌, ◌/◌, ◌≤◌, ◌<◌, ◌≡◌, refl, ap, ◌∙◌, Bool, true, false, List, Option, some,
  length, get_or, ltb, ◌==◌, if◌then◌else◌, if-cases, arith,
}
use mathlib.Core.Logic.{◌≢◌}
use libiak.Util.MinHeap.{sift_up_loop, sift_up}
use libiak.Util.MinHeap.Slots.{
  SameNodes, get_elem?-get_or, exchanged, length-exchanged, get_or-exchanged, SameNodes-exchanged,
}

abbrev pub parent : ℕ → ℕ
parent c = (c - 1) / 2

module _ {ℓ} {A : Type ℓ} (rank : A → ℕ) (d : A) where
  abbrev pub rank_at : List A → ℕ → ℕ
  rank_at heap i = rank (get_or heap i d)

  -- No node has a smaller rank than its parent.
  abbrev pub IsHeap : List A → Type 0
  IsHeap heap = (c : ℕ) → 0 < c → c < length heap → rank_at heap (parent c) ≤ rank_at heap c

  -- The outcome of a sift: a heap of the same nodes.
  pub data Sifts (heap : List A) : Option (List A) → Type ℓ where
    sifted : (heap' : List A) → IsHeap heap' → SameNodes heap' heap → Sifts heap (some heap')

  pub Sifts-after :
      (heap heap' : List A) (r : Option (List A))
      → SameNodes heap' heap
      → Sifts heap' r
      → Sifts heap r
  Sifts-after heap heap' r e (sifted heap'' h f) = sifted heap'' h (λ p. f p ∙ e p)

  rank-if : (b : Bool) (x y : A) → rank (if b then x else y) ≡ (if b then rank x else rank y)
  rank-if true x y = refl
  rank-if false x y = refl

  pub rank_at-exchanged :
      (heap : List A) (i j c : ℕ)
      → i < length heap
      → j < length heap
      → rank_at (exchanged d heap i j) c
        ≡ (if j == c then rank_at heap i else (if i == c then rank_at heap j else rank_at heap c))
  rank_at-exchanged heap i j c hi hj =
      ap rank (get_or-exchanged d rank heap i j hi hj c)
      ∙ rank-if (j == c) (get_or heap i d) (if i == c then get_or heap j d else get_or heap c d)
      ∙ ap (λ x. if j == c then rank_at heap i else x)
          (rank-if (i == c) (get_or heap j d) (get_or heap c d))

  -- Only the node at `i` may be too small for its parent, which is no larger than its children.
  pub record IsRising (heap : List A) (i : ℕ) : Type 0 where
    pub inside : i < length heap
    pub others :
        (c : ℕ) → 0 < c → c < length heap → c ≢ i → rank_at heap (parent c) ≤ rank_at heap c
    pub across :
        (c : ℕ)
        → 0 < c
        → c < length heap
        → parent c ≡ i
        → 0 < i
        → rank_at heap (parent i) ≤ rank_at heap c

  IsRising-exchanged :
      (heap : List A) (i : ℕ)
      → IsRising heap i
      → 0 < i
      → rank_at heap i < rank_at heap (parent i)
      → IsRising (exchanged d heap (parent i) i) (parent i)
  IsRising-exchanged heap i v positive smaller =
      let size = length-exchanged d heap (parent i) i in
      let at : (c : ℕ) → _ =
        λ c. rank_at-exchanged heap (parent i) i c (omega (arith, v.inside)) v.inside in
      record {
        inside = omega (arith, v.inside, size);
        others = λ c p q r. ground (arith, size, at c, at (parent c), v.others c, v.across c);
        across = λ c p q r t.
            ground (arith, size, at c, at (parent (parent i)), v.others c, v.others (parent i));
      }

  sift_up_loop-Sifts :
      (fuel index : ℕ) (heap : List A)
      → index < fuel
      → IsRising heap index
      → Sifts heap (sift_up_loop rank fuel index heap)
  unfolding sift_up_loop
  sift_up_loop-Sifts zero index heap f v = absurd (omega arith)
  sift_up_loop-Sifts (suc fuel) index heap f v =
      let above : parent index < length heap = omega (arith, v.inside) in
      rw (get_elem?-get_or d heap index v.inside, get_elem?-get_or d heap (parent index) above)
        (if-cases (ltb 0 index) (Sifts heap) _ _
          (λ positive.
            if-cases (ltb (rank_at heap index) (rank_at heap (parent index))) (Sifts heap) _ _
              (λ smaller.
                Sifts-after heap (exchanged d heap (parent index) index) _
                  (SameNodes-exchanged d rank heap (parent index) index above v.inside)
                  (sift_up_loop-Sifts fuel (parent index) (exchanged d heap (parent index) index)
                    (ground arith) (IsRising-exchanged heap index v (ground arith) (ground arith))))
              (λ settled. sifted heap (λ c p q. ground (arith, v.others c)) (λ p. refl)))
          (λ root. sifted heap (λ c p q. v.others c p q (ground arith)) (λ p. refl)))

  -- siftup of a vector in order but for its last node, which has no children
  pub sift_up-Sifts :
      (heap : List A)
      → 0 < length heap
      → ((c : ℕ) → 0 < c → c < length heap - 1 → rank_at heap (parent c) ≤ rank_at heap c)
      → Sifts heap (sift_up rank heap)
  unfolding sift_up
  sift_up-Sifts heap positive ordered =
      sift_up_loop-Sifts (length heap) (length heap - 1) heap (omega arith) (record {
        inside = omega arith;
        others = λ c p q r. ordered c p (ground arith);
        across = λ c p q r t. absurd (omega arith);
      })
