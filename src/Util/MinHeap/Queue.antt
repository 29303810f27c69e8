-- ===== src/Util/MinHeap/Queue.antt =====
-- The heap as a priority queue: insert adds a node to the nodes of the heap, remove takes away one of
-- the least rank, whatever the order in which the vector keeps them.
use libiak.Prelude.{
  ℕ, zero, suc, ◌+◌, ◌-◌, ◌≤◌, ◌<◌, ◌≡◌, refl, ap, ◌∙◌, Bool, List, [], ◌∷◌, ◌++◌, Option, some,
  length, get_or, ltb, if-cases, arith, ◌>>=◌, length-append, get_or-append,
}
use mathlib.Core.Logic.{◌≢◌}
use libiak.Util.MinHeap.{insert, remove, back, pop_back}
use libiak.Util.MinHeap.Slots.{weight, count, SameNodes}
use libiak.Util.MinHeap.Up.{parent, rank_at, IsHeap, Sifts, sifted, sift_up-Sifts}
use libiak.Util.MinHeap.Down.{sift_down-Sifts}

module _ {ℓ} {A : Type ℓ} (rank : A → ℕ) (d : A) where
  count-append_one :
      (p : A → Bool) (xs : List A) (x : A) → count p (xs ++ x ∷ []) ≡ count p (x ∷ xs)
  count-append_one p [] x = refl
  count-append_one p (y ∷ ys) x = omega (arith, count-append_one p ys x)

  in_place :
      (heap : List A) (node : A)
      → IsHeap rank d heap
      → (c : ℕ) → 0 < c
      → c < length (heap ++ node ∷ []) - 1
      → rank_at rank d (heap ++ node ∷ []) (parent c) ≤ rank_at rank d (heap ++ node ∷ []) c
  in_place heap node h c p q =
      let size = length-append heap (node ∷ []) in
      let at : (i : ℕ) → i < length heap → get_or (heap ++ node ∷ []) i d ≡ get_or heap i d = λ i u.
        get_or-append heap (node ∷ []) i d
        ∙ if-cases (ltb i (length heap)) (λ x. x ≡ get_or heap i d) _ _ (λ e. refl)
            (λ e. absurd (ground arith)) in
      rw (at c (omega (arith, size)), at (parent c) (omega (arith, size)))
        (h c p (omega (arith, size)))

  -- insert of a node into a heap returns, and what it leaves is a heap of that node and the nodes
  -- there were, each as often.
  pub insert-Sifts :
      (node : A) (heap : List A)
      → IsHeap rank d heap
      → Sifts rank d (node ∷ heap) (insert rank node heap)
  unfolding insert
  insert-Sifts node heap h =
      elim (sift_up-Sifts rank d (heap ++ node ∷ []) (omega (arith, length-append heap (node ∷ [])))
          (in_place heap node h))
        as (λ r s. Sifts rank d (node ∷ heap) r) [
          | sifted heap' f e ↦ sifted heap' f (λ p. e p ∙ count-append_one p heap node)
        ]

  length-pop_back : (x : A) (xs : List A) → length (pop_back x xs) ≡ length xs
  length-pop_back x [] = refl
  length-pop_back x (y ∷ ys) = ap suc (length-pop_back y ys)

  get_or-pop_back :
      (x : A) (xs : List A) (i : ℕ)
      → i < length xs
      → get_or (pop_back x xs) i d ≡ get_or (x ∷ xs) i d
  get_or-pop_back x [] i h = absurd (omega arith)
  get_or-pop_back x (y ∷ ys) zero h = refl
  get_or-pop_back x (y ∷ ys) (suc i) h = get_or-pop_back y ys i (omega arith)

  get_or-tail : (x y : A) (xs : List A) (i : ℕ) → 0 < i → get_or (x ∷ xs) i d ≡ get_or (y ∷ xs) i d
  get_or-tail x y xs zero h = absurd (omega arith)
  get_or-tail x y xs (suc i) h = refl

  count-pop_back :
      (p : A → Bool) (x : A) (xs : List A)
      → weight p (back x xs) + count p (pop_back x xs) ≡ count p (x ∷ xs)
  count-pop_back p x [] = refl
  count-pop_back p x (y ∷ ys) = omega (arith, count-pop_back p y ys)

  -- The vector after the last node is put at the root
  count-root : (p : A → Bool) (x : A) (xs : List A) → count p (pop_back (back x xs) xs) ≡ count p xs
  count-root p x [] = refl
  count-root p x (y ∷ ys) = count-pop_back p y ys

  root_least :
      (fuel : ℕ) (heap : List A)
      → IsHeap rank d heap
      → (c : ℕ) → c < fuel
      → c < length heap
      → rank_at rank d heap 0 ≤ rank_at rank d heap c
  root_least zero heap h c f q = absurd (omega arith)
  root_least (suc fuel) heap h zero f q = omega arith
  root_least (suc fuel) heap h (suc c) f q =
      let up = h (suc c) (omega arith) q in
      let above = root_least fuel heap h (parent (suc c)) (omega arith) (omega arith) in
      omega (arith, up, above)

  -- A node of the least rank, and a heap of the others, each as often
  pub data Removes (heap : List A) : Option (A × List A) → Type ℓ where
    removed :
        (node : A) (heap' : List A)
        → ((c : ℕ) → c < length heap → rank node ≤ rank_at rank d heap c)
        → IsHeap rank d heap'
        → SameNodes (node ∷ heap') heap
        → Removes heap (some (node, heap'))

  -- remove of a heap that is not empty returns a node whose rank is no greater than that of any node
  -- of the heap, and leaves a heap of the other nodes, each as often.
  pub remove-Removes :
      (x : A) (xs : List A) → IsHeap rank d (x ∷ xs) → Removes (x ∷ xs) (remove rank (x ∷ xs))
  unfolding remove
  remove-Removes x xs h =
      let root = back x xs in
      let at : (i : ℕ)
          → 0 < i
          → i < length xs
          → get_or (pop_back root xs) i d ≡ get_or (x ∷ xs) i d =
        λ i p q. get_or-pop_back root xs i q ∙ get_or-tail root x xs i p in
      let ordered : (c : ℕ)
          → 0 < c
          → c < length (pop_back root xs)
          → parent c ≢ 0
          → rank_at rank d (pop_back root xs) (parent c) ≤ rank_at rank d (pop_back root xs) c =
        λ c p q r.
          let size = length-pop_back root xs in
          rw (at c p (omega (arith, size)), at (parent c) (omega (arith, r)) (omega (arith, size)))
            (h c p (omega (arith, size))) in
      elim (sift_down-Sifts rank d (pop_back root xs) ordered)
        as (λ r s. Removes (x ∷ xs) (r >>= λ heap. some (x, heap))) [
          | sifted heap' f e ↦
              removed x heap' (λ c q. root_least (suc c) (x ∷ xs) h c (omega arith) q) f
                (λ p. ap (λ n. weight p x + n) (e p ∙ count-root p x xs))
        ]
