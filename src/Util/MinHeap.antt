-- ===== src/Util/MinHeap.antt =====
-- util/MinHeap.h: a binary heap in a vector. `comp_(x, y)` compares the ranks of x and y, which is all
-- that a strict weak order does. An index out of the vector is `none`.
pub mod Slots
pub mod Up
pub mod Down
pub mod Queue
use libiak.Prelude.{
  ℕ, zero, suc, ◌+◌, ◌-◌, ◌*◌, ◌/◌, Bool, true, false, ◌&&◌, List, [], ◌∷◌, ◌++◌, Option, none,
  some, length, get_elem?, set, ltb, if◌then◌else◌, ◌>>=◌,
}

-- back() and pop_back() of the vector `x ∷ xs`
abbrev pub back {ℓ} : {A : Type ℓ} → A → List A → A
back x [] = x
back x (y ∷ ys) = back y ys

abbrev pub pop_back {ℓ} : {A : Type ℓ} → A → List A → List A
pop_back x [] = []
pop_back x (y ∷ ys) = x ∷ pop_back y ys

module _ {ℓ} {A : Type ℓ} (rank : A → ℕ) where
  -- comp_(x, y), `x < y` by default
  abbrev pub comp : A → A → Bool
  comp x y = ltb (rank x) (rank y)

  -- std::swap(heap[i], heap[j])
  unfoldable pub swap : List A → ℕ → ℕ → Option (List A)
  swap heap i j = do x ← get_elem? heap i; y ← get_elem? heap j; some (set (set heap i y) j x)

  -- The loop of MinHeap::siftup. At index 0 the parent wraps round, and is not used. A round halves
  -- the index, so that a fuel above it is enough.
  unfoldable pub sift_up_loop : ℕ → ℕ → List A → Option (List A)
  unfolding swap
  sift_up_loop zero index heap = none
  sift_up_loop (suc fuel) index heap =
      let parent = (index - 1) / 2 in
      let rest = swap heap parent index >>= λ heap'. sift_up_loop fuel parent heap' in
      let step = do
        x ← get_elem? heap index
        y ← get_elem? heap parent
        if comp x y then rest else some heap
      in if ltb 0 index then step else some heap

  -- MinHeap::siftup, of a heap that is not empty
  unfoldable pub sift_up : List A → Option (List A)
  unfolding sift_up_loop
  sift_up heap = sift_up_loop (length heap) (length heap - 1) heap

  -- `if (child < heap_.size() - 1 && comp_(heap_[child + 1], heap_[child])) ++child;`
  unfoldable pub smaller_child : ℕ → List A → Option ℕ
  smaller_child child heap =
      let both = do
        x ← get_elem? heap (child + 1)
        y ← get_elem? heap child
        some (if comp x y then child + 1 else child)
      in if ltb child (length heap - 1) then both else some child

  -- The loop of MinHeap::siftdown; the index grows in every round.
  unfoldable pub sift_down_loop : ℕ → ℕ → List A → Option (List A)
  unfolding smaller_child swap
  sift_down_loop zero index heap = none
  sift_down_loop (suc fuel) index heap =
      let step = do
        child ← smaller_child (index * 2 + 1) heap
        x ← get_elem? heap child
        y ← get_elem? heap index
        let rest = swap heap index child >>= λ heap'. sift_down_loop fuel child heap'
        if comp x y then rest else some heap
      in if ltb (index * 2 + 1) (length heap) then step else some heap

  -- MinHeap::siftdown
  unfoldable pub sift_down : List A → Option (List A)
  unfolding sift_down_loop
  sift_down heap = sift_down_loop (suc (length heap)) 0 heap

  -- MinHeap::insert
  unfoldable pub insert : A → List A → Option (List A)
  unfolding sift_up
  insert node heap = sift_up (heap ++ node ∷ [])

  -- MinHeap::remove: the node, and the heap that is left; front() of an empty vector is a fault.
  unfoldable pub remove : List A → Option (A × List A)
  unfolding sift_down
  remove [] = none
  remove (x ∷ xs) = do heap ← sift_down (pop_back (back x xs) xs); some (x, heap)

  -- MinHeap::min
  unfoldable pub least : List A → Option A
  least [] = none
  least (x ∷ xs) = some x
