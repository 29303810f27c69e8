-- ===== src/Util/Tests.antt =====
-- The theorems on util/MinHeap.h at a heap of four numbers.
use libiak.Prelude.{ℕ, zero, suc, ◌≡◌, refl, arith, List, [], ◌∷◌, some}
use libiak.Util.MinHeap.{insert, remove}
use libiak.Util.MinHeap.Up.{IsHeap, Sifts}
use libiak.Util.MinHeap.Queue.{insert-Sifts, Removes, remove-Removes}

-- A number is its own rank.
abbrev rank : ℕ → ℕ
rank n = n

abbrev heap : List ℕ
heap = 2 ∷ 5 ∷ 3 ∷ 9 ∷ []

heap-IsHeap : IsHeap rank 0 heap
heap-IsHeap zero p h = absurd (omega arith)
heap-IsHeap (suc zero) p h = omega arith
heap-IsHeap (suc (suc zero)) p h = omega arith
heap-IsHeap (suc (suc (suc zero))) p h = omega arith
heap-IsHeap (suc (suc (suc (suc c)))) p h = absurd (omega arith)

insert_one : insert rank 1 heap ≡ some (1 ∷ 2 ∷ 3 ∷ 9 ∷ 5 ∷ [])
unfolding insert
insert_one = refl

insert-Sifts_example : Sifts rank 0 (1 ∷ heap) (insert rank 1 heap)
insert-Sifts_example = insert-Sifts rank 0 1 heap heap-IsHeap

remove-Removes_example : Removes rank 0 heap (remove rank heap)
remove-Removes_example = remove-Removes rank 0 2 (5 ∷ 3 ∷ 9 ∷ []) heap-IsHeap
