-- ===== src/Base/BlockingQueue/Served.antt =====
-- The queue is first in, first out, and nobody sleeps on an item.
use mathlib.Core.Path.{subst}
use libiak.Prelude.{
  ℕ, zero, suc, ◌+◌, ◌≤◌, ◌<◌, ◌≡◌, refl, sym, List, [], ◌∷◌, ◌++◌, Option, none, some, length,
  length-append, append-nil, append_assoc, replicate, arith, ◌>>=◌,
}
use libiak.Base.BlockingQueue.{
  BlockingQueue, wake_one, put, test_and_take, take, resume_one, resume, Act, puts, takes, resumes,
  wakes, act, run,
}

module _ {ℓ} {A : Type ℓ} where
  -- While a thread sleeps, each item in the queue has a woken thread that comes for it.
  abbrev pub IsServed : BlockingQueue A → Type 0
  IsServed q = 0 < q.waiting → length q.queue ≤ q.awake

  -- All items, those taken first
  abbrev pub items : BlockingQueue A → List A
  items q = q.taken ++ q.queue

  abbrev pub put_by : Act A → List A
  put_by (puts x) = x ∷ []
  put_by takes = []
  put_by resumes = []
  put_by wakes = []

  -- The items that are put, in order
  abbrev pub put_by_all : List (Act A) → List A
  put_by_all [] = []
  put_by_all (a ∷ acts) = put_by a ++ put_by_all acts

  wake_one-keeps :
      (n : ℕ) (q : BlockingQueue A)
      → ((wake_one n q).queue ≡ q.queue) × ((wake_one n q).taken ≡ q.taken)
  wake_one-keeps zero q = (refl, refl)
  wake_one-keeps (suc n) q = (refl, refl)

  -- If a step can be taken, it leaves a queue that is served, with these items.
  abbrev pub Serves : List A → Option (BlockingQueue A) → Type ℓ
  Serves xs none = Unit
  Serves xs (some q) = IsServed q × (items q ≡ xs)

  put-Serves :
      (x : A) (q : BlockingQueue A) → IsServed q → Serves (items q ++ x ∷ []) (some (put x q))
  unfolding put
  put-Serves x q v = go q.waiting v
    where
      go :
          (n : ℕ)
          → (0 < n → length q.queue ≤ q.awake)
          → Serves
              (items q ++ x ∷ [])
              (some (wake_one n (record q { queue = q.queue ++ x ∷ []; waiting = n })))
      go zero h = (λ p. absurd (omega arith), sym (append_assoc q.taken q.queue (x ∷ [])))
      go (suc n) h = (
        λ p. omega (arith, h (omega arith), length-append q.queue (x ∷ [])),
        sym (append_assoc q.taken q.queue (x ∷ [])),
      )

  test_and_take-Serves :
      (xs : List A) (q : BlockingQueue A)
      → (0 < q.waiting → length xs ≤ q.awake + 1)
      → Serves (q.taken ++ xs) (some (test_and_take xs (record q { queue = xs })))
  test_and_take-Serves [] q h = (λ p. omega arith, refl)
  test_and_take-Serves (x ∷ xs) q h = (λ p. omega (arith, h p), append_assoc q.taken (x ∷ []) xs)

  take-Serves : (q : BlockingQueue A) → IsServed q → Serves (items q) (some (take q))
  unfolding take
  take-Serves q v = test_and_take-Serves q.queue q (λ p. omega (arith, v p))

  resume_one-Serves :
      (n : ℕ) (q : BlockingQueue A)
      → (0 < q.waiting → length q.queue ≤ n)
      → Serves (items q) (resume_one n q)
  resume_one-Serves zero q h = tt
  resume_one-Serves (suc n) q h =
      test_and_take-Serves q.queue (record q { awake = n }) (λ p. omega (arith, h p))

  wake_one-Serves :
      (n : ℕ) (q : BlockingQueue A)
      → (0 < n → length q.queue ≤ q.awake)
      → Serves (items q) (some (wake_one n (record q { waiting = n })))
  wake_one-Serves zero q h = (h, refl)
  wake_one-Serves (suc n) q h = (λ p. omega (arith, h (omega arith)), refl)

  act-Serves :
      (a : Act A) (q : BlockingQueue A) → IsServed q → Serves (items q ++ put_by a) (act a q)
  unfolding act resume
  act-Serves (puts x) q v = put-Serves x q v
  act-Serves takes q v = rw (append-nil (items q)) (take-Serves q v)
  act-Serves resumes q v = rw (append-nil (items q)) (resume_one-Serves q.awake q v)
  act-Serves wakes q v = rw (append-nil (items q)) (wake_one-Serves q.waiting q v)

  Serves-bind :
      (xs ys : List A) (o : Option (BlockingQueue A))
      (f : BlockingQueue A → Option (BlockingQueue A))
      → Serves xs o
      → ((q : BlockingQueue A) → IsServed q → Serves (items q ++ ys) (f q))
      → Serves (xs ++ ys) (o >>= f)
  Serves-bind xs ys none f h k = tt
  Serves-bind xs ys (some q) f (v, e) k = subst (λ zs. Serves (zs ++ ys) (f q)) e (k q v)

  -- Whatever threads put and take, in any order, and whenever they wake: the items taken, in the order in
  -- which they were taken, and then those in the queue, are those at the start and then those that were put,
  -- in the order in which they were put; and while a thread sleeps in take(), each item in the queue has a
  -- woken thread on its way to it, if that was so at the start.
  pub run-Serves :
      (acts : List (Act A)) (q : BlockingQueue A)
      → IsServed q
      → Serves (items q ++ put_by_all acts) (run acts q)
  unfolding run
  run-Serves [] q v = rw (append-nil (items q)) (v, refl)
  run-Serves (a ∷ acts) q v =
      subst (λ zs. Serves zs (act a q >>= run acts))
        (append_assoc (items q) (put_by a) (put_by_all acts))
        (Serves-bind (items q ++ put_by a) (put_by_all acts) (act a q) (run acts) (act-Serves a q v)
          (run-Serves acts))

  -- A queue without woken threads, where nobody sleeps unless it is empty
  pub data Settles (xs : List A) : Option (BlockingQueue A) → Type ℓ where
    settled :
        (q : BlockingQueue A)
        → q.awake ≡ 0
        → (0 < q.waiting → length q.queue ≡ 0)
        → items q ≡ xs
        → Settles xs (some q)

  test_and_take-awake : (xs : List A) (q : BlockingQueue A) → (test_and_take xs q).awake ≡ q.awake
  test_and_take-awake [] q = refl
  test_and_take-awake (x ∷ xs) q = refl

  resumes-Settles :
      (n : ℕ) (q : BlockingQueue A)
      → q.awake ≡ n
      → IsServed q
      → Settles (items q) (run (replicate n resumes) q)
  unfolding run act resume
  resumes-Settles zero q e v = settled q e (λ p. omega (arith, v p, e)) refl
  resumes-Settles (suc n) q e v =
      let (served, same) =
        test_and_take-Serves q.queue (record q { awake = n }) (λ p. omega (arith, v p, e)) in
      rw e (
        subst
          (λ xs.
            Settles xs (run (replicate n resumes) (test_and_take q.queue (record q { awake = n }))))
          same
          (resumes-Settles n (test_and_take q.queue (record q { awake = n }))
            (test_and_take-awake q.queue (record q { awake = n })) served))

  -- When each woken thread has had the mutex once, with nothing else in between, none is left woken, and
  -- none sleeps unless the queue is empty.
  pub run_awake-Settles :
      (q : BlockingQueue A) → IsServed q → Settles (items q) (run (replicate q.awake resumes) q)
  run_awake-Settles q v = resumes-Settles q.awake q refl v
