-- ===== src/Util/MinHeap/Slots.antt =====
-- Slots of the vector: what they hold after a swap, and that the nodes stay the same.
use libiak.Prelude.{
  ℕ, zero, suc, ◌+◌, ◌<◌, ◌≡◌, refl, ap, ◌∙◌, Bool, List, [], ◌∷◌, some, length, get_elem?, get_or,
  set, ◌==◌, if◌then◌else◌, if-holds, arith,
}
use libiak.Util.MinHeap.{swap}

abbrev pub weight {ℓ} : {A : Type ℓ} → (A → Bool) → A → ℕ
weight p x = if p x then 1 else 0

-- How many nodes of a vector a test accepts.
abbrev pub count {ℓ} : {A : Type ℓ} → (A → Bool) → List A → ℕ
count p [] = 0
count p (x ∷ xs) = weight p x + count p xs

-- Two vectors hold the same nodes, each as often.
abbrev pub SameNodes {ℓ} : {A : Type ℓ} → List A → List A → Type ℓ
SameNodes xs ys = (p : _ → Bool) → count p xs ≡ count p ys

module _ {ℓ} {A : Type ℓ} (d : A) where
  pub get_elem?-get_or :
      (xs : List A) (i : ℕ) → i < length xs → get_elem? xs i ≡ some (get_or xs i d)
  get_elem?-get_or [] i h = absurd (omega arith)
  get_elem?-get_or (x ∷ xs) zero h = refl
  get_elem?-get_or (x ∷ xs) (suc i) h = get_elem?-get_or xs i (omega arith)

  length-set : (xs : List A) (i : ℕ) (v : A) → length (set xs i v) ≡ length xs
  length-set [] i v = refl
  length-set (x ∷ xs) zero v = refl
  length-set (x ∷ xs) (suc i) v = ap suc (length-set xs i v)

  get_or-set :
      (xs : List A) (i j : ℕ) (v : A)
      → i < length xs
      → get_or (set xs i v) j d ≡ (if i == j then v else get_or xs j d)
  get_or-set [] i j v h = absurd (omega arith)
  get_or-set (x ∷ xs) zero zero v h = refl
  get_or-set (x ∷ xs) zero (suc j) v h = ground arith
  get_or-set (x ∷ xs) (suc i) zero v h = ground arith
  get_or-set (x ∷ xs) (suc i) (suc j) v h = ground (arith, get_or-set xs i j v)

  -- A write puts one node in another's place.
  count-set :
      (p : A → Bool) (xs : List A) (i : ℕ) (v : A)
      → i < length xs
      → count p (set xs i v) + weight p (get_or xs i d) ≡ count p xs + weight p v
  count-set p [] i v h = absurd (omega arith)
  count-set p (x ∷ xs) zero v h = omega arith
  count-set p (x ∷ xs) (suc i) v h = omega (arith, count-set p xs i v (omega arith))

  -- The vector after a swap.
  abbrev pub exchanged : List A → ℕ → ℕ → List A
  exchanged xs i j = set (set xs i (get_or xs j d)) j (get_or xs i d)

  pub length-exchanged : (xs : List A) (i j : ℕ) → length (exchanged xs i j) ≡ length xs
  length-exchanged xs i j =
      length-set (set xs i (get_or xs j d)) j (get_or xs i d) ∙ length-set xs i (get_or xs j d)

  module _ (rank : A → ℕ) (xs : List A) (i j : ℕ) (hi : i < length xs) (hj : j < length xs) where
    pub swap-exchanged : swap rank xs i j ≡ some (exchanged xs i j)
    unfolding swap
    swap-exchanged = rw (get_elem?-get_or xs i hi, get_elem?-get_or xs j hj) refl

    pub get_or-exchanged :
        (c : ℕ)
        → get_or (exchanged xs i j) c d
          ≡ (if j == c then get_or xs i d else (if i == c then get_or xs j d else get_or xs c d))
    get_or-exchanged c =
        get_or-set (set xs i (get_or xs j d)) j c (get_or xs i d)
          (omega (arith, length-set xs i (get_or xs j d)))
        ∙ ap (λ x. if j == c then get_or xs i d else x) (get_or-set xs i c (get_or xs j d) hi)

    pub SameNodes-exchanged : SameNodes (exchanged xs i j) xs
    SameNodes-exchanged p =
        let first = count-set p xs i (get_or xs j d) hi in
        let second =
          count-set p (set xs i (get_or xs j d)) j (get_or xs i d)
            (omega (arith, length-set xs i (get_or xs j d))) in
        let kept : get_or (set xs i (get_or xs j d)) j d ≡ get_or xs j d =
          get_or-set xs i j (get_or xs j d) hi
          ∙ if-holds (i == j) (λ (x : A). x ≡ get_or xs j d) _ _ refl refl in
        omega (arith, first, second, ap (weight p) kept)
