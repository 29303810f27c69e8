-- ===== src/Net/TcpServer/Counts.antt =====
-- How often descriptors and connections stand in the map.
use libiak.Prelude.{
  ℕ, ◌+◌, ◌≤◌, ◌≡◌, inl, inr, refl, ap, false, List, [], ◌∷◌, ◌++◌, ◌==◌, ==→eq, Bool-cases,
  if◌then◌else◌, if-cases, arith,
}
use libiak.Net.TcpServer.{assign, erase}

-- How often a number is the first, or the second, of the pairs of a list
abbrev pub as_first : ℕ → List (ℕ × ℕ) → ℕ
as_first n [] = 0
as_first n (x ∷ xs) = (if x.0 == n then 1 else 0) + as_first n xs

abbrev pub as_second : ℕ → List (ℕ × ℕ) → ℕ
as_second n [] = 0
as_second n (x ∷ xs) = (if x.1 == n then 1 else 0) + as_second n xs

abbrev pub times : ℕ → List ℕ → ℕ
times n [] = 0
times n (x ∷ xs) = (if x == n then 1 else 0) + times n xs

-- How often a pair is in a list
abbrev pub as_pair : ℕ → ℕ → List (ℕ × ℕ) → ℕ
as_pair fd c [] = 0
as_pair fd c (x ∷ xs) = (if x.0 == fd then (if x.1 == c then 1 else 0) else 0) + as_pair fd c xs

-- The connections without the one that is destroyed
abbrev pub without : ℕ → List (ℕ × ℕ) → List (ℕ × ℕ)
without c [] = []
without c (x ∷ xs) = if x.1 == c then xs else x ∷ without c xs

pub as_first-append :
    (n : ℕ) (xs ys : List (ℕ × ℕ)) → as_first n (xs ++ ys) ≡ as_first n xs + as_first n ys
as_first-append n [] ys = omega arith
as_first-append n (x ∷ xs) ys = omega (arith, as_first-append n xs ys)

pub as_second-append :
    (n : ℕ) (xs ys : List (ℕ × ℕ)) → as_second n (xs ++ ys) ≡ as_second n xs + as_second n ys
as_second-append n [] ys = omega arith
as_second-append n (x ∷ xs) ys = omega (arith, as_second-append n xs ys)

pub as_pair-append :
    (fd c : ℕ) (xs ys : List (ℕ × ℕ)) → as_pair fd c (xs ++ ys) ≡ as_pair fd c xs + as_pair fd c ys
as_pair-append fd c [] ys = omega arith
as_pair-append fd c (x ∷ xs) ys = omega (arith, as_pair-append fd c xs ys)

pub times-append : (n : ℕ) (xs ys : List ℕ) → times n (xs ++ ys) ≡ times n xs + times n ys
times-append n [] ys = omega arith
times-append n (x ∷ xs) ys = omega (arith, times-append n xs ys)

-- A new descriptor goes to the end of the map.
pub assign-fresh :
    (fd c : ℕ) (xs : List (ℕ × ℕ)) → as_first fd xs ≡ 0 → assign fd c xs ≡ xs ++ (fd, c) ∷ []
assign-fresh fd c [] h = refl
assign-fresh fd c (x ∷ xs) h =
    if-cases (x.0 == fd) (λ r. r ≡ x ∷ (xs ++ (fd, c) ∷ [])) _ _ (λ e. absurd (ground arith))
      (λ e. ap (◌∷◌ x) (assign-fresh fd c xs (ground arith)))

pub as_pair-le : (fd c : ℕ) (xs : List (ℕ × ℕ)) → as_pair fd c xs ≤ as_second c xs
as_pair-le fd c [] = omega arith
as_pair-le fd c (x ∷ xs) = ground (arith, as_pair-le fd c xs)

pub as_pair-le_first : (fd c : ℕ) (xs : List (ℕ × ℕ)) → as_pair fd c xs ≤ as_first fd xs
as_pair-le_first fd c [] = omega arith
as_pair-le_first fd c (x ∷ xs) = ground (arith, as_pair-le_first fd c xs)

-- Where descriptors and connections are each there once, the map loses the connection it should.
pub erase-without :
    (fd c : ℕ) (xs : List (ℕ × ℕ))
    → as_pair fd c xs ≡ 1
    → as_first fd xs ≤ 1
    → as_second c xs ≤ 1
    → erase fd xs ≡ without c xs
erase-without fd c [] h f s = absurd (omega arith)
erase-without fd c (x ∷ xs) h f s = elim (Bool-cases (x.0 == fd)) [
  | inl e ↦ elim (Bool-cases (x.1 == c)) [
    | inl e' ↦ rw (e, e') refl
    | inr e' ↦ absurd (ground (arith, as_pair-le_first fd c xs))
  ]
  | inr e ↦ elim (Bool-cases (x.1 == c)) [
    | inl e' ↦ absurd (ground (arith, as_pair-le fd c xs))
    | inr e' ↦
        rw (e, e') (ap (◌∷◌ x) (erase-without fd c xs (ground arith) (ground arith) (ground arith)))
  ]
]

pub as_first-without : (n c : ℕ) (xs : List (ℕ × ℕ)) → as_first n (without c xs) ≤ as_first n xs
as_first-without n c [] = omega arith
as_first-without n c (x ∷ xs) = ground (arith, as_first-without n c xs)

pub as_second-without :
    (n c : ℕ) (xs : List (ℕ × ℕ))
    → 1 ≤ as_second c xs
    → as_second n (without c xs) + (if c == n then 1 else 0) ≡ as_second n xs
as_second-without n c [] h = absurd (omega arith)
as_second-without n c (x ∷ xs) h = elim (Bool-cases (x.1 == c)) [
  | inl e ↦ rw e (ground arith)
  | inr e ↦ rw e (ground (arith, as_second-without n c xs))
]

pub as_pair-without :
    (fd n c : ℕ) (xs : List (ℕ × ℕ))
    → (c == n) ≡ false
    → as_pair fd n (without c xs) ≡ as_pair fd n xs
as_pair-without fd n c [] h = refl
as_pair-without fd n c (x ∷ xs) h = elim (Bool-cases (x.1 == c)) [
  | inl e ↦ rw e (ground (arith, ==→eq _ _ e))
  | inr e ↦ rw e (omega (arith, as_pair-without fd n c xs h))
]
