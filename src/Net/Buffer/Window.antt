-- ===== src/Net/Buffer/Window.antt =====
-- Windows of a cyclic block as lists.
use libiak.Prelude.{
  ℕ, suc, zero, ◌+◌, ◌-◌, ◌≤◌, ◌<◌, ◌≡◌, refl, ap, ap₂, ◌∙◌, List, [], ◌∷◌, ◌++◌, take, drop,
  length, get_or, arith,
}
use libiak.Net.Buffer.{window}

pub length-window : (f : ℕ → ℕ) (p n : ℕ) → length (window f p n) ≡ n
length-window f p zero = refl
length-window f p (suc n) = ap suc (length-window f (suc p) n)

-- Windows agree where their bytes do.
pub window_ext :
    (f g : ℕ → ℕ) (p q n : ℕ)
    → ((i : ℕ) → i < n → f (p + i) ≡ g (q + i))
    → window f p n ≡ window g q n
window_ext f g p q zero h = refl
window_ext f g p q (suc n) h = ap₂ ◌∷◌ first (
    window_ext f g (suc p) (suc q) n λ i lt.
      let left : suc p + i ≡ p + suc i = omega arith in
      let right : suc q + i ≡ q + suc i = omega arith in rw (left, right) (h (suc i) (omega arith)))
  where
    first : f p ≡ g q
    first =
        let left : p ≡ p + 0 = omega arith in
        let right : q ≡ q + 0 = omega arith in ap f left ∙ h 0 (omega arith) ∙ ap g (omega arith)

pub window-append :
    (f : ℕ → ℕ) (p m n : ℕ) → window f p (m + n) ≡ window f p m ++ window f (p + m) n
window-append f p zero n =
    let left : 0 + n ≡ n = omega arith in let right : p + 0 ≡ p = omega arith in rw (left, right)
window-append f p (suc m) n =
    let left : suc m + n ≡ suc (m + n) = omega arith in
    let right : p + suc m ≡ suc p + m = omega arith in
    rw (left, right) (ap (◌∷◌ (f p)) (window-append f (suc p) m n))

pub drop-window : (f : ℕ → ℕ) (k p n : ℕ) → drop k (window f p n) ≡ window f (p + k) (n - k)
drop-window f zero p n =
    let left : p + 0 ≡ p = omega arith in let right : n - 0 ≡ n = omega arith in rw (left, right)
drop-window f (suc k) p zero = let none_left : 0 - suc k ≡ 0 = omega arith in rw none_left
drop-window f (suc k) p (suc n) =
    let left : p + suc k ≡ suc p + k = omega arith in
    let right : suc n - suc k ≡ n - k = omega arith in rw (left, right) (drop-window f k (suc p) n)

pub take-window : (f : ℕ → ℕ) (k p n : ℕ) → k ≤ n → take k (window f p n) ≡ window f p k
take-window f zero p n h = refl
take-window f (suc k) p zero h = absurd (omega arith)
take-window f (suc k) p (suc n) h = ap (◌∷◌ (f p)) (take-window f k (suc p) n (omega arith))

-- A list is the window of its own entries.
pub window-get_or : (xs : List ℕ) → window (λ i. get_or xs i 0) 0 (length xs) ≡ xs
window-get_or [] = refl
window-get_or (x ∷ xs) = ap (◌∷◌ x) (
    window_ext (λ i. get_or (x ∷ xs) i 0) (λ i. get_or xs i 0) 1 0 (length xs) (λ i lt. shift i)
    ∙ window-get_or xs)
  where
    shift : (i : ℕ) → get_or (x ∷ xs) (1 + i) 0 ≡ get_or xs (0 + i) 0
    shift i =
        let left : 1 + i ≡ suc i = omega arith in
        let right : 0 + i ≡ i = omega arith in rw (left, right)

-- A copy out of the block within its end is a window.
pub slice-window :
    (xs : List ℕ) (p n : ℕ)
    → p + n ≤ length xs
    → take n (drop p xs) ≡ window (λ i. get_or xs i 0) p n
slice-window xs p zero h = refl
slice-window [] p (suc n) h = absurd (omega arith)
slice-window (x ∷ xs) zero (suc n) h = ap (◌∷◌ x) (
    slice-window xs 0 n (omega arith)
    ∙ window_ext (λ i. get_or xs i 0) (λ i. get_or (x ∷ xs) i 0) 0 1 n (λ i lt. shift i))
  where
    shift : (i : ℕ) → get_or xs (0 + i) 0 ≡ get_or (x ∷ xs) (1 + i) 0
    shift i =
        let left : 1 + i ≡ suc i = omega arith in
        let right : 0 + i ≡ i = omega arith in rw (left, right)
slice-window (x ∷ xs) (suc p) (suc n) h =
    slice-window xs p (suc n) (omega arith)
    ∙ window_ext (λ i. get_or xs i 0) (λ i. get_or (x ∷ xs) i 0) p (suc p) (suc n) (λ i lt. shift i)
  where
    shift : (i : ℕ) → get_or xs (p + i) 0 ≡ get_or (x ∷ xs) (suc p + i) 0
    shift i = let step : suc p + i ≡ suc (p + i) = omega arith in rw step
