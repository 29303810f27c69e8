-- ===== src/Log/LogStream/Decimal.antt =====
-- The text that convert makes of an integer.
use mathlib.Core.List.{reverse_aux}
use libiak.Prelude.{
  ℕ, zero, suc, ◌+◌, ◌-◌, ◌*◌, ◌/◌, ◌%◌, ◌^◌, ◌≤◌, ◌<◌, ◌≡◌, refl, ap, ◌∙◌, List, [], ◌∷◌, ◌++◌,
  length, if-cases, arith, ℤ, pos, negsuc, minus, abs, quot, rem, ==→eq, ==→ne, append-nil,
  length-append,
}
use libiak.Log.LogStream.{zero_at, is_zero, convert_loop, convert}

-- The number that decimal digits denote, behind the number `n`.
abbrev pub horner : ℕ → List ℕ → ℕ
horner n [] = n
horner n (c ∷ cs) = horner (10 * n + (c - b'0')) cs

abbrev value_of : List ℕ → ℕ
value_of [] = 0
value_of (c ∷ cs) = c - b'0' + 10 * value_of cs

horner-reverse_aux : (xs r : List ℕ) → horner 0 (reverse_aux xs r) ≡ horner (value_of xs) r
horner-reverse_aux [] r = refl
horner-reverse_aux (x ∷ xs) r = horner-reverse_aux xs (x ∷ r) ∙ ap (λ n. horner n r) (omega arith)

reverse_aux-append :
    (xs : List ℕ) (c : ℕ) (r : List ℕ) → reverse_aux (xs ++ c ∷ []) r ≡ c ∷ reverse_aux xs r
reverse_aux-append [] c r = refl
reverse_aux-append (x ∷ xs) c r = reverse_aux-append xs c (x ∷ r)

-- The table has every digit on both sides of its `0`.
digit_at : (k : ℕ) → k < 10 → zero_at (pos k) ≡ b'0' + k
digit_at zero h = refl
digit_at (suc zero) h = refl
digit_at (suc (suc zero)) h = refl
digit_at (suc (suc (suc zero))) h = refl
digit_at (suc (suc (suc (suc zero)))) h = refl
digit_at (suc (suc (suc (suc (suc zero))))) h = refl
digit_at (suc (suc (suc (suc (suc (suc zero)))))) h = refl
digit_at (suc (suc (suc (suc (suc (suc (suc zero))))))) h = refl
digit_at (suc (suc (suc (suc (suc (suc (suc (suc zero)))))))) h = refl
digit_at (suc (suc (suc (suc (suc (suc (suc (suc (suc zero))))))))) h = refl
digit_at (suc (suc (suc (suc (suc (suc (suc (suc (suc (suc k)))))))))) h = absurd (omega arith)

digit_below : (k : ℕ) → k < 10 → zero_at (minus k) ≡ b'0' + k
digit_below zero h = refl
digit_below (suc zero) h = refl
digit_below (suc (suc zero)) h = refl
digit_below (suc (suc (suc zero))) h = refl
digit_below (suc (suc (suc (suc zero)))) h = refl
digit_below (suc (suc (suc (suc (suc zero))))) h = refl
digit_below (suc (suc (suc (suc (suc (suc zero)))))) h = refl
digit_below (suc (suc (suc (suc (suc (suc (suc zero))))))) h = refl
digit_below (suc (suc (suc (suc (suc (suc (suc (suc zero)))))))) h = refl
digit_below (suc (suc (suc (suc (suc (suc (suc (suc (suc zero))))))))) h = refl
digit_below (suc (suc (suc (suc (suc (suc (suc (suc (suc (suc k)))))))))) h = absurd (omega arith)

-- The character of the last digit, for either sign.
zero_at-rem : (i : ℤ) → zero_at (rem i 10) ≡ b'0' + abs i % 10
zero_at-rem (pos n) = digit_at (n % 10) (omega arith)
zero_at-rem (negsuc n) = digit_below (suc n % 10) (omega arith)

abs-minus : (k : ℕ) → abs (minus k) ≡ k
abs-minus zero = refl
abs-minus (suc k) = refl

abs-quot : (i : ℤ) → abs (quot i 10) ≡ abs i / 10
abs-quot (pos n) = refl
abs-quot (negsuc n) = abs-minus (suc n / 10)

-- The loop ends, with the digits of the number.
value_of-convert_loop : (fuel : ℕ) (i : ℤ) → abs i < fuel → value_of (convert_loop fuel i) ≡ abs i
unfolding convert_loop
value_of-convert_loop zero i h = absurd (omega arith)
value_of-convert_loop (suc fuel) i h =
    if-cases (is_zero (quot i 10))
      (λ (r : List ℕ). zero_at (rem i 10) - b'0' + 10 * value_of r ≡ abs i) _ _
      (λ e. rw (zero_at-rem i) (omega (arith, abs-quot i, ==→eq _ _ e)))
      (λ e.
        let more : 0 < abs (quot i 10) = omega (arith, ==→ne _ _ e) in
        let ih = value_of-convert_loop fuel (quot i 10) (omega (arith, abs-quot i)) in
        rw (zero_at-rem i, ih) (omega (arith, abs-quot i)))

-- A number below 10 ^ (k + 1) has at most k + 1 digits.
length-convert_loop :
    (k fuel : ℕ) (i : ℤ) → abs i < 10 ^ suc k → length (convert_loop fuel i) ≤ suc k
unfolding convert_loop
length-convert_loop k zero i h = omega arith
length-convert_loop zero (suc fuel) i h =
    if-cases (is_zero (quot i 10)) (λ (r : List ℕ). suc (length r) ≤ 1) _ _ (λ e. omega arith)
      (λ e. absurd (omega (arith, abs-quot i, ==→ne _ _ e)))
length-convert_loop (suc k) (suc fuel) i h =
    if-cases (is_zero (quot i 10)) (λ (r : List ℕ). suc (length r) ≤ suc (suc k)) _ _
      (λ e. omega arith)
      (λ e. omega (arith, length-convert_loop k fuel (quot i 10) (omega (arith, abs-quot i))))

-- Every character is a digit.
abbrev pub AreDigits : List ℕ → Type 0
AreDigits [] = Unit {0}
AreDigits (c ∷ cs) = (b'0' ≤ c) × (c ≤ b'9') × AreDigits cs

AreDigits-convert_loop : (fuel : ℕ) (i : ℤ) → AreDigits (convert_loop fuel i)
unfolding convert_loop
AreDigits-convert_loop zero i = tt
AreDigits-convert_loop (suc fuel) i = (
  omega (arith, zero_at-rem i),
  omega (arith, zero_at-rem i),
  if-cases (is_zero (quot i 10)) AreDigits _ _ (λ e. tt)
      (λ e. AreDigits-convert_loop fuel (quot i 10)),
)

AreDigits-reverse_aux : (xs r : List ℕ) → AreDigits xs → AreDigits r → AreDigits (reverse_aux xs r)
AreDigits-reverse_aux [] r h k = k
AreDigits-reverse_aux (x ∷ xs) r (low, high, h) k =
    AreDigits-reverse_aux xs (x ∷ r) h (low, high, k)

pub length-reverse_aux : (xs r : List ℕ) → length (reverse_aux xs r) ≡ length xs + length r
length-reverse_aux [] r = omega arith
length-reverse_aux (x ∷ xs) r = omega (arith, length-reverse_aux xs (x ∷ r))

-- A number is written with no zero in front, but for the number 0 itself.
abbrev pub NoLeadingZero : List ℕ → Type 0
NoLeadingZero [] = ⊥
NoLeadingZero (c ∷ []) = Unit {0}
NoLeadingZero (c ∷ d ∷ cs) = b'0' < c

abbrev pub IsNumeral : ℕ → List ℕ → Type 0
IsNumeral n cs = AreDigits cs × NoLeadingZero cs × (horner 0 cs ≡ n)

-- The decimal text of an integer
abbrev pub IsText : ℤ → List ℕ → Type 0
IsText (pos n) cs = IsNumeral n cs
IsText (negsuc n) [] = ⊥
IsText (negsuc n) (c ∷ cs) = (c ≡ b'-') × IsNumeral (suc n) cs

-- The digit stored last is not a zero.
abbrev EndsHigh : List ℕ → Type 0
EndsHigh [] = ⊥
EndsHigh (c ∷ []) = b'0' < c
EndsHigh (c ∷ d ∷ cs) = EndsHigh (d ∷ cs)

EndsHigh-cons : (c : ℕ) (cs : List ℕ) → EndsHigh cs → EndsHigh (c ∷ cs)
EndsHigh-cons c [] h = absurd h
EndsHigh-cons c (d ∷ cs) h = h

EndsHigh-convert_loop :
    (fuel : ℕ) (i : ℤ) → 0 < abs i → abs i < fuel → EndsHigh (convert_loop fuel i)
unfolding convert_loop
EndsHigh-convert_loop zero i some_left h = absurd (omega arith)
EndsHigh-convert_loop (suc fuel) i some_left h =
    if-cases (is_zero (quot i 10)) (λ (r : List ℕ). EndsHigh (zero_at (rem i 10) ∷ r)) _ _
      (λ e. omega (arith, zero_at-rem i, abs-quot i, ==→eq _ _ e))
      (λ e. EndsHigh-cons (zero_at (rem i 10)) (convert_loop fuel (quot i 10)) (
        EndsHigh-convert_loop fuel (quot i 10) (omega (arith, ==→ne _ _ e))
          (omega (arith, abs-quot i))))

NoLeadingZero-reverse_aux : (xs r : List ℕ) → EndsHigh xs → NoLeadingZero (reverse_aux xs r)
NoLeadingZero-reverse_aux [] r h = absurd h
NoLeadingZero-reverse_aux (c ∷ []) [] h = tt
NoLeadingZero-reverse_aux (c ∷ []) (d ∷ r) h = h
NoLeadingZero-reverse_aux (c ∷ d ∷ xs) r h = NoLeadingZero-reverse_aux (d ∷ xs) (c ∷ r) h

numeral : (i : ℤ) → 0 < abs i → IsNumeral (abs i) (reverse_aux (convert_loop (suc (abs i)) i) [])
numeral i some_left =
    let text = convert_loop (suc (abs i)) i in
    (
      AreDigits-reverse_aux text [] (AreDigits-convert_loop (suc (abs i)) i) tt,
      NoLeadingZero-reverse_aux text []
          (EndsHigh-convert_loop (suc (abs i)) i some_left (omega arith)),
      horner-reverse_aux text [] ∙ value_of-convert_loop (suc (abs i)) i (omega arith),
    )

-- The text that convert makes of any integer is its decimal text: a `-` in front of a negative one, and
-- then digits whose value is that of the integer less its sign, the first of them not a zero unless it is
-- the only one.
pub convert-IsText : (i : ℤ) → IsText i (convert i)
unfolding convert convert_loop
convert-IsText (pos zero) = ((omega arith, omega arith, tt), tt, refl)
convert-IsText (pos (suc n)) = rw append-nil (numeral (pos (suc n)) (omega arith))
convert-IsText (negsuc n) = rw reverse_aux-append ((refl, numeral (negsuc n) (omega arith)))

-- The text of an integer of at most k + 1 digits, with its sign.
pub length-convert : (k : ℕ) (i : ℤ) → abs i < 10 ^ suc k → length (convert i) ≤ suc (suc k)
unfolding convert
length-convert k (pos n) h = omega (
  arith,
  length-reverse_aux (convert_loop (suc n) (pos n) ++ []) [],
  length-append (convert_loop (suc n) (pos n)) [],
  length-convert_loop k (suc n) (pos n) h,
)
length-convert k (negsuc n) h = omega (
  arith,
  length-reverse_aux (convert_loop (suc (suc n)) (negsuc n) ++ b'-' ∷ []) [],
  length-append (convert_loop (suc (suc n)) (negsuc n)) (b'-' ∷ []),
  length-convert_loop k (suc (suc n)) (negsuc n) h,
)

pub AreDigits-convert : (n : ℕ) → AreDigits (convert (pos n))
unfolding convert
AreDigits-convert n =
    let text = convert_loop (suc n) (pos n) in
    rw append-nil (AreDigits-reverse_aux text [] (AreDigits-convert_loop (suc n) (pos n)) tt)

pub horner-convert : (n : ℕ) → horner 0 (convert (pos n)) ≡ n
unfolding convert
horner-convert n =
    let text = convert_loop (suc n) (pos n) in
    rw append-nil (horner-reverse_aux text [] ∙ value_of-convert_loop (suc n) (pos n) (omega arith))

pub length-convert_pos : (n : ℕ) → 0 < length (convert (pos n))
unfolding convert convert_loop
length-convert_pos n = omega (
  arith,
  length-reverse_aux (convert_loop (suc n) (pos n) ++ []) [],
  length-append (convert_loop (suc n) (pos n)) [],
)
