-- ===== src/Base/Atomic/Sums.antt =====
-- The value of an atomic integer to which threads add.
use mathlib.Core.Bool.{false≢true}
use libiak.Prelude.{
  if-cases, ==→eq, ◌≡◌, refl, sym, ap, ◌∙◌, true, List, [], ◌∷◌, arith, ℤ, pos, negsuc, ◌+ℤ◌,
}
use libiak.Base.Atomic.{Width, int32, int64, wrap, fits, is_equal, get, get_and_add, add}

wrap-wrap : (w : Width) (a b : ℤ) → wrap w (wrap w a +ℤ b) ≡ wrap w (a +ℤ b)
unfolding ◌+ℤ◌
wrap-wrap int32 (pos a) (pos b) = ground arith
wrap-wrap int32 (pos a) (negsuc b) = ground arith
wrap-wrap int32 (negsuc a) (pos b) = ground arith
wrap-wrap int32 (negsuc a) (negsuc b) = ground arith
wrap-wrap int64 (pos a) (pos b) = ground arith
wrap-wrap int64 (pos a) (negsuc b) = ground arith
wrap-wrap int64 (negsuc a) (pos b) = ground arith
wrap-wrap int64 (negsuc a) (negsuc b) = ground arith

wrap-fits : (w : Width) (a : ℤ) → fits w a ≡ true → wrap w a ≡ a
wrap-fits int32 (pos a) h = ground arith
wrap-fits int32 (negsuc a) h = ground arith
wrap-fits int64 (pos a) h = ground arith
wrap-fits int64 (negsuc a) h = ground arith

+ℤ-assoc : (a b c : ℤ) → (a +ℤ b) +ℤ c ≡ a +ℤ (b +ℤ c)
unfolding ◌+ℤ◌
+ℤ-assoc a b c = ground arith

+ℤ-swap : (a b c : ℤ) → a +ℤ (b +ℤ c) ≡ b +ℤ (a +ℤ c)
unfolding ◌+ℤ◌
+ℤ-swap a b c = ground arith

+ℤ-zero : (a : ℤ) → a +ℤ pos 0 ≡ a
unfolding ◌+ℤ◌
+ℤ-zero a = ground arith

-- A call that adds, or only reads.
pub data Call : Type 0 where
  gets : Call
  adds gets_and_adds : ℤ → Call

abbrev pub added : Call → ℤ
added gets = pos 0
added (adds x) = x
added (gets_and_adds x) = x

abbrev pub total : List Call → ℤ
total [] = pos 0
total (c ∷ cs) = added c +ℤ total cs

-- The value behind a call
abbrev pub step : Width → Call → ℤ → ℤ
step w gets value = (get value).1
step w (adds x) value = add w x value
step w (gets_and_adds x) value = (get_and_add w x value).1

abbrev pub steps : Width → List Call → ℤ → ℤ
steps w [] value = value
steps w (c ∷ cs) value = steps w cs (step w c value)

-- The calls of two threads, as they come
pub data Interleaved : List Call → List Call → List Call → Type 0 where
  both_end : Interleaved [] [] []
  first_calls :
      (c : Call) (xs ys zs : List Call) → Interleaved xs ys zs → Interleaved (c ∷ xs) ys (c ∷ zs)
  second_calls :
      (c : Call) (xs ys zs : List Call) → Interleaved xs ys zs → Interleaved xs (c ∷ ys) (c ∷ zs)

total-Interleaved : {xs ys zs : List Call} → Interleaved xs ys zs → total zs ≡ total xs +ℤ total ys
unfolding ◌+ℤ◌
total-Interleaved both_end = refl
total-Interleaved (first_calls c xs ys zs i) =
    ap (λ t. added c +ℤ t) (total-Interleaved i) ∙ sym (+ℤ-assoc (added c) (total xs) (total ys))
total-Interleaved (second_calls c xs ys zs i) =
    ap (λ t. added c +ℤ t) (total-Interleaved i) ∙ +ℤ-swap (added c) (total xs) (total ys)

is_equal-eq : (a b : ℤ) → is_equal a b ≡ true → b ≡ a
is_equal-eq (pos a) (pos b) e = ap pos (sym (==→eq a b e))
is_equal-eq (negsuc a) (negsuc b) e = ap negsuc (sym (==→eq a b e))
is_equal-eq (pos a) (negsuc b) e = absurd (false≢true e)
is_equal-eq (negsuc a) (pos b) e = absurd (false≢true e)

get-value : (value : ℤ) → (get value).1 ≡ value
unfolding get
get-value value =
    if-cases (is_equal value (pos 0)) (λ i. i ≡ value) _ _ (is_equal-eq value (pos 0)) (λ e. refl)

step-wrap : (w : Width) (c : Call) (value : ℤ) → step w c (wrap w value) ≡ wrap w (value +ℤ added c)
unfolding add get_and_add
step-wrap w gets value = get-value (wrap w value) ∙ ap (wrap w) (sym (+ℤ-zero value))
step-wrap w (adds x) value = wrap-wrap w value x
step-wrap w (gets_and_adds x) value = wrap-wrap w value x

steps-wrap :
    (w : Width) (cs : List Call) (value : ℤ)
    → steps w cs (wrap w value) ≡ wrap w (value +ℤ total cs)
steps-wrap w [] value = ap (wrap w) (sym (+ℤ-zero value))
steps-wrap w (c ∷ cs) value =
    ap (steps w cs) (step-wrap w c value)
    ∙ steps-wrap w cs (value +ℤ added c)
    ∙ ap (wrap w) (+ℤ-assoc value (added c) (total cs))

-- In whatever order the calls of two threads reach an integer, none is lost: its value is the one before, and
-- what each of them added, with the wrap-around of its width.
pub steps-Interleaved :
    (w : Width) (value : ℤ) (xs ys zs : List Call)
    → fits w value ≡ true
    → Interleaved xs ys zs
    → steps w zs value ≡ wrap w (value +ℤ (total xs +ℤ total ys))
steps-Interleaved w value xs ys zs h i =
    ap (steps w zs) (sym (wrap-fits w value h))
    ∙ steps-wrap w zs value
    ∙ ap (λ t. wrap w (value +ℤ t)) (total-Interleaved i)
