-- ===== src/Base/Atomic.antt =====
-- base/Atomic.h: AtomicInt32 and AtomicInt64, which differ in their width only. An operation is one step of
-- its thread, for the builtin it calls is atomic; `none` is the undefined overflow of a signed sum, which
-- the builtins do not have: they wrap around.
pub mod Sums
pub mod Tickets
mod Tests
use libiak.Prelude.{
  ℕ, zero, suc, ◌+◌, ◌-◌, ◌%◌, ◌^◌, Bool, true, false, List, [], ◌∷◌, Option, none, some,
  if◌then◌else◌, ltb, ◌==◌, ◌>>=◌, ℤ, pos, negsuc, minus, abs, ◌+ℤ◌,
}

pub data Width : Type 0 where
  int32 int64 : Width

-- The number of values, and of those that are not negative
abbrev pub modulus : Width → ℕ
modulus int32 = 2 ^ 32
modulus int64 = 2 ^ 64

abbrev pub half : Width → ℕ
half int32 = 2 ^ 31
half int64 = 2 ^ 63

-- The two's complement of an integer, and the value of a pattern of bits
abbrev pub bits : Width → ℤ → ℕ
bits w (pos n) = n % modulus w
bits w (negsuc n) = modulus w - suc (n % modulus w)

abbrev pub of_bits : Width → ℕ → ℤ
of_bits w n = if ltb n (half w) then pos n else minus (modulus w - n)

abbrev pub wrap : Width → ℤ → ℤ
wrap w i = of_bits w (bits w i)

-- Whether the type has this value
abbrev pub fits : Width → ℤ → Bool
fits w (pos n) = ltb n (half w)
fits w (negsuc n) = ltb n (half w)

-- The sum of two signed numbers, which must not overflow
abbrev pub checked_sum : Width → ℤ → ℤ → Option ℤ
checked_sum w a b = if fits w (a +ℤ b) then some (a +ℤ b) else none

-- __sync_fetch_and_add(&value_, x), __sync_val_compare_and_swap(&value_, old, new) and
-- __sync_lock_test_and_set(&value_, x): what they return, and value_ behind them
abbrev pub fetch_and_add : Width → ℤ → ℤ → ℤ × ℤ
fetch_and_add w x value = (value, wrap w (value +ℤ x))

abbrev pub is_equal : ℤ → ℤ → Bool
is_equal (pos a) (pos b) = a == b
is_equal (negsuc a) (negsuc b) = a == b
is_equal (pos a) (negsuc b) = false
is_equal (negsuc a) (pos b) = false

abbrev pub compare_and_swap : ℤ → ℤ → ℤ → ℤ × ℤ
compare_and_swap old new value = (value, if is_equal value old then new else value)

abbrev pub test_and_set : ℤ → ℤ → ℤ × ℤ
test_and_set x value = (value, x)

-- AtomicInt32::AtomicInt32
abbrev pub new_value : ℤ
new_value = pos 0

-- AtomicInt32::get
unfoldable pub get : ℤ → ℤ × ℤ
get value = compare_and_swap (pos 0) (pos 0) value

-- AtomicInt32::getAndAdd
unfoldable pub get_and_add : Width → ℤ → ℤ → ℤ × ℤ
get_and_add w x value = fetch_and_add w x value

-- AtomicInt32::addAndGet
unfoldable pub add_and_get : Width → ℤ → ℤ → Option (ℤ × ℤ)
unfolding get_and_add
add_and_get w x value = do
  let (old, value') = get_and_add w x value
  sum ← checked_sum w old x
  some (sum, value')

-- AtomicInt32::incrementAndGet
unfoldable pub increment_and_get : Width → ℤ → Option (ℤ × ℤ)
unfolding add_and_get
increment_and_get w value = add_and_get w (pos 1) value

-- AtomicInt32::decrementAndGet
unfoldable pub decrement_and_get : Width → ℤ → Option (ℤ × ℤ)
unfolding add_and_get
decrement_and_get w value = add_and_get w (negsuc 0) value

-- AtomicInt32::add
unfoldable pub add : Width → ℤ → ℤ → ℤ
unfolding get_and_add
add w x value = (get_and_add w x value).1

-- AtomicInt32::increment
unfoldable pub increment : Width → ℤ → Option ℤ
unfolding increment_and_get
increment w value = do (sum, value') ← increment_and_get w value; some value'

-- AtomicInt32::decrement
unfoldable pub decrement : Width → ℤ → Option ℤ
unfolding decrement_and_get
decrement w value = do (sum, value') ← decrement_and_get w value; some value'

-- AtomicInt32::getAndSet
unfoldable pub get_and_set : ℤ → ℤ → ℤ × ℤ
get_and_set x value = test_and_set x value
