-- ===== src/Base/Atomic/Tests.antt =====
-- base/Atomic.h at the bounds of a 32-bit integer.
use libiak.Prelude.{◌-◌, ◌^◌, ◌≡◌, refl, none, [], ◌∷◌, pos, negsuc, ◌+ℤ◌}
use libiak.Base.Atomic.{int32, get, add, get_and_add, add_and_get, increment_and_get}
use libiak.Base.Atomic.Sums.{gets, adds, gets_and_adds, steps}

-- The value passes its upper bound, and comes back.
passes_bound :
    steps int32 (adds (pos 7) ∷ gets ∷ gets_and_adds (negsuc 9) ∷ []) (pos (2 ^ 31 - 1))
    ≡ pos (2 ^ 31 - 4)
unfolding ◌+ℤ◌ get add get_and_add
passes_bound = refl

overflows : increment_and_get int32 (pos (2 ^ 31 - 1)) ≡ none
unfolding ◌+ℤ◌ increment_and_get add_and_get get_and_add
overflows = refl
