-- ===== src/Log/Logging/Slash.antt =====
-- Logging::setLogDestination appends a slash to every destination.
use libiak.Prelude.{
  ℕ, suc, ◌+◌, ◌<◌, ◌≡◌, ◌^◌, Bool, true, false, List, [], ◌∷◌, ◌++◌, Option, none, some, length,
  arith, refl, if◌then◌else◌, ◌==◌,
}
use libiak.Log.Logging.{slash, later, last_position, or_npos, set_log_destination}

-- A position that is inside.
abbrev Inside : ℕ → Option ℕ → Type 0
Inside n none = Unit {0}
Inside n (some i) = i < n

later-Inside :
    (n : ℕ) (b : Bool) (r : Option ℕ)
    → Inside n r
    → Inside (suc n) (later (if b then some 0 else none) r)
later-Inside n true none h = omega arith
later-Inside n false none h = tt
later-Inside n b (some i) h = omega (arith, h)

last_position-Inside : (c : ℕ) (xs : List ℕ) → Inside (length xs) (last_position c xs)
unfolding last_position
last_position-Inside c [] = tt
last_position-Inside c (x ∷ xs) =
    later-Inside (length xs) (x == c) (last_position c xs) (last_position-Inside c xs)

never_end : (n : ℕ) (r : Option ℕ) → n + 1 < 2 ^ 64 → Inside n r → (or_npos r == n) ≡ false
never_end n none small h = ground arith
never_end n (some i) small h = ground arith

-- For a destination of any length that a string can have, setLogDestination appends a slash, also
-- where the destination ends with one.
pub set_log_destination_lem :
    (destination : List ℕ)
    → length destination + 1 < 2 ^ 64
    → set_log_destination destination ≡ destination ++ slash ∷ []
unfolding set_log_destination
set_log_destination_lem destination small =
    rw
      (never_end (length destination) (last_position slash destination) small
        (last_position-Inside slash destination))
      refl
