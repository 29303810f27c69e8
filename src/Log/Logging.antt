-- ===== src/Log/Logging.antt =====
-- log/Logging.h: the directory that log files go to. A string is the list of its characters' codes.
pub mod Slash
use libiak.Prelude.{
  ℕ, zero, suc, ◌-◌, ◌^◌, List, [], ◌∷◌, ◌++◌, Option, none, some, length, not, ◌==◌, if◌then◌else◌,
}

abbrev pub slash : ℕ
slash = 47

abbrev pub later : Option ℕ → Option ℕ → Option ℕ
later first none = first
later first (some i) = some (suc i)

-- The last position of a character.
unfoldable pub last_position : ℕ → List ℕ → Option ℕ
last_position c [] = none
last_position c (x ∷ xs) = later (if x == c then some 0 else none) (last_position c xs)

-- std::string::find_last_of for one character; npos is the largest size_t.
abbrev pub or_npos : Option ℕ → ℕ
or_npos none = 2 ^ 64 - 1
or_npos (some i) = i

-- Logging::setLogDestination, as the new value of s_destination_
unfoldable pub set_log_destination : List ℕ → List ℕ
unfolding last_position
set_log_destination destination =
    if not (or_npos (last_position slash destination) == length destination)
    then destination ++ slash ∷ []
    else destination
