-- ===== src/Log/LogMessage/Base.antt =====
-- The file name of a log line is what stands behind the last slash.
use libiak.Prelude.{
  ℕ, suc, ◌≡◌, ◌⊎◌, inl, inr, refl, ap, List, [], ◌∷◌, ◌++◌, Option, none, some, drop, ◌==◌,
  if◌then◌else◌, if-cases, ==→eq, ==→ne,
}
use libiak.Log.Logging.{slash, later, last_position}
use libiak.Log.LogMessage.{behind, base_name}

-- No character is a slash.
abbrev pub NoSlash : List ℕ → Type 0
NoSlash [] = Unit {0}
NoSlash (c ∷ cs) = ¬ (c ≡ slash) × NoSlash cs

-- The name is the whole path, without a slash, or what follows a slash.
abbrev pub IsBase : List ℕ → List ℕ → Type 0
IsBase path base =
    NoSlash base × ((base ≡ path) ⊎ ((directory : List ℕ) × (path ≡ directory ++ slash ∷ base)))

-- What a position says of the path.
abbrev Found : List ℕ → Option ℕ → Type 0
Found path none = NoSlash path
Found path (some i) =
    NoSlash (drop (suc i) path)
    × (directory : List ℕ) × (path ≡ directory ++ slash ∷ drop (suc i) path)

later-Found :
    (c : ℕ) (path : List ℕ) (r : Option ℕ)
    → Found path r
    → Found (c ∷ path) (later (if c == slash then some 0 else none) r)
later-Found c path (some i) (clean, directory, e) = (clean, c ∷ directory, ap (λ cs. c ∷ cs) e)
later-Found c path none clean =
    if-cases (c == slash) (λ (r : Option ℕ). Found (c ∷ path) r) _ _
      (λ e. (clean, [], ap (λ x. x ∷ path) (==→eq _ _ e))) (λ e. (==→ne _ _ e, clean))

last_position-Found : (path : List ℕ) → Found path (last_position slash path)
unfolding last_position
last_position-Found [] = tt
last_position-Found (c ∷ path) =
    later-Found c path (last_position slash path) (last_position-Found path)

behind-IsBase : (path : List ℕ) (r : Option ℕ) → Found path r → IsBase path (behind path r)
behind-IsBase path none clean = (clean, inl refl)
behind-IsBase path (some i) (clean, directory, e) = (clean, inr (directory, e))

-- The name that a line shows for its source file has no slash, and is the whole path or all that
-- follows a slash in it.
pub base_name-IsBase : (path : List ℕ) → IsBase path (base_name path)
unfolding base_name
base_name-IsBase path = behind-IsBase path (last_position slash path) (last_position-Found path)
