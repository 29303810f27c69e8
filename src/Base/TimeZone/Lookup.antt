-- ===== src/Base/TimeZone/Lookup.antt =====
-- findLocaltime finds the local time that is in force.
use libiak.Prelude.{
  length, ℕ, zero, suc, ◌<◌, ◌≡◌, refl, Bool, true, false, List, [], ◌∷◌, Option, some, get_elem?,
  if◌then◌else◌, if-cases, arith, Bool-cases, inl, inr, lt→ltb, ltb→le, ◌<ℤ◌,
}
use libiak.Base.TimeZone.{
  Transition, Localtime, Data, key, less, equal, lower_bound, back, choose, find_localtime,
}

-- Each transition begins before the next.
abbrev pub Ascends : Bool → Transition → List Transition → Type 0
Ascends gmt t [] = Unit {0}
Ascends gmt t (u ∷ us) = (key gmt t <ℤ key gmt u) × Ascends gmt u us

-- The last of the transitions that begins no later than the sentry, `t` being one that does.
abbrev pub last_begun : Bool → Transition → List Transition → Transition → Transition
last_begun gmt t [] sentry = t
last_begun gmt t (u ∷ us) sentry = if less gmt sentry u then t else last_begun gmt u us sentry

-- The local time of the last transition that has begun; where none has, or there is none, the first
-- local time of the zone, be it daylight saving time or not. Behind the last transition its local time
-- goes on for ever.
abbrev pub in_force : Bool → Data → Transition → Option Localtime
in_force gmt d sentry = elim d.transitions [
  | [] ↦ get_elem? d.localtimes 0
  | t ∷ ts ↦
      if less gmt sentry t
      then get_elem? d.localtimes 0
      else get_elem? d.localtimes (last_begun gmt t ts sentry).localtime_idx
]

module _ (gmt : Bool) (s : Transition) where
  not_less→equal :
      (t : Transition) → less gmt t s ≡ false → less gmt s t ≡ false → equal gmt s t ≡ true
  not_less→equal t h k = ground arith

  less→not_equal : (t : Transition) → less gmt s t ≡ true → equal gmt s t ≡ false
  less→not_equal t h = ground arith

  less→not_less : (t : Transition) → less gmt s t ≡ true → less gmt t s ≡ false
  less→not_less t h = ground arith

  before_next :
      (t u : Transition) → less gmt t s ≡ false → key gmt t <ℤ key gmt u → less gmt s u ≡ true
  before_next t u h k = lt→ltb _ _ (omega (arith, ltb→le _ _ h))

  choose-last_begun :
      (t : Transition) (ts : List Transition)
      → Ascends gmt t ts
      → less gmt s t ≡ false
      → choose gmt (t ∷ ts) s (back t ts) (lower_bound gmt (t ∷ ts) s)
        ≡ some (last_begun gmt t ts s)
  choose-last_begun t [] a h = elim (Bool-cases (less gmt t s)) [
    | inl early ↦ rw early refl
    | inr late ↦ rw (late, not_less→equal t late h) refl
  ]
  choose-last_begun t (u ∷ us) (lt, a) h = elim (Bool-cases (less gmt t s)) [
    | inr late ↦ rw (late, not_less→equal t late h, before_next t u late lt) refl
    | inl early ↦ elim (Bool-cases (less gmt s u)) [
      | inl not_yet ↦ rw (early, less→not_less u not_yet, less→not_equal u not_yet, not_yet) refl
      | inr begun ↦
          let ih = choose-last_begun u us a begun in
          elim (Bool-cases (less gmt u s)) [
            | inl earlier ↦ rw (early, begun, earlier) (rw earlier at ih)
            | inr same ↦
                rw (early, begun, same, not_less→equal u same begun)
                  (rw (same, not_less→equal u same begun) at ih)
          ]
    ]
  ]

abbrev pub AreAscending : Bool → List Transition → Type 0
AreAscending gmt [] = Unit {0}
AreAscending gmt (t ∷ ts) = Ascends gmt t ts

abbrev pub AreInside : ℕ → List Transition → Type 0
AreInside n [] = Unit {0}
AreInside n (t ∷ ts) = (t.localtime_idx < n) × AreInside n ts

-- The data of a zone: there is a local time, and the transitions name local times that are there.
pub record IsComplete (d : Data) : Type 0 where
  pub some_localtime : 0 < length d.localtimes
  pub inside : AreInside (length d.localtimes) d.transitions

last_begun-inside :
    (n : ℕ) (gmt : Bool) (t : Transition) (ts : List Transition) (s : Transition)
    → AreInside n (t ∷ ts)
    → (last_begun gmt t ts s).localtime_idx < n
last_begun-inside n gmt t [] s h = h.0
last_begun-inside n gmt t (u ∷ us) s h =
    if-cases (less gmt s u) (λ (r : Transition). r.localtime_idx < n) _ _ (λ e. h.0)
      (λ e. last_begun-inside n gmt u us s h.1)

get_elem?-inside :
    (xs : List Localtime) (i : ℕ) → i < length xs → (l : Localtime) × (get_elem? xs i ≡ some l)
get_elem?-inside [] i h = absurd (omega arith)
get_elem?-inside (x ∷ xs) zero h = (x, refl)
get_elem?-inside (x ∷ xs) (suc i) h = get_elem?-inside xs i (omega arith)

module _ (gmt : Bool) (s : Transition) where
  find-in_force :
      (ts : List Transition) (ls : List Localtime) (names : List ℕ)
      → AreAscending gmt ts
      → let d : Data = record { transitions = ts; localtimes = ls; abbreviation = names } in
        find_localtime d s gmt ≡ in_force gmt d s
  unfolding find_localtime
  find-in_force [] ls names a = refl
  find-in_force (t ∷ ts) ls names a = elim (Bool-cases (less gmt s t)) [
    | inl early ↦ rw early refl
    | inr begun ↦ rw (begun, choose-last_begun gmt s t ts a begun) refl
  ]

  in_force-some :
      (ts : List Transition) (ls : List Localtime) (names : List ℕ)
      → 0 < length ls
      → AreInside (length ls) ts
      → let d : Data = record { transitions = ts; localtimes = ls; abbreviation = names } in
        (l : Localtime) × (in_force gmt d s ≡ some l)
  in_force-some [] ls names h k = get_elem?-inside ls 0 h
  in_force-some (t ∷ ts) ls names h k =
      if-cases (less gmt s t) (λ (r : Option Localtime). (l : Localtime) × (r ≡ some l)) _ _
        (λ e. get_elem?-inside ls 0 h)
        (λ e. get_elem?-inside ls _ (last_begun-inside (length ls) gmt t ts s k))

-- On transitions that ascend, findLocaltime passes its assertion and reads inside its vectors, and
-- finds the local time of the last transition that begins no later than the time it is asked for, also
-- behind the last one; where none does, it finds the zone's first local time, also if that is daylight
-- saving time.
pub find_localtime-in_force :
    (gmt : Bool) (d : Data) (s : Transition)
    → IsComplete d
    → AreAscending gmt d.transitions
    → (find_localtime d s gmt ≡ in_force gmt d s) × ((l : Localtime) × (in_force gmt d s ≡ some l))
find_localtime-in_force gmt d s v a = (
  find-in_force gmt s d.transitions d.localtimes d.abbreviation a,
  in_force-some gmt s d.transitions d.localtimes d.abbreviation v.some_localtime v.inside,
)
