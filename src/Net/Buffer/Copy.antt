-- ===== src/Net/Buffer/Copy.antt =====
-- Copies into a block.
use libiak.Prelude.{
  ℕ, ◌+◌, ◌-◌, ◌≤◌, ◌≡◌, refl, List, [], ◌++◌, take, drop, length, get_or, arith, ltb,
  if◌then◌else◌, ◌&&◌, leb, get_or-drop, get_or-take, get_or-append, length-append, length-take,
  length-drop,
}
use libiak.Net.Buffer.{put}

-- A copy of no bytes.
pub put-nil : (xs : List ℕ) → put xs 0 [] ≡ xs
unfolding put
put-nil xs = refl

pub length-put :
    (xs : List ℕ) (off : ℕ) (src : List ℕ)
    → off + length src ≤ length xs
    → length (put xs off src) ≡ length xs
unfolding put
length-put xs off src h = omega (
  arith,
  length-append (take off xs) (src ++ drop (off + length src) xs),
  length-append src (drop (off + length src) xs),
  length-take off xs,
  length-drop (off + length src) xs,
)

-- A copy writes its range and nothing else.
pub get_or-put :
    (xs : List ℕ) (off : ℕ) (src : List ℕ) (i : ℕ)
    → off + length src ≤ length xs
    → get_or (put xs off src) i 0
      ≡ (if leb off i && ltb i (off + length src) then get_or src (i - off) 0 else get_or xs i 0)
unfolding put
get_or-put xs off src i h = ground (
  arith,
  get_or-append (take off xs) (src ++ drop (off + length src) xs) i 0,
  get_or-append src (drop (off + length src) xs) (i - length (take off xs)) 0,
  length-take off xs,
  get_or-take off xs i 0,
  get_or-drop (off + length src) xs (i - length (take off xs) - length src) 0,
)
