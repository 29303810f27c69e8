-- ===== src/Net/ReadBuffers/Partial.antt =====
-- ReadData where the request ends inside a block behind the head: the bytes returned are right, and
-- the count of that block is not lowered.
use libiak.Prelude.{
  ℕ, ◌<◌, ◌≤◌, ◌≡◌, ◌^◌, ◌+◌, ◌-◌, ◌⊎◌, inl, inr, sym, ap, ◌∙◌, List, [], ◌∷◌, ◌++◌, Option, none,
  some, true, take, length, arith, u32, sub32, sub32-eq, u32-eq, take-append_le, take-append_ge,
  take_all, length-append,
}
use libiak.Net.Buffer.{Buffer, contents}
use libiak.Net.Buffer.Contents.{length-contents, slice-contents}
use libiak.Net.ReadBuffers.{
  ReadBuffers, Outcome, refused, fault, done, Taken, behind, read_others, read_from, finish_read,
  read_data,
}
use libiak.Net.Buffer.Chain.{held, Followers, IsChain}
use libiak.Net.ReadBuffers.Held.{IsReadable}
use libiak.Net.ReadBuffers.Peek.{copy_front-take}

-- The request of `n` bytes ends strictly inside one of the blocks.
abbrev EndsInside : ℕ → List Buffer → Buffer → Type 0
EndsInside n [] tail = (0 < n) × (n < tail.count)
EndsInside n (b ∷ front) tail =
    ((0 < n) × (n < b.count)) ⊎ ((b.count < n) × EndsInside (n - b.count) front tail)

-- The same, with that block not the head.
abbrev pub EndsBehindHead : ℕ → List Buffer → Buffer → Type 0
EndsBehindHead n [] tail = ⊥
EndsBehindHead n (b ∷ front) tail = (b.count < n) × EndsInside (n - b.count) front tail

-- The bytes are the oldest `n`, and the blocks claim more than the bytes that are left.
abbrev Overcounts : ℕ → List ℕ → Option Taken → Type 0
Overcounts n old none = ⊥
Overcounts n old (some (bytes, front, tail)) =
    (bytes ≡ take n old) × (length old < length (held front tail) + n)

Overcounts-behind :
    (n : ℕ) (first rest : List ℕ) (r : Option Taken)
    → length first ≤ n
    → Overcounts (n - length first) rest r
    → Overcounts n (first ++ rest) (behind first r)
Overcounts-behind n first rest none h v = v
Overcounts-behind n first rest (some (bytes, front, tail)) h v = (
  ap (λ more. first ++ more) v.0 ∙ sym (take-append_ge n first rest h),
  omega (arith, v.1, length-append first rest),
)

read_others-Overcounts :
    (front : List Buffer) (tail : Buffer) (n : ℕ)
    → Followers front tail
    → n < 2 ^ 32
    → EndsInside n front tail
    → Overcounts n (held front tail) (read_others n front tail)
unfolding read_others
read_others-Overcounts [] tail n v small e = ground (
  arith,
  length-contents tail,
  length-contents (record tail { pop = n }),
  slice-contents tail n v.0 v.1,
)
read_others-Overcounts (b ∷ front) tail n v small (inl e) = ground (
  arith,
  length-contents b,
  length-contents (record b { pop = n }),
  slice-contents b n v.0 v.1,
  take-append_le n (contents b) (held front tail),
  length-append (contents b) (held front tail),
  length-append (contents (record b { pop = n })) (held front tail),
)
read_others-Overcounts (b ∷ front) tail n v small (inr e) = ground (
  arith,
  length-contents b,
  slice-contents b b.count v.0 v.1,
  take_all b.count (contents b),
  sub32-eq n b.count,
  Overcounts-behind n (contents b) (held front tail) (read_others (sub32 n b.count) front tail),
  read_others-Overcounts front tail (n - b.count) v.2,
)

read_from-Overcounts :
    (front : List Buffer) (tail : Buffer) (n : ℕ)
    → IsChain front tail
    → n < 2 ^ 32
    → EndsBehindHead n front tail
    → Overcounts n (held front tail) (read_from n front tail)
unfolding read_from
read_from-Overcounts [] tail n v small e = absurd e
read_from-Overcounts (b ∷ front) tail n v small e = ground (
  arith,
  length-contents b,
  copy_front-take b b.count v.0,
  take_all b.count (contents b),
  u32-eq n small,
  sub32-eq n b.count,
  Overcounts-behind n (contents b) (held front tail)
      (read_others (sub32 (u32 n) b.count) front tail),
  read_others-Overcounts front tail (n - b.count) v.1,
)

-- ReadData returned the oldest `n` bytes, and left blocks that claim more bytes than `readSize_`.
abbrev pub LeavesStale : ℕ → ReadBuffers → Outcome (List ℕ × ReadBuffers) → Type 0
LeavesStale n r refused = ⊥
LeavesStale n r fault = ⊥
LeavesStale n r (done (bytes, r')) =
    (bytes ≡ take n (held r.front r.tail)) × (r'.size < length (held r'.front r'.tail))

finish_read-LeavesStale :
    (n : ℕ) (r : ReadBuffers) (t : Option Taken)
    → IsReadable r
    → n ≤ r.size
    → Overcounts n (held r.front r.tail) t
    → LeavesStale n r (finish_read n r t)
finish_read-LeavesStale n r none v h t = t
finish_read-LeavesStale n r (some (bytes, front, tail)) v h t =
    (t.0, omega (arith, v.sized, v.small))

-- ReadData, asked for bytes that end strictly inside a block behind the head, still returns the
-- oldest bytes, but leaves blocks whose counts add up to more than `readSize_`: the `count` of the
-- block that was read in part was not lowered.
pub read_data-LeavesStale :
    (n : ℕ) (r : ReadBuffers)
    → IsReadable r
    → 0 < n
    → n ≤ r.size
    → EndsBehindHead n r.front r.tail
    → LeavesStale n r (read_data true n r)
unfolding read_data
read_data-LeavesStale n r v pos h e =
    let step =
      finish_read-LeavesStale n r (read_from n r.front r.tail) v h
        (read_from-Overcounts r.front r.tail n v.chain (omega (arith, v.small)) e) in
    ground (arith, step)
