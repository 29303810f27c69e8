-- ===== src/Net/ReadBuffers/Read.antt =====
-- ReadData: which bytes it returns, and what it leaves.
use native.Mathlib.Nat.{mod-eq_of_lt, mod_self}
use libiak.Prelude.{
  ℕ, ◌<◌, ◌≤◌, ◌≡◌, ◌^◌, ◌+◌, ◌-◌, ◌⊎◌, inl, inr, sym, ap, ◌∙◌, List, [], ◌∷◌, ◌++◌, Option, none,
  some, true, take, drop, length, arith, u32, sub32, sub32-eq, u32-eq, take-append_le,
  take-append_ge, drop-append_le, drop-append_ge, take_all, drop_all, length-drop,
}
use libiak.Net.Buffer.{Buffer, IsValid, at, window, contents}
use libiak.Net.Buffer.Contents.{length-contents, window_wrapped, drop-contents, slice-contents}
use libiak.Net.ReadBuffers.{
  ReadBuffers, Outcome, refused, fault, done, copy_front, advance, reset, Taken, behind,
  read_others, read_from, finish_read, read_data,
}
use libiak.Net.Buffer.Chain.{held, Followers, IsChain, Followers-IsChain}
use libiak.Net.ReadBuffers.Held.{IsReadable}
use libiak.Net.ReadBuffers.Peek.{copy_front-take}

advance-pop :
    (b : Buffer) (n : ℕ)
    → IsValid b
    → n < b.count
    → ((advance b n).pop ≡ b.pop + n) ⊎ (b.pop + n ≡ b.capacity + (advance b n).pop)
unfolding advance
advance-pop b n v h =
    ground (arith, mod-eq_of_lt {n = b.pop + n} {m = b.capacity}, mod_self b.capacity)

advance-count : (b : Buffer) (n : ℕ) → IsValid b → n < b.count → (advance b n).count ≡ b.count - n
unfolding advance
advance-count b n v h = omega (arith, v.count_in, v.small)

advance-IsValid : (b : Buffer) (n : ℕ) → IsValid b → n < b.count → IsValid (advance b n)
unfolding advance
advance-IsValid b n v h =
    ground (arith, mod-eq_of_lt {n = b.pop + n} {m = b.capacity}, mod_self b.capacity)

contents-advance :
    (b : Buffer) (n : ℕ)
    → IsValid b
    → n < b.count
    → contents (advance b n) ≡ window (at b) (advance b n).pop (b.count - n)
unfolding advance
contents-advance b n v h = ap (window (at b) (advance b n).pop) (advance-count b n v h)

-- A read inside the head drops those bytes.
advance-drop :
    (b : Buffer) (n : ℕ) → IsValid b → n < b.count → contents (advance b n) ≡ drop n (contents b)
advance-drop b n v h =
    contents-advance b n v h ∙ shifted (advance-pop b n v h) ∙ sym (drop-contents b n)
  where
    shifted :
        ((advance b n).pop ≡ b.pop + n) ⊎ (b.pop + n ≡ b.capacity + (advance b n).pop)
        → window (at b) (advance b n).pop (b.count - n) ≡ window (at b) (b.pop + n) (b.count - n)
    shifted (inl e) = rw e
    shifted (inr e) = sym (
        window_wrapped b (advance b n).pop (b.count - n) (b.pop + n) e
          (omega (arith, v.count_in, v.push_in, v.range)))

-- What a read of `n` bytes off a chain that holds `old` returns and leaves.
abbrev Reads : ℕ → List ℕ → Option Taken → Type 0
Reads n old none = ⊥
Reads n old (some (bytes, front, tail)) =
    (bytes ≡ take n old) × (held front tail ≡ drop n old) × IsChain front tail

Reads-behind :
    (n : ℕ) (first rest : List ℕ) (r : Option Taken)
    → length first ≤ n
    → Reads (n - length first) rest r
    → Reads n (first ++ rest) (behind first r)
Reads-behind n first rest none h v = v
Reads-behind n first rest (some (bytes, front, tail)) h v = (
  ap (λ more. first ++ more) v.0 ∙ sym (take-append_ge n first rest h),
  v.1 ∙ sym (drop-append_ge n first rest h),
  v.2,
)

-- A read of all bytes of the head.
Reads-whole :
    (first rest : List ℕ) (n : ℕ) (front : List Buffer) (tail : Buffer)
    → n ≡ length first
    → held front tail ≡ rest
    → IsChain front tail
    → Reads n (first ++ rest) (some (first, front, tail))
Reads-whole first rest n front tail e f c = (
  sym (take-append_le n first rest (omega arith) ∙ take_all n first (omega arith)),
  let nothing : n - length first ≡ 0 = omega arith in
      f ∙ sym (drop-append_ge n first rest (omega arith) ∙ rw nothing),
  c,
)

-- The request of `n` bytes ends where a block ends.
abbrev pub EndsAtBlock : ℕ → List Buffer → Buffer → Type 0
EndsAtBlock n [] tail = n ≡ tail.count
EndsAtBlock n (b ∷ front) tail =
    (n ≡ b.count) ⊎ ((b.count < n) × EndsAtBlock (n - b.count) front tail)

reset-IsValid : (b : Buffer) → IsValid b → IsValid (reset b)
reset-IsValid b v = omega arith

read_others-Reads :
    (front : List Buffer) (tail : Buffer) (n : ℕ)
    → Followers front tail
    → n < 2 ^ 32
    → EndsAtBlock n front tail
    → Reads n (held front tail) (read_others n front tail)
unfolding read_others
read_others-Reads [] tail n v small e = ground (
  arith,
  length-contents tail,
  slice-contents tail tail.count v.0 v.1,
  drop_all n (contents tail),
  reset-IsValid tail v.0,
)
read_others-Reads (b ∷ front) tail n v small (inl e) = ground (
  arith,
  length-contents b,
  slice-contents b b.count v.0 v.1,
  take_all b.count (contents b),
  Reads-whole (contents b) (held front tail) n front tail,
  Followers-IsChain front tail v.2,
)
read_others-Reads (b ∷ front) tail n v small (inr e) = ground (
  arith,
  length-contents b,
  slice-contents b b.count v.0 v.1,
  take_all b.count (contents b),
  sub32-eq n b.count,
  Reads-behind n (contents b) (held front tail) (read_others (sub32 n b.count) front tail),
  read_others-Reads front tail (n - b.count) v.2,
)

-- The request ends inside the head or at the end of a block.
abbrev pub EndsCleanly : ℕ → List Buffer → Buffer → Type 0
EndsCleanly n [] tail = n ≤ tail.count
EndsCleanly n (b ∷ front) tail = (n < b.count) ⊎ EndsAtBlock n (b ∷ front) tail

Reads-inside :
    (b : Buffer) (front : List Buffer) (tail : Buffer) (n : ℕ)
    → IsChain (b ∷ front) tail
    → n < b.count
    → Reads n (contents b ++ held front tail) (some (copy_front b n, advance b n ∷ front, tail))
Reads-inside b front tail n v h = (
  copy_front-take b n v.0 (omega arith)
      ∙ sym (take-append_le n (contents b) (held front tail) (omega (arith, length-contents b))),
  ap (λ bytes. bytes ++ held front tail) (advance-drop b n v.0 h)
      ∙ sym (drop-append_le n (contents b) (held front tail) (omega (arith, length-contents b))),
  (advance-IsValid b n v.0 h, v.1),
)

read_from-Reads :
    (front : List Buffer) (tail : Buffer) (n : ℕ)
    → IsChain front tail
    → n < 2 ^ 32
    → EndsCleanly n front tail
    → Reads n (held front tail) (read_from n front tail)
unfolding read_from
read_from-Reads [] tail n v small e = ground (
  arith,
  length-contents tail,
  copy_front-take tail n v,
  copy_front-take tail tail.count v,
  take_all tail.count (contents tail),
  drop_all n (contents tail),
  advance-drop tail n v,
  advance-IsValid tail n v,
  reset-IsValid tail v,
)
read_from-Reads (b ∷ front) tail n v small (inl h) = ground (arith, Reads-inside b front tail n v h)
read_from-Reads (b ∷ front) tail n v small (inr (inl e)) = ground (
  arith,
  length-contents b,
  copy_front-take b b.count v.0,
  take_all b.count (contents b),
  Reads-whole (contents b) (held front tail) n front tail,
  Followers-IsChain front tail v.1,
)
read_from-Reads (b ∷ front) tail n v small (inr (inr e)) = ground (
  arith,
  length-contents b,
  copy_front-take b b.count v.0,
  take_all b.count (contents b),
  u32-eq n small,
  sub32-eq n b.count,
  Reads-behind n (contents b) (held front tail) (read_others (sub32 (u32 n) b.count) front tail),
  read_others-Reads front tail (n - b.count) v.1,
)

-- ReadData returned `bytes` and left `r'`: they are the oldest `n` bytes of `r` and the rest.
abbrev pub ReadsOff : ℕ → ReadBuffers → Outcome (List ℕ × ReadBuffers) → Type 0
ReadsOff n r refused = ⊥
ReadsOff n r fault = ⊥
ReadsOff n r (done (bytes, r')) =
    (bytes ≡ take n (held r.front r.tail))
    × (held r'.front r'.tail ≡ drop n (held r.front r.tail))
    × IsReadable r'

finish_read-ReadsOff :
    (n : ℕ) (r : ReadBuffers) (t : Option Taken)
    → IsReadable r
    → n ≤ r.size
    → Reads n (held r.front r.tail) t
    → ReadsOff n r (finish_read n r t)
finish_read-ReadsOff n r none v h t = t
finish_read-ReadsOff n r (some (bytes, front, tail)) v h t = (
  t.0,
  t.1,
  record {
    chain = t.2;
    sized = omega (arith, v.sized, v.small, ap length t.1, length-drop n (held r.front r.tail));
    small = omega (arith, v.small);
  },
)

-- ReadData, asked for at least one and at most `readSize_` bytes so that the request ends inside
-- the head block or exactly at the end of a block, returns the oldest bytes, keeps the others in
-- order, and leaves a well-formed chain whose byte count is right.
pub read_data-ReadsOff :
    (n : ℕ) (r : ReadBuffers)
    → IsReadable r
    → 0 < n
    → n ≤ r.size
    → EndsCleanly n r.front r.tail
    → ReadsOff n r (read_data true n r)
unfolding read_data
read_data-ReadsOff n r v pos h e =
    let step =
      finish_read-ReadsOff n r (read_from n r.front r.tail) v h
        (read_from-Reads r.front r.tail n v.chain (omega (arith, v.small)) e) in
    ground (arith, step)
