-- ===== src/Net/Buffer/Store.antt =====
-- Bytes stored behind those that a block holds, in one copy or in two round its end.
use libiak.Prelude.{
  ℕ, ◌+◌, ◌-◌, ◌≤◌, ◌<◌, ◌≡◌, ◌⊎◌, ap, ap₂, ◌∙◌, List, ◌++◌, length, get_or, arith, get_or-append,
  length-append,
}
use libiak.Net.Buffer.{Buffer, IsValid, at, window, contents, put}
use libiak.Net.Buffer.Window.{window_ext, window-append, window-get_or}
use libiak.Net.Buffer.Copy.{get_or-put, length-put}

-- The memory after the two copies.
abbrev pub stored : Buffer → List ℕ → List ℕ → List ℕ
stored b s1 s2 = put (put b.buffer b.push s1) 0 s2

-- The second copy goes to the begin of the block, and only if the first came to its end.
pub record Fits (b : Buffer) (s1 s2 : List ℕ) : Type 0 where
  pub room : b.count + length s1 + length s2 ≤ b.capacity
  pub first : b.push + length s1 ≤ b.capacity
  pub second : (length s2 ≡ 0) ⊎ (b.push + length s1 ≡ b.capacity)

module _ (b : Buffer) (s1 s2 : List ℕ) (v : IsValid b) (f : Fits b s1 s2) where
  pub length-stored : length (stored b s1 s2) ≡ b.capacity
  length-stored = omega (
    arith,
    v.storage,
    length-put b.buffer b.push s1 (omega (arith, f.first, v.storage)),
    length-put (put b.buffer b.push s1) 0 s2,
    f.room,
  )

  at-old :
      (i : ℕ)
      → i < b.count
      → at (record b { buffer = stored b s1 s2 }) (b.pop + i) ≡ at b (b.pop + i)
  at-old i h = ground (
    arith,
    length-put b.buffer b.push s1,
    get_or-put (put b.buffer b.push s1) 0 s2 (b.pop + i),
    get_or-put (put b.buffer b.push s1) 0 s2 (b.pop + i - b.capacity),
    get_or-put b.buffer b.push s1 (b.pop + i),
    get_or-put b.buffer b.push s1 (b.pop + i - b.capacity),
  )

  at-new :
      (j : ℕ)
      → j < length (s1 ++ s2)
      → at (record b { buffer = stored b s1 s2 }) (b.pop + b.count + j) ≡ get_or (s1 ++ s2) j 0
  at-new j h =
      let one = length-put b.buffer b.push s1 (omega (arith, f.first, v.storage)) in
      let q = b.pop + b.count + j in
      ground (
        arith,
        one,
        length-append s1 s2,
        get_or-append s1 s2 j 0,
        get_or-put (put b.buffer b.push s1) 0 s2 q,
        get_or-put (put b.buffer b.push s1) 0 s2 (q - b.capacity),
        get_or-put b.buffer b.push s1 q,
        get_or-put b.buffer b.push s1 (q - b.capacity),
      )

  -- The block then holds what it held and the new bytes.
  pub window-stored :
      window (at (record b { buffer = stored b s1 s2 })) b.pop (b.count + length (s1 ++ s2))
      ≡ contents b ++ (s1 ++ s2)
  window-stored =
      let b' : Buffer = record b { buffer = stored b s1 s2 } in
      window-append (at b') b.pop b.count (length (s1 ++ s2))
      ∙ ap₂ ◌++◌ (window_ext (at b') (at b) b.pop b.pop b.count at-old) (
          window_ext (at b') (λ i. get_or (s1 ++ s2) i 0) (b.pop + b.count) 0 (length (s1 ++ s2))
            (λ j lt. at-new j lt ∙ ap (λ k. get_or (s1 ++ s2) k 0) (omega arith))
          ∙ window-get_or (s1 ++ s2))
