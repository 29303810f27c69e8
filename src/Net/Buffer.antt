-- ===== src/Net/Buffer.antt =====
-- net/Buffer.h: a fixed block of bytes that is read and written round its end, and the pool that
-- makes blocks. The `next` pointer of a block is its position in the list of the chain that holds
-- it. Pointers into a block are offsets; `memcpy` is `slice` and `put`.
pub mod Window
pub mod Copy
pub mod Contents
pub mod Store
pub mod Extends
pub mod Chain
use libiak.Prelude.{
  ℕ, suc, zero, ◌+◌, ◌-◌, ◌≤◌, ◌<◌, ◌≡◌, ◌⊎◌, ◌^◌, List, ◌++◌, take, drop, length, get_or, ltb,
  if◌then◌else◌,
}

-- struct Buffer; every counter is a uint32_t.
pub record Buffer : Type 0 where
  pub buffer : List ℕ
  pub capacity : ℕ
  pub count : ℕ
  pub push : ℕ
  pub pop : ℕ

-- class BufferPool: the free list (`size_`, `count_`, `head_`, `tail_`) is never used by the code.
pub record BufferPool : Type 0 where
  pub capacity : ℕ
  pub size : ℕ
  pub count : ℕ

-- BufferPool::take. `new_chars n` is what `new char[n]` returns, uninitialised bytes.
unfoldable pub take_buffer : (ℕ → List ℕ) → BufferPool → Buffer
take_buffer new_chars pool = record {
  buffer = new_chars pool.capacity;
  capacity = pool.capacity;
  count = 0;
  push = 0;
  pop = 0;
}

-- ::memcpy(dst, b.buffer + off, n), as the bytes that it copies
abbrev pub slice : List ℕ → ℕ → ℕ → List ℕ
slice bytes off n = take n (drop off bytes)

-- ::memcpy(bytes + off, src, length src)
unfoldable pub put : List ℕ → ℕ → List ℕ → List ℕ
put bytes off src = take off bytes ++ (src ++ drop (off + length src) bytes)

-- The byte at position `i` counted from the block's begin, going round once.
abbrev pub at : Buffer → ℕ → ℕ
at b i = get_or b.buffer (if ltb i b.capacity then i else i - b.capacity) 0

-- The `n` bytes from position `p` on.
abbrev pub window : (ℕ → ℕ) → ℕ → ℕ → List ℕ
window f p zero = List.[]
window f p (suc n) = List.◌∷◌ (f p) (window f (suc p) n)

-- The bytes that a block holds, oldest first.
abbrev pub contents : Buffer → List ℕ
contents b = window (at b) b.pop b.count

-- The counters describe a range of the block: `push` is `pop + count`, less the capacity if that
-- went round the end.
pub record IsValid (b : Buffer) : Type 0 where
  pub storage : length b.buffer ≡ b.capacity
  pub some_room : 0 < b.capacity
  pub small : b.capacity < 2 ^ 31
  pub count_in : b.count ≤ b.capacity
  pub pop_in : b.pop ≤ b.capacity
  pub push_in : b.push ≤ b.capacity
  pub range : (b.push ≡ b.pop + b.count) ⊎ (b.push + b.capacity ≡ b.pop + b.count)
