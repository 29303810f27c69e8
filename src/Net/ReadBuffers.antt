-- ===== src/Net/ReadBuffers.antt =====
-- The read side of net/TcpConnection.cpp: the blocks from `readHead_` to `readTail_`, PeekData,
-- ReadData and one round of the loop of onRead.
pub mod Held
pub mod Peek
pub mod Read
pub mod Partial
pub mod Receive
use libiak.Prelude.{
  ℕ, suc, zero, ◌+◌, ◌-◌, ◌%◌, ◌≤◌, ◌<◌, ◌≡◌, ◌^◌, List, [], ◌∷◌, ◌++◌, Option, none, some, Bool,
  true, false, not, ◌||◌, length, take, drop, ltb, ◌==◌, if◌then◌else◌, u32, add32, sub32, add64,
  sub64,
}
use mathlib.Core.Option
use libiak.Net.Buffer.{Buffer, BufferPool, take_buffer, slice, put, contents}
use libiak.Net.Buffer

-- `front` holds the blocks from readHead_ up to but not including readTail_, so that
-- `readHead_ == readTail_` is `front = []`; `spare` is readTail_->next; `size` is readSize_.
pub record ReadBuffers : Type 0 where
  pub front : List Buffer
  pub tail : Buffer
  pub spare : Option Buffer
  pub size : ℕ

-- `refused` is the return value false; `fault` is a step past readTail_ or through NULL.
pub data Outcome {ℓ} (A : Type ℓ) : Type ℓ where
  refused fault : Outcome A
  done : A → Outcome A

abbrev pub or_fault {ℓ} : {A : Type ℓ} → Option A → Outcome A
or_fault none = fault
or_fault (some a) = done a

-- The first `n` bytes of a block: in one copy, or in two round its end.
pub copy_front : Buffer → ℕ → List ℕ
copy_front b n =
    let rear = sub32 b.capacity b.pop in
    if ltb rear n
    then slice b.buffer b.pop rear ++ slice b.buffer 0 (n - rear)
    else slice b.buffer b.pop n

-- The do-while loop of PeekData over the blocks that follow the head.
pub peek_others : ℕ → List Buffer → Option (List ℕ)
peek_others rear [] = none
peek_others rear (b ∷ bs) =
    let rest =
      Option.map (λ more. slice b.buffer 0 b.count ++ more) (peek_others (sub32 rear b.count) bs) in
    if ltb rear b.count
    then some (slice b.buffer 0 rear)
    else if ltb b.count rear
    then rest
    else some (slice b.buffer 0 b.count)

abbrev pub spare_list : Option Buffer → List Buffer
spare_list none = []
spare_list (some b) = b ∷ []

-- The body of PeekData behind its guard: the head, and the blocks behind it.
pub peek_from : ℕ → Buffer → List Buffer → Option (List ℕ)
unfolding peek_others copy_front
peek_from size head following =
    if ltb size head.count
    then some (copy_front head size)
    else if ltb head.count size
    then Option.map (λ more. copy_front head head.count ++ more)
        (peek_others (sub32 (u32 size) head.count) following)
    else some (copy_front head head.count)

abbrev peek_chain : ℕ → List Buffer → Buffer → Option Buffer → Option (List ℕ)
peek_chain size [] tail spare = peek_from size tail (spare_list spare)
peek_chain size (b ∷ front) tail spare = peek_from size b (front ++ tail ∷ spare_list spare)

-- TcpConnection::PeekData; `given` says that `data` is not NULL.
pub peek_data : Bool → ℕ → ReadBuffers → Outcome (List ℕ)
unfolding peek_from
peek_data given size r =
    if not given || size == 0 || ltb r.size size
    then refused
    else or_fault (peek_chain size r.front r.tail r.spare)

-- The head after a read that leaves bytes in it.
pub advance : Buffer → ℕ → Buffer
advance b size =
    let rear = sub32 b.capacity b.pop in
    record b {
      pop = if ltb rear size then sub32 (u32 size) rear else add32 b.pop (u32 size) % b.capacity;
      count = sub32 b.count (u32 size);
    }

abbrev pub reset : Buffer → Buffer
reset b = record b { push = 0; pop = 0; count = 0 }

abbrev pub Taken : Type 0
Taken = List ℕ × List Buffer × Buffer

abbrev pub behind : List ℕ → Option Taken → Option Taken
behind first none = none
behind first (some (more, front, tail)) = some (first ++ more, front, tail)

-- The do-while loop of ReadData, from the block behind the head on. A block that is read in part
-- gets its new `pop`, and keeps its `count`.
pub read_others : ℕ → List Buffer → Buffer → Option Taken
read_others rear [] tail =
    if ltb rear tail.count
    then some (slice tail.buffer 0 rear, [], record tail { pop = rear })
    else if ltb tail.count rear
    then none
    else some (slice tail.buffer 0 tail.count, [], reset tail)
read_others rear (b ∷ front) tail =
    let rest = behind (slice b.buffer 0 b.count) (read_others (sub32 rear b.count) front tail) in
    if ltb rear b.count
    then some (slice b.buffer 0 rear, record b { pop = rear } ∷ front, tail)
    else if ltb b.count rear
    then rest
    else some (slice b.buffer 0 b.count, front, tail)

-- The body of ReadData behind its guard.
pub read_from : ℕ → List Buffer → Buffer → Option Taken
unfolding read_others advance copy_front
read_from size [] tail =
    if ltb size tail.count
    then some (copy_front tail size, [], advance tail size)
    else if ltb tail.count size
    then none
    else some (copy_front tail tail.count, [], reset tail)
read_from size (b ∷ front) tail =
    if ltb size b.count
    then some (copy_front b size, advance b size ∷ front, tail)
    else if ltb b.count size
    then behind (copy_front b b.count) (read_others (sub32 (u32 size) b.count) front tail)
    else some (copy_front b b.count, front, tail)

abbrev finish_read : ℕ → ReadBuffers → Option Taken → Outcome (List ℕ × ReadBuffers)
finish_read size r none = fault
finish_read size r (some (bytes, front, tail)) =
    done (bytes, record r { front = front; tail = tail; size = sub64 r.size size })

-- TcpConnection::ReadData
pub read_data : Bool → ℕ → ReadBuffers → Outcome (List ℕ × ReadBuffers)
unfolding read_from
read_data given size r =
    if not given || size == 0 || ltb r.size size
    then refused
    else finish_read size r (read_from size r.front r.tail)

-- The segments of the tail that onRead offers to readv: offset and length.
pub room : Buffer → List (ℕ × ℕ)
room b =
    if ltb 0 (sub32 b.capacity b.count)
    then if ltb b.push b.pop
      then (b.push, sub32 b.capacity b.count) ∷ []
      else (b.push, sub32 b.capacity b.push) ∷ (if ltb 0 b.pop then (0, b.pop) ∷ [] else [])
    else []

-- readv stores the bytes that it received segment by segment.
pub scatter : List ℕ → List (ℕ × ℕ) → List ℕ → List ℕ
scatter bytes [] src = bytes
scatter bytes ((off, n) ∷ segments) src = scatter (put bytes off (take n src)) segments (drop n src)

abbrev pub room_size : List (ℕ × ℕ) → ℕ
room_size [] = 0
room_size ((off, n) ∷ segments) = n + room_size segments

-- What readv returned: an error, the end of the stream, or bytes.
pub data Readv : Type 0 where
  failed eof : Readv
  received : List ℕ → Readv

-- How a round of onRead ends: the loop goes on, or it returns after disableReadable, or onClose
-- was called.
pub data Round : Type 0 where
  again not_readable closing : Round

-- The counters after a read of `n` bytes: "fill tail" and "fill next".
pub fill : ℕ → Buffer → Buffer → List Buffer × Buffer × Option Buffer
fill n tail next =
    let rear = sub32 tail.capacity tail.count in
    let full = record tail { push = tail.pop; count = tail.capacity } in
    if ltb n rear
    then (
      [],
      record tail {
        push = add32 tail.push (u32 n) % tail.capacity;
        count = add32 tail.count (u32 n);
      },
      some next,
    )
    else if ltb rear n
    then (full ∷ [], record next { count = sub32 (u32 n) rear; push = sub32 (u32 n) rear }, none)
    else ([], full, some next)

-- One round of the loop of onRead, the callback apart. `next` is readTail_->next, made if missing.
pub receive : Readv → Buffer → ReadBuffers → ReadBuffers × Round
unfolding fill room scatter
receive failed next r = (record r { spare = some next }, not_readable)
receive eof next r = (record r { spare = some next }, closing)
receive (received src) next r =
    let segments = room r.tail in
    let stored = record r.tail { buffer = scatter r.tail.buffer segments src } in
    let next' = record next { buffer = put next.buffer 0 (drop (room_size segments) src) } in
    let size = add32 (sub32 r.tail.capacity r.tail.count) next.capacity in
    let (full, tail, spare) = fill (length src) stored next' in
    if ltb size (length src)
    then (record r { tail = stored; spare = some next' }, not_readable)
    else (
      record r {
        front = r.front ++ full;
        tail = tail;
        spare = spare;
        size = add64 r.size (length src);
      },
      if ltb (length src) size then not_readable else again,
    )

-- "next buffer (for read extra)"
pub next_of : (ℕ → List ℕ) → BufferPool → Option Buffer → Buffer
next_of new_chars pool none = take_buffer new_chars pool
next_of new_chars pool (some b) = b
