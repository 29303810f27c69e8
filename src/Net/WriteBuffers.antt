-- ===== src/Net/WriteBuffers.antt =====
-- The write side of net/TcpConnection.cpp: the blocks from `writeHead_` to `writeTail_`, writeData,
-- send and the loop of onWrite.
pub mod Append
pub mod WriteData
pub mod Gather
pub mod Drain
use libiak.Prelude.{
  ℕ, suc, zero, ◌+◌, ◌-◌, ◌%◌, ◌≤◌, ◌<◌, ◌≡◌, ◌^◌, List, [], ◌∷◌, ◌++◌, Option, none, some, Bool,
  true, false, ◌&&◌, length, take, drop, ltb, ◌==◌, if◌then◌else◌, u32, add32, sub32, add64, sub64,
}
use mathlib.Core.Option
use libiak.Net.Buffer.{Buffer, BufferPool, take_buffer, slice, put}

-- `front` holds the blocks from writeHead_ up to but not including writeTail_; writeTail_->next is
-- NULL. `size` is writeSize_.
pub record WriteBuffers : Type 0 where
  pub front : List Buffer
  pub tail : Buffer
  pub size : ℕ

-- writeData, `size < writecount`: the bytes fit into the tail and leave room.
pub write_tail : Buffer → List ℕ → Buffer
write_tail b src =
    let size = length src in
    let rear = sub32 b.capacity b.push in
    if ltb rear size
    then record b {
      buffer = put (put b.buffer b.push (take rear src)) 0 (drop rear src);
      push = sub32 (u32 size) rear;
      count = add32 b.count (u32 size);
    }
    else record b {
      buffer = put b.buffer b.push src;
      push = add32 b.push (u32 size) % b.capacity;
      count = add32 b.count (u32 size);
    }

-- writeData, `writecount > 0`: the first `n` bytes, where `n` is all the room of the tail.
pub fill_tail : Buffer → ℕ → List ℕ → Buffer
fill_tail b n src =
    let rear = sub32 b.capacity b.push in
    let bytes =
      if ltb rear n
      then put (put b.buffer b.push (take rear src)) 0 (take (n - rear) (drop rear src))
      else put b.buffer b.push (take n src) in
    record b { buffer = bytes; push = b.pop; count = b.capacity }

module _ (new_chars : ℕ → List ℕ) (pool : BufferPool) where
  -- The while loop of writeData, `while (rearsize > 0)`: new blocks for the bytes that are left.
  -- `none` means that the fuel ran out, as it would in a pool of blocks of no bytes.
  pub write_more : ℕ → List Buffer → Buffer → List ℕ → Option (List Buffer × Buffer)
  write_more zero front tail src = none
  write_more (suc fuel) front tail src =
      let b = take_buffer new_chars pool in
      let full = record b { buffer = put b.buffer 0 (take b.capacity src); count = b.capacity } in
      let last = record b { buffer = put b.buffer 0 src; push = length src; count = length src } in
      let rest = write_more fuel (front ++ tail ∷ []) full (drop b.capacity src) in
      if length src == 0
      then some (front, tail)
      else if ltb b.capacity (length src)
      then rest
      else some (front ++ tail ∷ [], last)

  -- The chain after TcpConnection::writeData, behind its guard
  pub write_chain : List ℕ → List Buffer → Buffer → Option (List Buffer × Buffer)
  unfolding write_tail fill_tail write_more
  write_chain src front tail =
      let size = length src in
      let room = sub32 tail.capacity tail.count in
      if ltb size room
      then some (front, write_tail tail src)
      else if ltb 0 room
      then write_more (suc size) front (fill_tail tail room src)
          (take (sub32 (u32 size) room) (drop room src))
      else write_more (suc size) front tail (take (u32 size) src)

  abbrev pub grown : ℕ → WriteBuffers → Option (List Buffer × Buffer) → Option (Bool × WriteBuffers)
  grown n w none = none
  grown n w (some (front, tail)) =
      some (true, record w { front = front; tail = tail; size = add64 w.size n })

  -- TcpConnection::writeData; a NULL `data` is `none`. The state is unchanged where it returns
  -- false.
  pub write_data : Option (List ℕ) → WriteBuffers → Option (Bool × WriteBuffers)
  unfolding write_chain
  write_data none w = some (false, w)
  write_data (some []) w = some (false, w)
  write_data (some (x ∷ src)) w = grown (length (x ∷ src)) w (write_chain (x ∷ src) w.front w.tail)

  -- TcpConnection::send; `result` is what ::write returned, `none` for an error. Returns the bytes
  -- that went out at once.
  pub send : List ℕ → Option ℕ → WriteBuffers → Option (List ℕ × WriteBuffers)
  unfolding write_data
  send src none w = Option.map (λ r. ([], r.1)) (write_data (some src) w)
  send src (some n) w =
      let buffered = Option.map (λ r. (take n src, r.1)) (write_data (some (drop n src)) w) in
      if ltb (u32 n) (length src) then buffered else some (take n src, w)

-- The segments of the head that onWrite offers to writev: offset and length.
pub head_segments : Buffer → List (ℕ × ℕ)
head_segments b =
    if ltb b.pop b.push
    then (b.pop, b.count) ∷ []
    else (b.pop, sub32 b.capacity b.pop) ∷ (if ltb 0 b.push then (0, b.push) ∷ [] else [])

-- The bytes of these segments.
abbrev pub gather : List ℕ → List (ℕ × ℕ) → List ℕ
gather bytes [] = []
gather bytes ((off, n) ∷ segments) = slice bytes off n ++ gather bytes segments

abbrev pub next_bytes : Option Buffer → List ℕ
next_bytes none = []
next_bytes (some b) = slice b.buffer 0 b.count

abbrev pub next_count : Option Buffer → ℕ
next_count none = 0
next_count (some b) = b.count

-- What one round of onWrite offers to writev.
unfoldable pub offered : Buffer → Option Buffer → List ℕ
unfolding head_segments
offered head next = gather head.buffer (head_segments head) ++ next_bytes next

-- writeHead_ and writeHead_->next.
abbrev pub head_of : List Buffer → Buffer → Buffer
head_of [] tail = tail
head_of (b ∷ front) tail = b

abbrev pub next_of : List Buffer → Buffer → Option Buffer
next_of [] tail = none
next_of (b ∷ []) tail = some tail
next_of (b ∷ d ∷ front) tail = some d

-- The head after `n` bytes of it went out, `n < writecount`.
abbrev pub keep : Buffer → ℕ → Buffer
keep b n = record b { pop = add32 b.pop (u32 n) % b.capacity; count = sub32 b.count (u32 n) }

-- The next block after `n` bytes of it went out with all of the head.
abbrev pub begin : Buffer → ℕ → Buffer
begin b n = record b { pop = n; count = sub32 b.count n }

-- onWrite after writev took `n` bytes, `n` at most what was offered: the head and the next block.
pub sent : ℕ → List Buffer → Buffer → List Buffer × Buffer
sent n [] tail =
    if ltb n tail.count
    then ([], keep tail n)
    else ([], record tail { push = 0; pop = 0; count = 0 })
sent n (b ∷ []) tail =
    if ltb n b.count
    then (keep b n ∷ [], tail)
    else if ltb b.count n
    then ([], begin tail (sub32 (u32 n) b.count))
    else ([], tail)
sent n (b ∷ d ∷ front) tail =
    if ltb n b.count
    then (keep b n ∷ d ∷ front, tail)
    else if ltb b.count n
    then (begin d (sub32 (u32 n) b.count) ∷ front, tail)
    else (d ∷ front, tail)

-- How a round of onWrite ends.
pub data Round : Type 0 where
  again not_writeable : Round

-- One round of the loop of onWrite; `result` is what writev returned, `none` for an error.
pub write_round : Option ℕ → WriteBuffers → WriteBuffers × Round
unfolding sent
write_round none w = (w, not_writeable)
write_round (some n) w =
    let head = head_of w.front w.tail in
    let size = add32 head.count (next_count (next_of w.front w.tail)) in
    let (front, tail) = sent n w.front w.tail in
    if ltb size n then (w, not_writeable) else (
      record w { front = front; tail = tail; size = sub64 w.size n },
      if ltb n size then not_writeable else again,
    )

-- The loop of onWrite over what the calls of writev return: the bytes offered to each call, and the
-- state at the end. `none` means that the list of results is too short.
pub write_loop : List (Option ℕ) → WriteBuffers → Option (List (List ℕ) × WriteBuffers)
unfolding write_round offered
write_loop [] w = none
write_loop (result ∷ results) w =
    let bytes = offered (head_of w.front w.tail) (next_of w.front w.tail) in
    let (w', round) = write_round result w in
    let rest = write_loop results w' in
    elim round [
      | again ↦ Option.map (λ r. (bytes ∷ r.0, r.1)) rest
      | not_writeable ↦ some (bytes ∷ [], w')
    ]

-- TcpConnection::onWrite; `writeable` is channel_->isWriteable().
pub on_write : Bool → List (Option ℕ) → WriteBuffers → Option (List (List ℕ) × WriteBuffers)
unfolding write_loop
on_write writeable results w =
    if writeable && ltb 0 w.size then write_loop results w else some ([], w)
