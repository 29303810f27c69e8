-- ===== src/Log/AsyncLogger.antt =====
-- log/AsyncLogger.cpp: the buffers that pass log lines from the threads
-- that log to the thread that writes. A buffer is the bytes before its `cur_`; a shared pointer is
-- `none` where it is null, and reading through it, or back() of an empty vector, is a fault, `none`.
-- What is written to the file is kept in `written`; the child Rolls has the files.
pub mod Order
pub mod Rolls
pub mod Bytes
pub mod Filed
mod Tests
use libiak.Prelude.{
  ℕ, ◌+◌, ◌-◌, ◌*◌, ◌<◌, ◌≡◌, Bool, true, false, not, List, [], ◌∷◌, ◌++◌, Option, none, some,
  length, ltb, if◌then◌else◌, ◌>>=◌,
}

-- AsyncLogger::Buffer::kBufferSize
abbrev pub buffer_size : ℕ
buffer_size = 4096 * 1024

abbrev pub LogBuffer : Type 0
LogBuffer = List ℕ

-- AsyncLogger::Buffer::avail
abbrev pub avail : ℕ → LogBuffer → ℕ
avail size b = size - length b

-- AsyncLogger::Buffer::append, at a buffer of `size` bytes
unfoldable pub append_bytes : ℕ → LogBuffer → List ℕ → LogBuffer
append_bytes size b line = if ltb (length line) (avail size b) then b ++ line else b

-- Where the writing thread is: before swapBuffersToWrite_locked, or between it and the end of
-- appendBuffers_unlocked.
pub data Phase : Type 0 where
  idle swapped : Phase

pub record AsyncLogger : Type 0 where
  pub not_empty : Bool
  pub current : Option LogBuffer
  pub next : Option LogBuffer
  pub buffers : List LogBuffer
  pub to_write : List LogBuffer
  pub buffer1 : Option LogBuffer
  pub buffer2 : Option LogBuffer
  pub written : List ℕ
  pub phase : Phase

-- AsyncLogger::AsyncLogger
unfoldable pub new_logger : AsyncLogger
new_logger = record {
  not_empty = false;
  current = some [];
  next = some [];
  buffers = [];
  to_write = [];
  buffer1 = some [];
  buffer2 = some [];
  written = [];
  phase = idle;
}

-- The buffer that replaces a full one: `nextBuffer_`, or a new one.
abbrev pub or_new : Option LogBuffer → LogBuffer
or_new none = []
or_new (some b) = b

-- pop_back of the vector `b ∷ bs`
abbrev pub pop_back : LogBuffer → List LogBuffer → List LogBuffer
pop_back b [] = []
pop_back b (d ∷ ds) = b ∷ pop_back d ds

-- `if (!buffer1_) { buffer1_ = buffersToWrite_.back(); buffersToWrite_.pop_back(); buffer1_->reset(); }`
unfoldable pub refill : Option LogBuffer → List LogBuffer → Option (LogBuffer × List LogBuffer)
refill (some b) bs = some (b, bs)
refill none [] = none
refill none (b ∷ bs) = some ([], pop_back b bs)

-- The bytes of some buffers, one after another.
abbrev pub joined : List LogBuffer → List ℕ
joined [] = []
joined (b ∷ bs) = b ++ joined bs

-- `if (!nextBuffer_) nextBuffer_.swap(buffer2_); buffersToWrite_.swap(buffers_); …`
abbrev pub exchange : AsyncLogger → AsyncLogger
exchange s = record s {
  next = elim s.next [ none ↦ s.buffer2 | some b ↦ some b ];
  buffer2 = elim s.next [ none ↦ none | some b ↦ s.buffer2 ];
  to_write = s.buffers;
  buffers = s.to_write;
  not_empty = false;
  phase = swapped;
}

-- swapBuffersToWrite_locked, `currentBuffer_->length() > 0`
unfoldable pub swap_current : LogBuffer → AsyncLogger → AsyncLogger
swap_current b s =
    if ltb 0 (length b)
    then record s { buffers = s.buffers ++ b ∷ []; current = s.buffer1; buffer1 = none }
    else s

-- AsyncLogger::swapBuffersToWrite_locked
unfoldable pub swap_buffers : AsyncLogger → Option AsyncLogger
unfolding swap_current
swap_buffers s = do b ← s.current; some (exchange (swap_current b s))

-- AsyncLogger::appendBuffers_unlocked
unfoldable pub write_buffers : AsyncLogger → Option AsyncLogger
write_buffers s = do
  (b1, rest) ← refill s.buffer1 s.to_write
  (b2, left) ← refill s.buffer2 rest
  some (record s {
    written = s.written ++ joined s.to_write;
    buffer1 = some b1;
    buffer2 = some b2;
    to_write = [];
    phase = idle;
  })

module _ (size : ℕ) where
  -- AsyncLogger::appendToBuffer_locked at the current buffer `b`
  unfoldable pub append_current : List ℕ → LogBuffer → AsyncLogger → AsyncLogger
  append_current line b s =
      if ltb (length line) (avail size b)
      then record s { current = some (append_bytes size b line); not_empty = true }
      else record s {
        buffers = s.buffers ++ b ∷ [];
        current = some (append_bytes size (or_new s.next) line);
        next = none;
        not_empty = true;
      }

  -- AsyncLogger::appendToBuffer_locked
  unfoldable pub append_to_buffer : List ℕ → AsyncLogger → Option AsyncLogger
  unfolding append_current
  append_to_buffer line s = do b ← s.current; some (append_current line b s)

  -- What the threads do next: one of them appends a line, or the writing thread goes on.
  unfoldable pub act : Option (List ℕ) → AsyncLogger → Option AsyncLogger
  unfolding append_to_buffer swap_buffers write_buffers
  act (some line) s = append_to_buffer line s
  act none s = elim s.phase [ idle ↦ swap_buffers s | swapped ↦ write_buffers s ]

  -- Any interleaving of the appending threads with the writing thread.
  unfoldable pub run : List (Option (List ℕ)) → AsyncLogger → Option AsyncLogger
  unfolding act
  run [] s = some s
  run (a ∷ acts) s = do s' ← act a s; run acts s'
