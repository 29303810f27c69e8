-- ===== src/Net/Tests.antt =====
-- The theorems on net/ at concrete states: blocks of four bytes, a channel, a loop, an acceptor.
use libiak.Prelude.{
  ℕ, ◌+◌, ◌≡◌, ◌↔◌, refl, inl, inr, true, false, List, [], ◌∷◌, none, some, replicate, arith, take,
  length, ◌++◌,
}
use libiak.Net.Buffer.{Buffer, BufferPool, IsValid}
use libiak.Net.Buffer.Chain.{held}
use libiak.Net.ReadBuffers.{
  ReadBuffers, Outcome, done, peek_data, read_data, receive, received, room, room_size,
}
use libiak.Net.ReadBuffers
use libiak.Net.ReadBuffers.Held.{IsReadable}
use libiak.Net.ReadBuffers.Peek.{peek_data_lem}
use libiak.Net.ReadBuffers.Read.{read_data-ReadsOff, ReadsOff}
use libiak.Net.ReadBuffers.Partial.{read_data-LeavesStale, LeavesStale}
use libiak.Net.ReadBuffers.Receive.{receive_lem, IsFresh, room_size-eq}
use libiak.Net.WriteBuffers.{WriteBuffers, write_data, write_round, sent, offered, head_of, next_of}
use libiak.Net.WriteBuffers
use libiak.Net.WriteBuffers.WriteData.{write_data-Appended, Appended, IsWritable, IsPool}
use libiak.Net.WriteBuffers.Drain.{
  write_round_lem, write_round-OffersStale, OffersStale, one_block, offers,
}
use libiak.Net.Channel.{Channel, new_channel}
use libiak.Net.EPollPoller.{Reported}
use libiak.Net.EventLoop.{EventLoop, poll}
use libiak.Net.EventLoop.Active.{poll-IsConsistent, IsConsistent}

-- The bytes 1, 2, 3 round the end of the block.
abbrev wrapped : Buffer
wrapped = record { buffer = 3 ∷ 0 ∷ 1 ∷ 2 ∷ []; capacity = 4; count = 3; push = 1; pop = 2 }

abbrev two_bytes : Buffer
two_bytes = record { buffer = 4 ∷ 5 ∷ 0 ∷ 0 ∷ []; capacity = 4; count = 2; push = 2; pop = 0 }

abbrev empty_block : Buffer
empty_block = record { buffer = replicate 4 0; capacity = 4; count = 0; push = 0; pop = 0 }

wrapped-IsValid : IsValid wrapped
wrapped-IsValid = record {
  storage = refl;
  some_room = omega arith;
  small = omega arith;
  count_in = omega arith;
  pop_in = omega arith;
  push_in = omega arith;
  range = inr refl;
}

two_bytes-IsValid : IsValid two_bytes
two_bytes-IsValid = record {
  storage = refl;
  some_room = omega arith;
  small = omega arith;
  count_in = omega arith;
  pop_in = omega arith;
  push_in = omega arith;
  range = inl refl;
}

empty_block-IsFresh : IsFresh empty_block
empty_block-IsFresh = record {
  valid = record {
    storage = refl;
    some_room = omega arith;
    small = omega arith;
    count_in = omega arith;
    pop_in = omega arith;
    push_in = omega arith;
    range = inl refl;
  };
  no_count = refl;
  no_pop = refl;
  no_push = refl;
}

-- 1, 2, 3 in the head, 4, 5 in the tail.
abbrev five_bytes : ReadBuffers
five_bytes = record { front = wrapped ∷ []; tail = two_bytes; spare = none; size = 5 }

five_bytes-IsReadable : IsReadable five_bytes
five_bytes-IsReadable = record {
  chain = (wrapped-IsValid, (two_bytes-IsValid, refl));
  sized = refl;
  small = omega arith;
}

peek_data_lem_example : peek_data true 4 five_bytes ≡ done (1 ∷ 2 ∷ 3 ∷ 4 ∷ [])
peek_data_lem_example = peek_data_lem 4 five_bytes five_bytes-IsReadable (omega arith) (omega arith)

read_data-ReadsOff_example : ReadsOff 2 five_bytes (read_data true 2 five_bytes)
read_data-ReadsOff_example =
    read_data-ReadsOff 2 five_bytes five_bytes-IsReadable (omega arith) (omega arith)
      (inl (omega arith))

read_data-LeavesStale_example : LeavesStale 4 five_bytes (read_data true 4 five_bytes)
read_data-LeavesStale_example =
    read_data-LeavesStale 4 five_bytes five_bytes-IsReadable (omega arith) (omega arith)
      (omega arith, omega arith)

receive_lem_example :
    let (r', round) = receive (received (6 ∷ 7 ∷ 8 ∷ [])) empty_block five_bytes in
    (held r'.front r'.tail ≡ 1 ∷ 2 ∷ 3 ∷ 4 ∷ 5 ∷ 6 ∷ 7 ∷ 8 ∷ [])
    × IsReadable r'
    × ((round ≡ ReadBuffers.again) ↔ (3 ≡ room_size (room two_bytes) + 4))
receive_lem_example =
    receive_lem (6 ∷ 7 ∷ 8 ∷ []) empty_block five_bytes five_bytes-IsReadable empty_block-IsFresh
      (omega arith) (omega (arith, room_size-eq two_bytes two_bytes-IsValid)) (omega arith)

-- 1, 2, 3 in the head, 4, 5 in the tail.
abbrev waiting_bytes : WriteBuffers
waiting_bytes = record { front = wrapped ∷ []; tail = two_bytes; size = 5 }

waiting_bytes-IsWritable : IsWritable waiting_bytes
waiting_bytes-IsWritable = record {
  chain = (wrapped-IsValid, (two_bytes-IsValid, refl));
  sized = refl;
}

abbrev zeros : ℕ → List ℕ
zeros n = replicate n 0

abbrev four_bytes_pool : BufferPool
four_bytes_pool = record { capacity = 4; size = 0; count = 0 }

four_bytes_pool-IsPool : IsPool zeros four_bytes_pool
four_bytes_pool-IsPool = record { allocates = refl; some_room = omega arith; small = omega arith }

-- Seven bytes: two fill the tail, the others take two new blocks.
write_data-Appended_example :
    Appended zeros four_bytes_pool four_bytes_pool-IsPool
      (6 ∷ 7 ∷ 8 ∷ 9 ∷ 10 ∷ 11 ∷ 12 ∷ [])
      waiting_bytes
      (write_data zeros four_bytes_pool (some (6 ∷ 7 ∷ 8 ∷ 9 ∷ 10 ∷ 11 ∷ 12 ∷ [])) waiting_bytes)
write_data-Appended_example =
    write_data-Appended zeros four_bytes_pool four_bytes_pool-IsPool 6
      (7 ∷ 8 ∷ 9 ∷ 10 ∷ 11 ∷ 12 ∷ []) waiting_bytes waiting_bytes-IsWritable (omega arith)
      (omega arith)

write_round_lem_example :
    let (w', round) = write_round (some 4) waiting_bytes in
    (take 4 (offers waiting_bytes) ++ held w'.front w'.tail ≡ 1 ∷ 2 ∷ 3 ∷ 4 ∷ 5 ∷ [])
    × IsWritable w'
    × ((round ≡ WriteBuffers.again) ↔ (◌≡◌ {A = ℕ} 4 (length (offers waiting_bytes))))
unfolding offered
write_round_lem_example =
    write_round_lem waiting_bytes waiting_bytes-IsWritable (omega arith) (omega arith) 4
      (omega arith)

write_round-OffersStale_example :
    OffersStale (one_block wrapped) (write_round (some 3) (one_block wrapped))
write_round-OffersStale_example = write_round-OffersStale wrapped wrapped-IsValid

-- A channel that reads and writes, on which both were reported.
abbrev busy : Channel
busy = record {
  fd = 7;
  read = true;
  write = true;
  rclose = false;
  rerror = false;
  rread = true;
  rwrite = true;
  started = true;
  actived = true;
  closed = false;
  readable = true;
  writeable = true;
}

abbrev hangup : Reported
hangup = record { hup = true; err = false; inp = true; out = false }

abbrev quiet_loop : EventLoop ℕ
quiet_loop = record {
  quit = false;
  pending_functors = 1 ∷ 2 ∷ 3 ∷ [];
  actived_channels = [];
  channels = new_channel;
  wakeups = 0;
}

quiet_loop-IsConsistent : IsConsistent quiet_loop
unfolding new_channel
quiet_loop-IsConsistent i = (
  record {
    has_event = inl refl;
    close_queued = inl refl;
    error_queued = inl refl;
    read_queued = inl refl;
    write_queued = inl refl;
  },
  refl,
)

poll-IsConsistent_example : IsConsistent (poll ((7, hangup) ∷ []) quiet_loop)
poll-IsConsistent_example = poll-IsConsistent ((7, hangup) ∷ []) quiet_loop quiet_loop-IsConsistent
