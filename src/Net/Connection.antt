-- ===== src/Net/Connection.antt =====
-- The life of a connection in net/TcpConnection.cpp: establish, shutdown, close and destroy, and their
-- tasks in the loop. The callbacks that a task calls are returned, all of them being set.
pub mod Once
mod Tests
use libiak.Prelude.{
  ℕ, Bool, true, false, ◌||◌, List, [], ◌∷◌, ◌++◌, Option, none, some, if◌then◌else◌,
}
use libiak.Net.Buffer.{BufferPool, take_buffer}
use libiak.Net.Channel.{Channel, new_channel, enable_all, disable_all, open_channel, close_channel}
use libiak.Net.ReadBuffers.{ReadBuffers}
use libiak.Net.WriteBuffers.{WriteBuffers}

-- class TcpConnection, less its addresses and callbacks; buffers that are not set yet are `none`.
-- `write_shut` says that shutdown(SHUT_WR) was called.
pub record Connection : Type 0 where
  pub established : Bool
  pub closed : Bool
  pub channel : Channel
  pub reads : Option ReadBuffers
  pub writes : Option WriteBuffers
  pub write_shut : Bool

pub data Task : Type 0 where
  establish_task shutdown_task close_task destroy_task : Task

pub data Called : Type 0 where
  connect_called disconnect_called close_called : Called

-- TcpConnection::TcpConnection
unfoldable pub new_connection : ℕ → Connection
new_connection fd = record {
  established = false;
  closed = false;
  channel = enable_all (new_channel fd);
  reads = none;
  writes = none;
  write_shut = false;
}

-- TcpConnection::establish
unfoldable pub establish : Connection → List Task
establish c = if c.closed || c.established then [] else establish_task ∷ []

-- TcpConnection::shutdown
unfoldable pub shutdown : Connection → List Task
shutdown c = if c.closed then [] else shutdown_task ∷ []

-- TcpConnection::close
unfoldable pub close : Connection → List Task
close c = if c.closed then [] else close_task ∷ []

-- TcpConnection::destroy
unfoldable pub destroy : Connection → List Task
destroy c = destroy_task ∷ []

-- TcpConnection::shutdownInLoop
unfoldable pub shutdown_in_loop : Connection → Connection
shutdown_in_loop c = record c { write_shut = true }

-- TcpConnection::destroyInLoop
unfoldable pub destroy_in_loop : Connection → Connection
destroy_in_loop c = record c { channel = (close_channel c.channel).0 }

-- TcpConnection::onClose
unfoldable pub on_close : Connection → Connection × List Called
on_close c = if c.closed then (c, []) else (
  record c { closed = true; channel = disable_all c.channel },
  disconnect_called ∷ close_called ∷ [],
)

module _ (new_chars : ℕ → List ℕ) (pool : BufferPool) where
  -- TcpConnection::establishInLoop
  unfoldable pub establish_in_loop : Connection → Connection × List Called
  unfolding take_buffer
  establish_in_loop c = if c.established then (c, []) else (
    record c {
      established = true;
      reads =
          some (record { front = []; tail = take_buffer new_chars pool; spare = none; size = 0 });
      writes = some (record { front = []; tail = take_buffer new_chars pool; size = 0 });
      channel = (open_channel c.channel).0;
    },
    connect_called ∷ [],
  )

  -- The loop runs a task; an event that closes the connection is a `close_task`.
  unfoldable pub run_task : Task → Connection → Connection × List Called
  unfolding establish_in_loop shutdown_in_loop on_close destroy_in_loop
  run_task establish_task c = establish_in_loop c
  run_task shutdown_task c = (shutdown_in_loop c, [])
  run_task close_task c = on_close c
  run_task destroy_task c = (destroy_in_loop c, [])

  unfoldable pub run_tasks : List Task → Connection → Connection × List Called
  unfolding run_task
  run_tasks [] c = (c, [])
  run_tasks (t ∷ ts) c =
      let (c', called) = run_task t c in let (c'', more) = run_tasks ts c' in (c'', called ++ more)
