-- ===== src/Net/TcpServer.antt =====
-- net/TcpServer.cpp and net/EventLoopThreadPool.cpp: the loop that an accepted connection is given to,
-- and the map of the connections by their descriptors. Loops and connections are named by numbers; a
-- connection itself is Net/Connection. A pool of no loops divides by zero, and its null loop would be
-- used: both are `none`.
pub mod Turns
pub mod Counts
pub mod Members
mod Tests
use libiak.Prelude.{
  ℕ, zero, suc, ◌+◌, ◌%◌, ◌≡◌, Bool, true, false, List, [], ◌∷◌, ◌++◌, Option, none, some,
  get_elem?, ltb, ◌==◌, if◌then◌else◌, ◌>>=◌, add32,
}

-- class EventLoopThreadPool, less its threads
pub record EventLoopThreadPool : Type 0 where
  pub count : ℕ
  pub loops : List ℕ

-- The loops that the constructor makes, named from `first` on
abbrev pub loops_from : ℕ → ℕ → List ℕ
loops_from first zero = []
loops_from first (suc n) = first ∷ loops_from (first + 1) n

-- EventLoopThreadPool::EventLoopThreadPool
unfoldable pub new_pool : ℕ → EventLoopThreadPool
new_pool count = record { count = count; loops = loops_from 0 count }

-- EventLoopThreadPool::getLoop
unfoldable pub get_loop : ℕ → EventLoopThreadPool → Option ℕ
get_loop index pool = if ltb index pool.count then get_elem? pool.loops index else none

-- class TcpServer, less its address, its acceptor and its callback
pub record TcpServer : Type 0 where
  pub loop : ℕ
  pub listens : Bool
  pub connections : List (ℕ × ℕ)
  pub loop_thread_pool : Option EventLoopThreadPool
  pub index_loop : ℕ

-- TcpServer::TcpServer
unfoldable pub new_server : ℕ → TcpServer
new_server loop = record {
  loop = loop;
  listens = false;
  connections = [];
  loop_thread_pool = none;
  index_loop = 0;
}

-- TcpServer::setEventLoopThreadPool
abbrev pub set_event_loop_thread_pool : Option EventLoopThreadPool → TcpServer → TcpServer
set_event_loop_thread_pool pool s = record s { loop_thread_pool = pool }

-- TcpServer::listen, and whether it calls Acceptor::listen
unfoldable pub listen : TcpServer → TcpServer × Bool
listen s = if s.listens then (s, false) else (record s { listens = true }, true)

-- connections_[fd] = c
abbrev pub assign : ℕ → ℕ → List (ℕ × ℕ) → List (ℕ × ℕ)
assign fd c [] = (fd, c) ∷ []
assign fd c (x ∷ xs) = if x.0 == fd then (fd, c) ∷ xs else x ∷ assign fd c xs

-- connections_.erase(fd)
abbrev pub erase : ℕ → List (ℕ × ℕ) → List (ℕ × ℕ)
erase fd [] = []
erase fd (x ∷ xs) = if x.0 == fd then xs else x ∷ erase fd xs

-- ++indexLoop_; indexLoop_ %= loopThreadPool_->getCount();
abbrev pub next_index : ℕ → ℕ → ℕ
next_index index count = add32 index 1 % count

-- The loop for the next connection
unfoldable pub choose_loop : TcpServer → Option (ℕ × TcpServer)
unfolding get_loop
choose_loop s = elim s.loop_thread_pool [
  | none ↦ some (s.loop, s)
  | some pool ↦
      if pool.count == 0
      then none
      else (get_loop (next_index s.index_loop pool.count) pool >>= λ loop.
          some (loop, record s { index_loop = next_index s.index_loop pool.count }))
]

-- TcpServer::onAccept, the connection that it makes being `c`: the loop of the connection
unfoldable pub on_accept : ℕ → ℕ → TcpServer → Option (ℕ × TcpServer)
unfolding choose_loop
on_accept fd c s = do
  (loop, s') ← choose_loop s
  some (loop, record s' { connections = assign fd c s'.connections })

-- TcpServer::onClose: what it gives to its loop to run
abbrev pub on_close : ℕ → ℕ → ℕ × ℕ
on_close fd c = (fd, c)

-- TcpServer::removeConnection, and the connection that it destroys
unfoldable pub remove_connection : ℕ × ℕ → TcpServer → TcpServer × ℕ
remove_connection (fd, c) s = (record s { connections = erase fd s.connections }, c)

abbrev pub connections_of : List (ℕ × ℕ) → List ℕ
connections_of [] = []
connections_of (x ∷ xs) = x.1 ∷ connections_of xs

-- TcpServer::~TcpServer: whether the acceptor is closed, and the connections destroyed
unfoldable pub close_server : TcpServer → Bool × List ℕ
close_server s = if s.listens then (true, connections_of s.connections) else (false, [])

-- Accepted descriptors, one after another, the connections being named from `c` on: their loops
unfoldable pub accept_all : List ℕ → ℕ → TcpServer → Option (List ℕ × TcpServer)
unfolding on_accept
accept_all [] c s = some ([], s)
accept_all (fd ∷ fds) c s = do
  (loop, s') ← on_accept fd c s
  (loops, s'') ← accept_all fds (suc c) s'
  some (loop ∷ loops, s'')
