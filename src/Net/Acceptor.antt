-- ===== src/Net/Acceptor.antt =====
-- net/Acceptor.h and net/Acceptor.cpp: the listening socket. What accept() returns is a list of
-- results; open(), bind(), listen() and the options of the socket are the system's and are left out.
pub mod Accepting
pub mod Listening
mod Tests
use libiak.Prelude.{
  ℕ, Bool, true, false, not, ◌||◌, List, [], ◌∷◌, ◌++◌, Option, none, some, if◌then◌else◌, ◌>>=◌,
}
use libiak.Net.Channel.{
  Channel, Request, new_channel, enable_read, open_channel, close_channel, disable_readable,
}

-- class Acceptor, less its callback and its descriptors
pub record Acceptor : Type 0 where
  pub channel : Channel
  pub listenning : Bool
  pub accepts : Bool

-- What the acceptor gives to the loop to run.
pub data Task : Type 0 where
  listen_task close_task : Task

-- Acceptor::Acceptor
unfoldable pub new_acceptor : ℕ → Acceptor
unfolding new_channel enable_read
new_acceptor fd = record {
  channel = enable_read (new_channel fd);
  listenning = false;
  accepts = false;
}

-- Acceptor::listen
unfoldable pub listen : Acceptor → Acceptor × List Task
listen a = if a.accepts then (a, []) else (record a { accepts = true }, listen_task ∷ [])

-- Acceptor::close
unfoldable pub close : Acceptor → Acceptor × List Task
close a = if a.accepts then (record a { accepts = false }, close_task ∷ []) else (a, [])

-- Acceptor::listenInLoop
unfoldable pub listen_in_loop : Acceptor → Acceptor × List Request
listen_in_loop a =
    if not a.accepts || a.listenning
    then (a, [])
    else (let (c, asked) = open_channel a.channel in
        (record a { listenning = true; channel = c }, asked))

-- Acceptor::closeInLoop
unfoldable pub close_in_loop : Acceptor → Acceptor × List Request
close_in_loop a =
    if a.accepts
    then (a, [])
    else (let (c, asked) = close_channel a.channel in (record a { channel = c }, asked))

-- What accept() comes back with: a descriptor, EAGAIN, EMFILE or ENFILE, or another error.
pub data Accepted : Type 0 where
  connection : ℕ → Accepted
  again too_many other : Accepted

-- What happens to a descriptor: it goes to the callback, or is closed.
pub data Fate : Type 0 where
  handed closed : ℕ → Fate

-- The descriptor that `idleFd_ = Socket::accept(…); ::close(idleFd_)` takes and closes.
abbrev pub turned_away : Accepted → List Fate
turned_away (connection fd) = closed fd ∷ []
turned_away again = []
turned_away too_many = []
turned_away other = []

abbrev pub fate : Bool → ℕ → Fate
fate true fd = handed fd
fate false fd = closed fd

-- The loop of Acceptor::onRead over what accept() comes back with; `none` is a loop that goes on
-- beyond the list. It ends with the channel, the descriptors, and what accept() has not given yet.
unfoldable pub accept_all :
    Bool → List Accepted → Channel → Option (Channel × List Fate × List Accepted)
accept_all callback [] c = none
accept_all callback (connection fd ∷ rs) c = do
  (c', fds, rest) ← accept_all callback rs c
  some (c', fate callback fd ∷ fds, rest)
accept_all callback (again ∷ rs) c = some (disable_readable c, [], rs)
accept_all callback (other ∷ rs) c = some (c, [], rs)
accept_all callback (too_many ∷ []) c = none
accept_all callback (too_many ∷ r ∷ rs) c = do
  (c', fds, rest) ← accept_all callback rs c
  some (c', turned_away r ++ fds, rest)

-- Acceptor::onRead
unfoldable pub on_read :
    Bool → List Accepted → Acceptor → Option (Acceptor × List Fate × List Accepted)
unfolding accept_all
on_read callback rs a =
    if a.accepts
    then (do
      (c, fds, rest) ← accept_all callback rs a.channel
      some (record a { channel = c }, fds, rest))
    else some (a, [], rs)
