-- ===== src/Net/Connector.antt =====
-- net/Connector.h and net/Connector.cpp: the connecting socket. What socket(), connect() and
-- getsockopt(SO_ERROR) return are arguments; a channel that is not set is `none`, and reading through
-- it is a fault, `none`.
use libiak.Prelude.{
  ℕ, Bool, true, false, not, ◌||◌, ◌&&◌, List, [], ◌∷◌, Option, none, some, if◌then◌else◌, ◌>>=◌,
}
use libiak.Net.Channel.{Channel, new_channel, enable_write, open_channel, close_channel}

-- class Connector, less its callback and address
pub record Connector : Type 0 where
  pub connects : Bool
  pub connecting : Bool
  pub channel : Option Channel

-- What the connector gives to the loop to run.
pub data Task : Type 0 where
  connect_task close_task reset_task : Task

-- How connect() ends: 0; EINPROGRESS, EINTR or EISCONN; an error to try again after; another error.
pub data Result : Type 0 where
  connected pending retry refused : Result

-- What happens to a descriptor: it goes to the callback, is closed, or is left open.
pub data Ending : Type 0 where
  handed closed left_open : ℕ → Ending

-- The connector, the descriptors it opened, those it is done with, and its tasks.
abbrev pub Done : Type 0
Done = Connector × List ℕ × List Ending × List Task

-- Connector::Connector
unfoldable pub new_connector : Connector
new_connector = record { connects = false; connecting = false; channel = none }

-- Connector::connect
unfoldable pub connect : Connector → Connector × List Task
connect c = (record c { connects = true }, connect_task ∷ [])

-- Connector::close
unfoldable pub close : Connector → Connector × List Task
close c = (record c { connects = false }, close_task ∷ [])

-- Connector::connectInLoop after connect()
unfoldable pub attempt : Bool → ℕ → Result → Connector → Done
attempt callback fd connected c =
    (c, fd ∷ [], (if callback then handed fd else left_open fd) ∷ [], [])
attempt callback fd pending c = (
  record c { connecting = true; channel = some (open_channel (enable_write (new_channel fd))).0 },
  fd ∷ [],
  [],
  [],
)
attempt callback fd retry c = (c, fd ∷ [], closed fd ∷ [], connect_task ∷ [])
attempt callback fd refused c = (c, fd ∷ [], closed fd ∷ [], [])

-- Connector::connectInLoop
unfoldable pub connect_in_loop : Bool → ℕ → Result → Connector → Done
unfolding attempt
connect_in_loop callback fd result c =
    if not c.connects || c.connecting then (c, [], [], []) else attempt callback fd result c

-- Connector::closeInLoop
unfoldable pub close_in_loop : Connector → Option Done
close_in_loop c =
    if c.connecting
    then (do
      ch ← c.channel
      some (record c { channel = some (close_channel ch).0 }, [], closed ch.fd ∷ [], []))
    else some (c, [], [], [])

-- Connector::resetChannel
unfoldable pub reset_channel : Connector → Connector
reset_channel c = record c { channel = none }

-- Connector::onWrite behind its guard, at its channel; `ok` says that SO_ERROR is 0.
unfoldable pub finish : Bool → Bool → Channel → Connector → Done
finish callback ok ch c = (
  record c { connecting = false; channel = some (close_channel ch).0 },
  [],
  (if ok && callback then handed ch.fd else closed ch.fd) ∷ [],
  reset_task ∷ (if ok then [] else connect_task ∷ []),
)

-- Connector::onWrite
unfoldable pub on_write : Bool → Bool → Connector → Option Done
unfolding finish
on_write callback ok c =
    if not c.connects || not c.connecting
    then some (c, [], [], [])
    else (do ch ← c.channel; some (finish callback ok ch c))
