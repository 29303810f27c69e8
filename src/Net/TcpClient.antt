-- ===== src/Net/TcpClient.antt =====
-- net/TcpClient.h and net/TcpClient.cpp: a client's connection, with the connector that makes it, in a loop
-- that runs the connector's tasks in their order. Connections are named by numbers; a connection itself is
-- Net/Connection. The connector's callback is onConnect, as the constructor sets it.
pub mod Phase
pub mod Single
pub mod Stuck
mod Tests
use libiak.Prelude.{
  ℕ, suc, Bool, true, false, not, List, [], ◌∷◌, ◌++◌, Option, none, some, ◌==◌, if◌then◌else◌,
  ◌>>=◌,
}
use libiak.Net.Connector as Conn
use libiak.Net.Connector.{
  Connector, new_connector, Task, connect_task, close_task, reset_task, Result, Ending, handed,
  closed, left_open, Done, connect_in_loop, close_in_loop, reset_channel, on_write,
}

-- class TcpClient, less its addresses and its callback
pub record TcpClient : Type 0 where
  pub connector : Connector
  pub connects : Bool
  pub connection : Option ℕ
  pub retry : Bool

-- TcpClient::TcpClient
unfoldable pub new_client : TcpClient
new_client = record {
  connector = new_connector;
  connects = false;
  connection = none;
  retry = false;
}

-- TcpClient::setRetry
abbrev pub set_retry : Bool → TcpClient → TcpClient
set_retry retry c = record c { retry = retry }

-- connector_->connect()
abbrev pub connect_again : TcpClient → TcpClient × List Task
connect_again c =
    let (connector, tasks) = Conn.connect c.connector in (record c { connector = connector }, tasks)

-- TcpClient::connect
unfoldable pub connect : TcpClient → TcpClient × List Task
connect c = if c.connects then (c, []) else connect_again (record c { connects = true })

-- TcpClient::onConnect, the connection that it makes being `id`
unfoldable pub on_connect : ℕ → TcpClient → TcpClient
on_connect id c = record c { connection = some id }

-- connection_ == connection
abbrev pub is_current : ℕ → Option ℕ → Bool
is_current id none = false
is_current id (some current) = current == id

-- TcpClient::onClose behind its first test: the client, the connection it destroys, the connector's tasks
abbrev pub close_current : ℕ → TcpClient → TcpClient × List ℕ × List Task
close_current id c =
    let c' : TcpClient = record c { connection = none } in
    if not c.connects
    then (c', id ∷ [], [])
    else if c.retry
    then ((connect_again c').0, id ∷ [], (connect_again c').1)
    else (record c' { connects = false }, id ∷ [], [])

-- TcpClient::onClose
unfoldable pub on_close : ℕ → TcpClient → TcpClient × List ℕ × List Task
on_close id c = if is_current id c.connection then close_current id c else (c, [], [])

-- TcpClient::~TcpClient: the connection it destroys, or the connector's tasks
abbrev pub close_connection : Option ℕ → Connector → List ℕ × List Task
close_connection (some id) connector = (id ∷ [], [])
close_connection none connector = ([], (Conn.close connector).1)

unfoldable pub close_client : TcpClient → List ℕ × List Task
close_client c = if c.connects then close_connection c.connection c.connector else ([], [])

-- A client in its loop: the connector's tasks, how many connections were made, and those that were destroyed
pub record World : Type 0 where
  pub client : TcpClient
  pub tasks : List Task
  pub made : ℕ
  pub destroyed : List ℕ

unfoldable pub new_world : World
new_world = record { client = new_client; tasks = []; made = 0; destroyed = [] }

-- What the connector hands over, as onConnect gets it
abbrev pub hand_over : List Ending → World → World
hand_over [] w = w
hand_over (handed fd ∷ endings) w =
    hand_over endings (record w { client = on_connect w.made w.client; made = suc w.made })
hand_over (closed fd ∷ endings) w = hand_over endings w
hand_over (left_open fd ∷ endings) w = hand_over endings w

-- What the connector did, with its new tasks behind those that wait
abbrev pub settle : World → Done → World
settle w (connector, opened, endings, tasks) =
    hand_over endings
      (record w { client = record w.client { connector = connector }; tasks = w.tasks ++ tasks })

-- The loop runs the first of the tasks; `fd` and `result` are what socket() and connect() give, if it is
-- connectInLoop.
abbrev pub run_task : ℕ → Result → List Task → World → Option World
run_task fd result [] w = some w
run_task fd result (connect_task ∷ tasks) w =
    some (settle (record w { tasks = tasks }) (connect_in_loop true fd result w.client.connector))
run_task fd result (close_task ∷ tasks) w = do
  done ← close_in_loop w.client.connector
  some (settle (record w { tasks = tasks }) done)
run_task fd result (reset_task ∷ tasks) w = some (record w {
  client = record w.client { connector = reset_channel w.client.connector };
  tasks = tasks;
})

-- What happens: connect() or setRetry() is called, the loop runs a task, the connecting socket becomes
-- writable (with SO_ERROR 0 or not), or a connection calls its close callback.
pub data Act : Type 0 where
  calls : Act
  retries : Bool → Act
  turns : ℕ → Result → Act
  writable : Bool → Act
  closes : ℕ → Act

unfoldable pub act : Act → World → Option World
act calls w =
    let (client, tasks) = connect w.client in
    some (record w { client = client; tasks = w.tasks ++ tasks })
act (retries retry) w = some (record w { client = set_retry retry w.client })
act (turns fd result) w = run_task fd result w.tasks w
act (writable ok) w = do done ← on_write true ok w.client.connector; some (settle w done)
act (closes id) w =
    let (client, destroyed, tasks) = on_close id w.client in
    some
      (record w { client = client; tasks = w.tasks ++ tasks; destroyed = w.destroyed ++ destroyed })

-- Any acts, in their order; `none` if the connector reads a channel that is not set.
unfoldable pub run : List Act → World → Option World
run [] w = some w
run (a ∷ acts) w = do w' ← act a w; run acts w'
