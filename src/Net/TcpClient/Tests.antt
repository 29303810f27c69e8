-- ===== src/Net/TcpClient/Tests.antt =====
-- The theorems on net/TcpClient.cpp at a client that connects, and at one that is given up.
use libiak.Prelude.{◌≡◌, refl, true, false, List, [], ◌∷◌, some, none}
use libiak.Net.Connector as Conn
use libiak.Net.Connector.{new_connector, connect_task, Result, connected, pending, retry, refused}
use libiak.Net.TcpClient.{
  new_client, connect, World, new_world, Act, calls, retries, turns, writable, closes, act, run,
}
use libiak.Net.TcpClient.Phase.{IsSingle, idle, Holds}
use libiak.Net.TcpClient.Single.{run-Holds}
use libiak.Net.TcpClient.Stuck.{StaysStuck, run-StaysStuck}

-- The first try fails at once and the second when the socket becomes writable; the third succeeds. The connection
-- closes twice, and there is another attempt, for the client is to retry.
abbrev acts : List Act
acts =
    calls
    ∷ retries true
    ∷ turns 5 retry
    ∷ turns 5 pending
    ∷ writable false
    ∷ calls
    ∷ turns 0 connected
    ∷ turns 5 pending
    ∷ writable true
    ∷ turns 0 connected
    ∷ closes 0
    ∷ closes 0
    ∷ turns 6 connected
    ∷ []

new_world-IsSingle : IsSingle new_world
unfolding new_world new_client new_connector
new_world-IsSingle = record { phase = idle refl refl refl; accounted = refl }

run-Holds_example : Holds (run acts new_world)
run-Holds_example = run-Holds acts new_world new_world-IsSingle

-- connect() was called on a new client, whose attempt waits in the loop.
abbrev about_to_connect : World
about_to_connect = record {
  client = record {
    connector = record { connects = true; connecting = false; channel = none };
    connects = true;
    connection = none;
    retry = false;
  };
  tasks = connect_task ∷ [];
  made = 0;
  destroyed = [];
}

about_to_connect_lem : run (calls ∷ []) new_world ≡ some about_to_connect
unfolding run act connect Conn.connect new_world new_client new_connector
about_to_connect_lem = refl

run-StaysStuck_example : StaysStuck 0 (run (turns 5 refused ∷ acts) about_to_connect)
run-StaysStuck_example = run-StaysStuck 5 acts about_to_connect refl refl refl refl
