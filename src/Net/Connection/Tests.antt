-- ===== src/Net/Connection/Tests.antt =====
-- A connection that is established twice and closed twice.
use libiak.Prelude.{ℕ, refl, List, [], ◌∷◌, replicate, arith}
use libiak.Net.Buffer.{BufferPool}
use libiak.Net.WriteBuffers.WriteData.{IsPool}
use libiak.Net.Connection.{
  Task, establish_task, shutdown_task, close_task, destroy_task, new_connection, run_tasks,
}
use libiak.Net.Connection.Once.{Counts, IsReady, run_tasks-Counts}

abbrev zeros : ℕ → List ℕ
zeros n = replicate n 0

abbrev small_pool : BufferPool
small_pool = record { capacity = 4; size = 64; count = 0 }

small_pool-IsPool : IsPool zeros small_pool
small_pool-IsPool = record { allocates = refl; some_room = omega arith; small = omega arith }

abbrev tasks : List Task
tasks =
    establish_task ∷ establish_task ∷ shutdown_task ∷ close_task ∷ close_task ∷ destroy_task ∷ []

new_connection-IsReady : IsReady (new_connection 5)
unfolding new_connection
new_connection-IsReady = (tt, tt)

run_tasks-Counts_example :
    let (c', called) = run_tasks zeros small_pool tasks (new_connection 5) in
    Counts (new_connection 5) c' called × IsReady c'
run_tasks-Counts_example =
    run_tasks-Counts zeros small_pool small_pool-IsPool tasks (new_connection 5)
      new_connection-IsReady
