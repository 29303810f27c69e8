-- ===== src/Net/TcpServer/Tests.antt =====
-- The theorems on net/TcpServer.cpp at a pool of three loops.
use libiak.Prelude.{ℕ, ◌≡◌, refl, arith, true, false, List, [], ◌∷◌, none, some, if◌then◌else◌}
use libiak.Net.TcpServer.{
  TcpServer, new_pool, on_accept, accept_all, remove_connection, close_server, connections_of,
}
use libiak.Net.TcpServer.Turns.{HasPool, turns, Gives, accept_all-Gives}
use libiak.Net.TcpServer.Members.{
  World, Step, accept, close, remove, none_yet, one_more, start, IsConsistent, Steps-Holds,
}

abbrev pooled : TcpServer
pooled = record {
  loop = 9;
  listens = true;
  connections = [];
  loop_thread_pool = some (new_pool 3);
  index_loop = 0;
}

pooled-HasPool : HasPool 3 pooled
pooled-HasPool = record {
  pool = refl;
  some_loop = omega arith;
  word = omega arith;
  index = omega arith;
}

turns_of_three : turns 3 0 5 ≡ 1 ∷ 2 ∷ 0 ∷ 1 ∷ 2 ∷ []
turns_of_three = refl

accept_all-Gives_example : Gives 3 (turns 3 0 5) (accept_all (5 ∷ 6 ∷ 7 ∷ 8 ∷ 9 ∷ []) 0 pooled)
accept_all-Gives_example = accept_all-Gives 3 (5 ∷ 6 ∷ 7 ∷ 8 ∷ 9 ∷ []) 0 pooled pooled-HasPool

-- The descriptor 5 is accepted as the connection 0, which closes and is removed; the descriptor comes
-- again, as the connection 1.
abbrev plain : List (ℕ × ℕ) → TcpServer
plain xs = record {
  loop = 9;
  listens = true;
  connections = xs;
  loop_thread_pool = none;
  index_loop = 0;
}

abbrev one_open : World
one_open = record {
  server = plain ((5, 0) ∷ []);
  made = 1;
  live = (5, 0) ∷ [];
  tasks = [];
  destroyed = [];
}

abbrev one_closing : World
one_closing = record one_open { tasks = (5, 0) ∷ [] }

abbrev one_gone : World
one_gone = record { server = plain []; made = 1; live = []; tasks = []; destroyed = 0 ∷ [] }

abbrev again_open : World
again_open = record {
  server = plain ((5, 1) ∷ []);
  made = 2;
  live = (5, 1) ∷ [];
  tasks = [];
  destroyed = 0 ∷ [];
}

opens : Step (start (plain [])) one_open
unfolding on_accept
opens = accept 5 9 (plain ((5, 0) ∷ [])) refl refl

closes : Step one_open one_closing
closes = close 5 0 refl refl

goes : Step one_closing one_gone
unfolding remove_connection
goes = remove 5 0 [] refl

opens_again : Step one_gone again_open
unfolding on_accept
opens_again = accept 5 9 (plain ((5, 1) ∷ [])) refl refl

Steps-Holds_example :
    IsConsistent again_open
    × (close_server (plain ((5, 1) ∷ []))
        ≡ (if true then (true, connections_of ((5, 1) ∷ [])) else (false, [])))
Steps-Holds_example = Steps-Holds (plain []) again_open refl (
    one_more one_gone again_open
      (one_more one_closing one_gone
        (one_more one_open one_closing (one_more (start (plain [])) one_open none_yet opens) closes)
        goes)
      opens_again)
