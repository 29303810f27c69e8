-- ===== src/Net/Acceptor/Tests.antt =====
-- The theorems on net/Acceptor.cpp at concrete results of accept() and concrete calls.
use libiak.Prelude.{◌≡◌, refl, false, List, [], ◌∷◌}
use libiak.Net.Channel.{new_channel, enable_read, open_channel, close_channel}
use libiak.Net.Acceptor.{
  Acceptor, Accepted, listen_task, close_task, connection, too_many, new_acceptor, listen, close,
  listen_in_loop, close_in_loop,
}
use libiak.Net.Acceptor.Listening.{
  System, listens, closes, call, run_task, Step, queued, served, Reaches, here, then, new_system,
  closed_lem, IsDeaf, Reaches-IsDeaf,
}

abbrev results : List Accepted
results = connection 8 ∷ too_many ∷ connection 9 ∷ connection 10 ∷ []

-- listen(), its task, close(), its task.
abbrev after_listen : Acceptor
after_listen = run_task listen_task (call listens (new_acceptor 3)).0

abbrev after_close : Acceptor
after_close = run_task close_task (call closes after_listen).0

abbrev idle : Acceptor → System
idle a = record { acceptor = a; pending = [] }

abbrev listening : System
listening = record { acceptor = (call listens (new_acceptor 3)).0; pending = listen_task ∷ [] }

abbrev closing : System
closing = record { acceptor = (call closes after_listen).0; pending = close_task ∷ [] }

listens_first : Step (idle (new_acceptor 3)) listening
unfolding new_acceptor listen
listens_first = queued listens (idle (new_acceptor 3))

closes_next : Step (idle after_listen) closing
unfolding new_acceptor listen close listen_in_loop open_channel new_channel enable_read
closes_next = queued closes (idle after_listen)

listens_and_closes : Reaches (new_system 3) (idle after_close)
listens_and_closes = then (idle (new_acceptor 3)) listening (idle after_close) listens_first (
    then listening (idle after_listen) (idle after_close) (served listen_task listening.acceptor [])
      (then (idle after_listen) closing (idle after_close) closes_next (
        then closing (idle after_close) (idle after_close) (served close_task closing.acceptor [])
          (here (idle after_close)))))

after_close-refuses : after_close.accepts ≡ false
unfolding new_acceptor listen close listen_in_loop close_in_loop
after_close-refuses = refl

closed_lem_example : after_close.channel.started ≡ false
closed_lem_example = closed_lem 3 after_close listens_and_closes after_close-refuses

after_close-IsDeaf : IsDeaf after_close
unfolding new_acceptor new_channel enable_read listen close listen_in_loop close_in_loop
    open_channel close_channel
after_close-IsDeaf = (refl, refl)

-- listen() again, and its task.
abbrev relistening : System
relistening = record { acceptor = (call listens after_close).0; pending = listen_task ∷ [] }

listens_again : Step (idle after_close) relistening
unfolding new_acceptor new_channel enable_read listen close listen_in_loop close_in_loop
    open_channel close_channel
listens_again = queued listens (idle after_close)

abbrev relisten : System
relisten = idle (run_task listen_task relistening.acceptor)

Reaches-IsDeaf_example : IsDeaf relisten.acceptor
Reaches-IsDeaf_example =
    Reaches-IsDeaf (idle after_close) relisten
      (then (idle after_close) relistening relisten listens_again (
        then relistening relisten relisten (served listen_task relistening.acceptor [])
          (here relisten)))
      after_close-IsDeaf
