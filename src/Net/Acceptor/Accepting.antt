-- ===== src/Net/Acceptor/Accepting.antt =====
-- Acceptor::onRead: what becomes of the descriptors that accept() gives.
use libiak.Prelude.{ℕ, ◌≡◌, List, [], ◌∷◌, ◌++◌, map, Option, none, some}
use libiak.Net.Channel.{Channel, disable_readable}
use libiak.Net.Acceptor.{Accepted, connection, again, too_many, other, Fate, handed, closed}

abbrev pub fd_of : Fate → ℕ
fd_of (handed fd) = fd
fd_of (closed fd) = fd

abbrev pub own : Accepted → List ℕ
own (connection fd) = fd ∷ []
own again = []
own too_many = []
own other = []

-- The descriptors among the results.
abbrev pub connections : List Accepted → List ℕ
connections [] = []
connections (r ∷ rs) = own r ++ connections rs

-- What the loop ends on: an EAGAIN, which makes the channel unreadable, or another error, which does not
abbrev pub StopsOn : Accepted → Channel → Channel → Type 0
StopsOn (connection fd) c c' = ⊥
StopsOn again c c' = c' ≡ disable_readable c
StopsOn too_many c c' = ⊥
StopsOn other c c' = c' ≡ c

-- The last of the results is one that the loop ends on.
abbrev pub Stops : List Accepted → Channel → Channel → Type 0
Stops [] c c' = ⊥
Stops (r ∷ []) c c' = StopsOn r c c'
Stops (r ∷ x ∷ rs) c c' = Stops (x ∷ rs) c c'

-- The loop has ended after a first part of the results, and each descriptor of that part was handed
-- over or closed, in the order they came.
abbrev pub Settles : List Accepted → Channel → Option (Channel × List Fate × List Accepted) → Type 0
Settles rs c none = ⊥
Settles rs c (some (c', fds, rest)) =
    (taken : List Accepted) × (rs ≡ taken ++ rest)
    × (map fd_of fds ≡ connections taken)
    × Stops taken c c'
