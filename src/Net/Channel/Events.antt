-- ===== src/Net/Channel/Events.antt =====
-- Which events reach the callbacks of a channel.
use libiak.Prelude.{◌≡◌, ◌⊎◌, Bool, true, false, ◌||◌, List, [], ◌∷◌, ◌++◌, arith, if◌then◌else◌}
use libiak.Net.EPollPoller.{Reported, on, dispatch}
use libiak.Net.Channel.{Channel, Request, add_actived, on_close, on_error, on_read, on_write}

-- A channel is active just if it has an event to deliver.
pub record IsQueued (c : Channel) : Type 0 where
  pub close_queued : (c.rclose ≡ false) ⊎ (c.actived ≡ true)
  pub error_queued : (c.rerror ≡ false) ⊎ (c.actived ≡ true)
  pub read_queued : (c.rread ≡ false) ⊎ (c.actived ≡ true)
  pub write_queued : (c.rwrite ≡ false) ⊎ (c.actived ≡ true)
  pub has_event : (c.actived ≡ false) ⊎ (c.rclose || (c.rerror || (c.rread || c.rwrite)) ≡ true)

-- The requests of an operation that may queue the channel: at most one, when it gets queued.
abbrev pub queues : Channel → Channel → List Request
queues c c' = if c.actived then [] else if c'.actived then add_actived ∷ [] else []

-- What one operation keeps, and that a queued channel stays queued.
pub record Keeps (c : Channel) (out : Channel × List Request) : Type 0 where
  pub queued : IsQueued out.0
  pub asked : out.1 ≡ queues c out.0
  pub stays : (c.actived ≡ false) ⊎ (out.0.actived ≡ true)

on_close-Keeps : (c : Channel) → IsQueued c → Keeps c (on_close c)
unfolding on_close
on_close-Keeps c v = ground arith

on_error-Keeps : (c : Channel) → IsQueued c → Keeps c (on_error c)
unfolding on_error
on_error-Keeps c v = ground arith

on_read-Keeps : (c : Channel) → IsQueued c → Keeps c (on_read c)
unfolding on_read
on_read-Keeps c v = ground arith

on_write-Keeps : (c : Channel) → IsQueued c → Keeps c (on_write c)
unfolding on_write
on_write-Keeps c v = ground arith

on-Keeps :
    (b : Bool) (f : Channel → Channel × List Request)
    → ((c : Channel) → IsQueued c → Keeps c (f c))
    → (c : Channel) → IsQueued c
    → Keeps c (on b f c)
on-Keeps true f k c v = k c v
on-Keeps false f k c v = record { queued = v; asked = ground arith; stays = ground arith }

then-Keeps :
    (c c' c'' : Channel) (r r' : List Request)
    → Keeps c (c', r)
    → Keeps c' (c'', r')
    → Keeps c (c'', r ++ r')
then-Keeps c c' c'' r r' k k' = ground arith

-- The dispatch of any result of epoll_wait keeps every event that waits in the list of active
-- channels, and asks for the channel to be put there exactly when it was not there and now has to be.
pub dispatch-Keeps : (e : Reported) (c : Channel) → IsQueued c → Keeps c (dispatch e c)
unfolding dispatch
dispatch-Keeps e c v =
    let k1 = on-Keeps e.hup on_close on_close-Keeps c v in
    let c1 = (on e.hup on_close c).0 in
    let k2 = on-Keeps e.err on_error on_error-Keeps c1 k1.queued in
    let c2 = (on e.err on_error c1).0 in
    let k3 = on-Keeps e.inp on_read on_read-Keeps c2 k2.queued in
    let c3 = (on e.inp on_read c2).0 in
    let k4 = on-Keeps e.out on_write on_write-Keeps c3 k3.queued in
    then-Keeps c c1 _ _ _ k1 (then-Keeps c1 c2 _ _ _ k2 (then-Keeps c2 c3 _ _ _ k3 k4))
