-- ===== src/Net/EventLoop.antt =====
-- net/EventLoop.cpp: the queue of functors, the list of active channels and the loop. Channels are
-- named by numbers. `exec f` is what the functor `f` posts by runInLoop while it runs; a functor or
-- a callback that does anything else is outside this module.
pub mod Functors
pub mod Active
use libiak.Prelude.{ℕ, zero, suc, ◌+◌, Bool, true, false, List, [], ◌∷◌, ◌++◌, ◌==◌, if◌then◌else◌}
use libiak.Net.Channel.{
  Channel, Request, add_channel, update_channel, remove_channel, add_actived, Event, Callbacks,
  handle_events,
}
use libiak.Net.EPollPoller.{Reported, dispatch}

-- class EventLoop; `wakeups` counts the writes to wakeupFd_.
pub record EventLoop {ℓ} (F : Type ℓ) : Type ℓ where
  pub quit : Bool
  pub pending_functors : List F
  pub actived_channels : List ℕ
  pub channels : ℕ → Channel
  pub wakeups : ℕ

abbrev pub set_channel : (ℕ → Channel) → ℕ → Channel → ℕ → Channel
set_channel channels i c j = if j == i then c else channels j

-- EventLoop::addActivedChannel for each request of a channel; the other requests go to epoll.
abbrev pub serve : ℕ → List Request → List ℕ → List ℕ
serve i [] active = active
serve i (add_actived ∷ rs) active = serve i rs (active ++ i ∷ [])
serve i (add_channel ∷ rs) active = serve i rs active
serve i (update_channel ∷ rs) active = serve i rs active
serve i (remove_channel ∷ rs) active = serve i rs active

-- The loop of handleActivedChannels; also returns the callbacks that were called.
unfoldable pub handle_channels :
    (ℕ → Callbacks) → List ℕ → (ℕ → Channel) → (ℕ → Channel) × List (ℕ × List Event)
handle_channels calls [] channels = (channels, [])
handle_channels calls (i ∷ is) channels =
    let (c, called) = handle_events (calls i) (channels i) in
    let (channels', rest) = handle_channels calls is (set_channel channels i c) in
    (channels', (i, called) ∷ rest)

module _ {ℓ} {F : Type ℓ} where
  -- EventLoop::wakeup
  abbrev pub wakeup : EventLoop F → EventLoop F
  wakeup l = record l { wakeups = l.wakeups + 1 }

  -- EventLoop::quit
  unfoldable pub quit_loop : EventLoop F → EventLoop F
  quit_loop l = wakeup (record l { quit = true })

  -- EventLoop::runInLoop
  unfoldable pub run_in_loop : F → EventLoop F → EventLoop F
  run_in_loop f l = wakeup (record l { pending_functors = l.pending_functors ++ f ∷ [] })

  unfoldable pub post_all : List F → EventLoop F → EventLoop F
  unfolding run_in_loop
  post_all [] l = l
  post_all (f ∷ fs) l = post_all fs (run_in_loop f l)

  -- The loop of doPendingFunctors over the functors that it swapped out; also returns them in the
  -- order in which they ran.
  unfoldable pub run_functors : (F → List F) → List F → EventLoop F → EventLoop F × List F
  unfolding post_all
  run_functors exec [] l = (l, [])
  run_functors exec (f ∷ fs) l =
      let (l', ran) = run_functors exec fs (post_all (exec f) l) in (l', f ∷ ran)

  -- EventLoop::doPendingFunctors
  unfoldable pub do_pending_functors : (F → List F) → EventLoop F → EventLoop F × List F
  unfolding run_functors
  do_pending_functors exec l =
      run_functors exec l.pending_functors (record l { pending_functors = [] })

  abbrev pub serve_channel : ℕ → Channel × List Request → EventLoop F → EventLoop F
  serve_channel i (c, rs) l = record l {
    channels = set_channel l.channels i c;
    actived_channels = serve i rs l.actived_channels;
  }

  -- epollPoller_->poll: every result of epoll_wait is dispatched to its channel.
  unfoldable pub poll : List (ℕ × Reported) → EventLoop F → EventLoop F
  poll [] l = l
  poll ((i, e) ∷ es) l = poll es (serve_channel i (dispatch e (l.channels i)) l)

  -- EventLoop::handleActivedChannels
  unfoldable pub handle_actived_channels :
      (ℕ → Callbacks) → EventLoop F → EventLoop F × List (ℕ × List Event)
  unfolding handle_channels
  handle_actived_channels calls l =
      let (channels, called) = handle_channels calls l.actived_channels l.channels in
      (record l { channels = channels; actived_channels = [] }, called)

  -- One round of EventLoop::loop: the functors that ran.
  unfoldable pub loop_round :
      (ℕ → Callbacks) → (F → List F) → List (ℕ × Reported) → EventLoop F → EventLoop F × List F
  unfolding poll handle_actived_channels do_pending_functors
  loop_round calls exec es l =
      do_pending_functors exec (handle_actived_channels calls (poll es l)).0

  -- EventLoop::loop behind `quit_ = false`, over the results of its polls: it ends when `quit_` is
  -- set or the list of results is used up. With each result stands whether quit was called in that
  -- round, by another thread or by a callback.
  unfoldable pub loop_rounds :
      (ℕ → Callbacks)
      → (F → List F)
      → List (Bool × List (ℕ × Reported))
      → EventLoop F
      → EventLoop F × List F
  unfolding loop_round quit_loop
  loop_rounds calls exec [] l = (l, [])
  loop_rounds calls exec ((quits, es) ∷ rounds) l =
      let (l', ran) = loop_round calls exec es l in
      let (l'', more) = loop_rounds calls exec rounds (if quits then quit_loop l' else l') in
      if l.quit then (l, []) else (l'', ran ++ more)

  -- EventLoop::loop
  unfoldable pub loop :
      (ℕ → Callbacks)
      → (F → List F)
      → List (Bool × List (ℕ × Reported))
      → EventLoop F
      → EventLoop F × List F
  unfolding loop_rounds
  loop calls exec rounds l = loop_rounds calls exec rounds (record l { quit = false })
