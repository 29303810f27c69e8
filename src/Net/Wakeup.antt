-- ===== src/Net/Wakeup.antt =====
-- runInLoop, quit, wakeup and handleWakeup of net/EventLoop.cpp, step by step: other threads post while
-- the loop is in epoll_wait, handles events or runs functors. `posting` counts the threads between the
-- change of the loop and their write to wakeupFd_; `signalled` says that epoll_wait has an edge of
-- wakeupFd_ to report, as it has behind each write. `taken` are the functors that doPendingFunctors swapped
-- out and has not run, `ran` those that ran, in order.
pub mod Watch
pub mod Awake
pub mod Runs
mod Tests
use libiak.Prelude.{
  ℕ, zero, suc, ◌+◌, Bool, true, false, List, [], ◌∷◌, ◌++◌, Option, none, some, if◌then◌else◌,
  ◌>>=◌,
}
use libiak.Net.Channel.{
  Channel, Request, new_channel, enable_read, open_channel, disable_readable, Event, closes, errors,
  reads, writes, Callbacks, handle_events,
}
use libiak.Net.EPollPoller.{Reported, dispatch}

-- Where the loop is: in epoll_wait; before handleActivedChannels; before the swap of doPendingFunctors; in
-- its loop over the functors; behind loop().
pub data Stage : Type 0 where
  polling handling swapping running stopped : Stage

pub record Running {ℓ} (F : Type ℓ) : Type ℓ where
  pub stage : Stage
  pub quit : Bool
  pub posting : ℕ
  pub signalled : Bool
  pub channel : Channel
  pub active : Bool
  pub pending : List F
  pub taken : List F
  pub ran : List F

-- The channel of wakeupFd_ as EventLoop::EventLoop sets it up
unfoldable pub wakeup_channel : ℕ → Channel
unfolding new_channel enable_read open_channel
wakeup_channel fd = (open_channel (enable_read (new_channel fd))).0

-- EventLoop::handleWakeup, behind its read
abbrev pub handle_wakeup : Channel → Channel
handle_wakeup c = disable_readable c

abbrev pub wakeup_callbacks : Callbacks
wakeup_callbacks reads = some handle_wakeup
wakeup_callbacks closes = none
wakeup_callbacks errors = none
wakeup_callbacks writes = none

-- EPOLLIN alone
abbrev pub readable_event : Reported
readable_event = record { hup = false; err = false; inp = true; out = false }

abbrev pub any : List Request → Bool
any [] = false
any (r ∷ rs) = true

module _ {ℓ} {F : Type ℓ} where
  -- A loop that begins: loop() behind `quit_ = false`
  unfoldable pub begin_loop : ℕ → Running F
  unfolding wakeup_channel
  begin_loop fd = record {
    stage = polling;
    quit = false;
    posting = 0;
    signalled = false;
    channel = wakeup_channel fd;
    active = false;
    pending = [];
    taken = [];
    ran = [];
  }

  -- EventLoop::runInLoop up to its wakeup()
  unfoldable pub push : F → Running F → Running F
  push f l = record l { pending = l.pending ++ f ∷ []; posting = suc l.posting }

  -- EventLoop::quit up to its wakeup()
  unfoldable pub set_quit : Running F → Running F
  set_quit l = record l { quit = true; posting = suc l.posting }

  -- EventLoop::wakeup of a thread that comes to it
  abbrev pub wakeup_of : ℕ → Running F → Option (Running F)
  wakeup_of zero l = none
  wakeup_of (suc n) l = some (record l { posting = n; signalled = true })

  unfoldable pub wakeup : Running F → Option (Running F)
  wakeup l = wakeup_of l.posting l

  -- EPollPoller::poll reports wakeupFd_.
  unfoldable pub poll_wakeup : Running F → Running F
  unfolding dispatch
  poll_wakeup l =
      let (c, rs) = dispatch readable_event l.channel in
      record l {
        stage = handling;
        signalled = false;
        channel = c;
        active = if any rs then true else l.active;
      }

  -- The loop's next step in `while (!quit_) { … }`; `none` where it waits in epoll_wait, or is done.
  abbrev pub turn_at : Stage → Running F → Option (Running F)
  turn_at polling l = if l.signalled then some (poll_wakeup l) else none
  turn_at handling l = some (record l {
    stage = swapping;
    channel = if l.active then (handle_events wakeup_callbacks l.channel).0 else l.channel;
    active = false;
  })
  turn_at swapping l = some (record l { stage = running; taken = l.pending; pending = [] })
  turn_at running l = elim l.taken [
    | [] ↦ some (record l { stage = if l.quit then stopped else polling })
    | f ∷ fs ↦ some (record l { stage = running; taken = fs; ran = l.ran ++ f ∷ [] })
  ]
  turn_at stopped l = none

  unfoldable pub turn : Running F → Option (Running F)
  unfolding poll_wakeup handle_events
  turn l = turn_at l.stage l

  -- epoll_wait returns without an edge of wakeupFd_: for other channels, or at its timeout.
  abbrev pub return_at : Stage → Running F → Option (Running F)
  return_at polling l = some (record l { stage = handling })
  return_at handling l = none
  return_at swapping l = none
  return_at running l = none
  return_at stopped l = none

-- What happens next. A functor that posts does so by `posts`, as another thread does.
pub data Act {ℓ} (F : Type ℓ) : Type ℓ where
  posts : F → Act F
  quits signals turns returns : Act F

module _ {ℓ} {F : Type ℓ} where
  unfoldable pub act : Act F → Running F → Option (Running F)
  act (posts f) l = some (push f l)
  act quits l = some (set_quit l)
  act signals l = wakeup l
  act turns l = turn l
  act returns l = return_at l.stage l

  unfoldable pub run : List (Act F) → Running F → Option (Running F)
  run [] l = some l
  run (a ∷ acts) l = act a l >>= run acts
