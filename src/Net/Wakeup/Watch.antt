-- ===== src/Net/Wakeup/Watch.antt =====
-- What the loop comes to by itself at each of its stages, and the channel of wakeupFd_.
use libiak.Prelude.{
  ℕ, zero, suc, ◌≡◌, ◌⊎◌, inl, inr, refl, ap, ◌∙◌, Bool, true, false, if◌then◌else◌,
}
use libiak.Net.Channel.{Channel, handle_events, on_read, disable_readable}
use libiak.Net.EPollPoller.{dispatch}
use libiak.Net.Wakeup.{
  Stage, polling, handling, swapping, running, stopped, wakeup_channel, wakeup_callbacks,
  readable_event, any,
}

-- The loop is behind epoll_wait, and comes to pending functors by itself.
abbrev pub comes_to_functors : Stage → Bool
comes_to_functors polling = false
comes_to_functors handling = true
comes_to_functors swapping = true
comes_to_functors running = false
comes_to_functors stopped = false

-- The loop comes to the test of quit_ by itself.
abbrev pub comes_to_quit : Stage → Bool
comes_to_quit polling = false
comes_to_quit handling = true
comes_to_quit swapping = true
comes_to_quit running = true
comes_to_quit stopped = true

-- The channel of wakeupFd_ is as it was set up, but for an event that is to be handled.
abbrev pub IsReady : ℕ → Stage → Channel → Bool → Type 0
IsReady fd handling c active =
    ((c ≡ wakeup_channel fd) × (active ≡ false))
    ⊎ ((c ≡ (dispatch readable_event (wakeup_channel fd)).0) × (active ≡ true))
IsReady fd polling c active = (c ≡ wakeup_channel fd) × (active ≡ false)
IsReady fd swapping c active = (c ≡ wakeup_channel fd) × (active ≡ false)
IsReady fd running c active = (c ≡ wakeup_channel fd) × (active ≡ false)
IsReady fd stopped c active = (c ≡ wakeup_channel fd) × (active ≡ false)

-- Nobody has a write to wakeupFd_ before it, and epoll_wait has none to report.
abbrev pub is_quiet : ℕ → Bool → Bool
is_quiet zero false = true
is_quiet zero true = false
is_quiet (suc n) b = false

pub handled :
    (fd : ℕ)
    → (handle_events wakeup_callbacks (dispatch readable_event (wakeup_channel fd)).0).0
      ≡ wakeup_channel fd
unfolding handle_events dispatch wakeup_channel on_read disable_readable
handled fd = refl

pub queued : (fd : ℕ) → any (dispatch readable_event (wakeup_channel fd)).1 ≡ true
unfolding dispatch wakeup_channel on_read
queued fd = refl

pub quiet-signalled : (n : ℕ) → is_quiet n true ≡ false
quiet-signalled zero = refl
quiet-signalled (suc n) = refl

pub handled-IsReady :
    (fd : ℕ) (c : Channel) (active : Bool)
    → IsReady fd handling c active
    → (if active then (handle_events wakeup_callbacks c).0 else c) ≡ wakeup_channel fd
handled-IsReady fd c active (inl (e, idle)) = rw idle e
handled-IsReady fd c active (inr (e, busy)) =
    rw busy (ap (λ x. (handle_events wakeup_callbacks x).0) e ∙ handled fd)

abbrev pub is_running : Stage → Bool
is_running polling = false
is_running handling = false
is_running swapping = false
is_running running = true
is_running stopped = false
