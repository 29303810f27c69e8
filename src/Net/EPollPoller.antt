-- ===== src/Net/EPollPoller.antt =====
-- net/EPollPoller.cpp: the dispatch of one result of epoll_wait, and the growth of the event array. What
-- epoll_wait reports is an argument; the calls of epoll_ctl are not modelled.
use libiak.Prelude.{ℕ, ◌*◌, Bool, List, [], ◌++◌, ◌==◌, if◌then◌else◌}
use libiak.Net.Channel.{Channel, Request, on_close, on_error, on_read, on_write}

-- `event.events`: EPOLLRDHUP or EPOLLHUP, EPOLLERR, EPOLLIN, EPOLLOUT.
pub record Reported : Type 0 where
  pub hup : Bool
  pub err : Bool
  pub inp : Bool
  pub out : Bool

abbrev pub on : Bool → (Channel → Channel × List Request) → Channel → Channel × List Request
on b f c = if b then f c else (c, [])

-- The body of the loop of EPollPoller::poll.
unfoldable pub dispatch : Reported → Channel → Channel × List Request
dispatch e c0 =
    let (c1, r1) = on e.hup on_close c0 in
    let (c2, r2) = on e.err on_error c1 in
    let (c3, r3) = on e.inp on_read c2 in
    let (c4, r4) = on e.out on_write c3 in (c4, r1 ++ (r2 ++ (r3 ++ r4)))

-- `if (nfd == eventSize_) eventSize_ = eventSize_ << 1`, for nfd > 0
unfoldable pub grown : ℕ → ℕ → ℕ
grown event_size nfd = if nfd == event_size then event_size * 2 else event_size
