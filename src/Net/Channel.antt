-- ===== src/Net/Channel.antt =====
-- net/Channel.h and net/Channel.cpp: the flags of one file descriptor. Calls into the event loop
-- (addChannel, updateChannel, removeChannel, addActivedChannel) are returned as requests.
pub mod Events
pub mod Handle
use libiak.Prelude.{
  ℕ, Bool, true, false, not, ◌&&◌, List, [], ◌∷◌, ◌++◌, Option, none, some, if◌then◌else◌,
}

-- class Channel, less its callbacks
pub record Channel : Type 0 where
  pub fd : ℕ
  pub read : Bool
  pub write : Bool
  pub rclose : Bool
  pub rerror : Bool
  pub rread : Bool
  pub rwrite : Bool
  pub started : Bool
  pub actived : Bool
  pub closed : Bool
  pub readable : Bool
  pub writeable : Bool

-- What a channel asks of its loop.
pub data Request : Type 0 where
  add_channel update_channel remove_channel add_actived : Request

-- Channel::Channel
unfoldable pub new_channel : ℕ → Channel
new_channel fd = record {
  fd = fd;
  read = false;
  write = false;
  rclose = false;
  rerror = false;
  rread = false;
  rwrite = false;
  started = false;
  actived = false;
  closed = false;
  readable = false;
  writeable = false;
}

unfoldable pub enable_read : Channel → Channel
enable_read c = record c { read = true }

unfoldable pub enable_write : Channel → Channel
enable_write c = record c { write = true }

unfoldable pub enable_all : Channel → Channel
enable_all c = record c { read = true; write = true }

unfoldable pub disable_all : Channel → Channel
disable_all c = record c { read = false; write = false }

unfoldable pub disable_readable : Channel → Channel
disable_readable c = record c { readable = false }

unfoldable pub disable_writeable : Channel → Channel
disable_writeable c = record c { writeable = false }

-- Channel::open
unfoldable pub open_channel : Channel → Channel × List Request
open_channel c = if c.started then (c, []) else (record c { started = true }, add_channel ∷ [])

-- Channel::update
unfoldable pub update : Channel → Channel × List Request
update c = if c.started then (c, update_channel ∷ []) else (c, [])

-- Channel::close
unfoldable pub close_channel : Channel → Channel × List Request
close_channel c = if c.started then (record c { started = false }, remove_channel ∷ []) else (c, [])

-- Channel::addActivedChannel
unfoldable pub add_actived_channel : Channel → Channel × List Request
add_actived_channel c =
    if c.actived then (c, []) else (record c { actived = true }, add_actived ∷ [])

-- Channel::onClose
unfoldable pub on_close : Channel → Channel × List Request
unfolding add_actived_channel
on_close c =
    if not c.closed && not c.rclose
    then add_actived_channel (record c { closed = true; rclose = true })
    else (c, [])

-- Channel::onError
unfoldable pub on_error : Channel → Channel × List Request
unfolding add_actived_channel
on_error c = if c.rerror then (c, []) else add_actived_channel (record c { rerror = true })

-- Channel::onRead
unfoldable pub on_read : Channel → Channel × List Request
unfolding add_actived_channel
on_read c =
    if c.read && (not c.readable && not c.rread)
    then add_actived_channel (record c { readable = true; rread = true })
    else (c, [])

-- Channel::onWrite
unfoldable pub on_write : Channel → Channel × List Request
unfolding add_actived_channel
on_write c =
    if c.write && (not c.writeable && not c.rwrite)
    then add_actived_channel (record c { writeable = true; rwrite = true })
    else (c, [])

pub data Event : Type 0 where
  closes errors reads writes : Event

-- The callbacks that are set, as what each does to the channel; `none` is an empty function.
abbrev pub Callbacks : Type 0
Callbacks = Event → Option (Channel → Channel)

-- One `if (r…_) { r…_ = false; if (callback) callback(); }`; `c` has the flag cleared already.
abbrev pub fire : Callbacks → Bool → Event → Channel → Channel → Channel × List Event
fire calls false e old c = (old, [])
fire calls true e old c = elim (calls e) [ none ↦ (c, []) | some f ↦ (f c, e ∷ []) ]

-- Channel::handleEvents, with the callbacks in the order of their calls.
unfoldable pub handle_events : Callbacks → Channel → Channel × List Event
handle_events calls c =
    let c0 : Channel = record c { actived = false } in
    let (c1, e1) = fire calls c0.rclose closes c0 (record c0 { rclose = false }) in
    let (c2, e2) = fire calls c1.rerror errors c1 (record c1 { rerror = false }) in
    let (c3, e3) = fire calls c2.rread reads c2 (record c2 { rread = false }) in
    let (c4, e4) = fire calls c3.rwrite writes c3 (record c3 { rwrite = false }) in
    (c4, e1 ++ (e2 ++ (e3 ++ e4)))
