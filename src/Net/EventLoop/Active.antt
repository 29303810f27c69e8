-- ===== src/Net/EventLoop/Active.antt =====
-- The list of active channels holds each channel that has an event to deliver, once.
use libiak.Prelude.{
  ℕ, suc, ◌+◌, ◌≡◌, ap, ◌∙◌, Bool, true, false, List, [], ◌∷◌, ◌++◌, ◌==◌, arith, if◌then◌else◌,
  Bool-cases, inl, inr, ==→eq, ◌⊎◌,
}
use libiak.Net.Channel.{Channel, Request}
use libiak.Net.Channel.Events.{IsQueued, Keeps, queues, dispatch-Keeps}
use libiak.Net.EPollPoller.{Reported, dispatch}
use libiak.Net.EventLoop.{EventLoop, poll, serve, serve_channel}

-- How often a channel stands in the list.
abbrev pub occurs : ℕ → List ℕ → ℕ
occurs i [] = 0
occurs i (j ∷ js) = if i == j then suc (occurs i js) else occurs i js

occurs-append : (i : ℕ) (xs ys : List ℕ) → occurs i (xs ++ ys) ≡ occurs i xs + occurs i ys
occurs-append i [] ys = omega arith
occurs-append i (x ∷ xs) ys = ground (arith, occurs-append i xs ys)

abbrev pub once : Bool → ℕ
once b = if b then 1 else 0

-- Each channel is active just if it has an event to deliver, and it stands in the list once if it is active and
-- not at all if it is not.
abbrev pub IsConsistent {ℓ} : {F : Type ℓ} → EventLoop F → Type 0
IsConsistent l =
    (i : ℕ) → IsQueued (l.channels i) × (occurs i l.actived_channels ≡ once (l.channels i).actived)

-- What serving the requests of channel `j` does to the list.
serve-queues :
    (i j : ℕ) (c c' : Channel) (active : List ℕ)
    → occurs i (serve j (queues c c') active) ≡ (
        if i == j
        then if c.actived then occurs i active else occurs i active + once c'.actived
        else occurs i active)
serve-queues i j c c' active = ground (arith, occurs-append i active (j ∷ []))

module _ {ℓ} {F : Type ℓ} where
  serve_channel-IsConsistent :
      (j : ℕ) (out : Channel × List Request) (l : EventLoop F)
      → IsConsistent l
      → Keeps (l.channels j) out
      → IsConsistent (serve_channel j out l)
  serve_channel-IsConsistent j (c', rs) l v k i =
      let count =
        ap (λ r. occurs i (serve j r l.actived_channels)) k.asked
        ∙ serve-queues i j (l.channels j) c' l.actived_channels in
      elim (Bool-cases (i == j)) [
        | inl same ↦
            let before = ap (λ n. occurs n l.actived_channels) (==→eq i j same) ∙ (v j).1 in
            rw same (k.queued, count ∙ rw same (gets_queued before k.stays))
        | inr other ↦ rw other ((v i).0, count ∙ rw other (v i).1)
      ]
    where
      gets_queued :
          {n : ℕ}
          → n ≡ once (l.channels j).actived
          → ((l.channels j).actived ≡ false) ⊎ (c'.actived ≡ true)
          → (if (l.channels j).actived then n else n + once c'.actived) ≡ once c'.actived
      gets_queued e stays = ground arith

  -- Dispatching any results of epoll_wait keeps the list of active channels consistent: a channel with an event
  -- to deliver stands in it once, and a channel without one does not stand in it.
  pub poll-IsConsistent :
      (es : List (ℕ × Reported)) (l : EventLoop F) → IsConsistent l → IsConsistent (poll es l)
  unfolding poll
  poll-IsConsistent [] l v = v
  poll-IsConsistent ((j, e) ∷ es) l v = poll-IsConsistent es _ (
      serve_channel-IsConsistent j (dispatch e (l.channels j)) l v
        (dispatch-Keeps e (l.channels j) (v j).0))
