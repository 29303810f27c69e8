-- ===== src/Net/EventLoop/Functors.antt =====
-- Functors run exactly once, in the order in which they were posted.
use libiak.Prelude.{
  ℕ, ◌≡◌, refl, sym, ap, ap₂, ◌∙◌, Bool, true, false, List, [], ◌∷◌, ◌++◌, append-nil, append_assoc,
  if-holds, if◌then◌else◌,
}
use libiak.Net.Channel.{Callbacks}
use libiak.Net.EPollPoller.{Reported}
use libiak.Net.EventLoop.{
  EventLoop, run_in_loop, post_all, run_functors, do_pending_functors, poll,
  handle_actived_channels, loop_round, loop_rounds, loop, quit_loop,
}

-- What a sequence of functors posts.
abbrev pub posts {ℓ} : {F : Type ℓ} → (F → List F) → List F → List F
posts exec [] = []
posts exec (f ∷ fs) = exec f ++ posts exec fs

module _ {ℓ} {F : Type ℓ} (exec : F → List F) where
  post_all-pending :
      (fs : List F) (l : EventLoop F) → (post_all fs l).pending_functors ≡ l.pending_functors ++ fs
  unfolding post_all
  post_all-pending [] l = sym (append-nil l.pending_functors)
  post_all-pending (f ∷ fs) l =
      post_all-pending fs (run_in_loop f l) ∙ append_assoc l.pending_functors (f ∷ []) fs

  run_functors-order :
      (fs : List F) (l : EventLoop F)
      → ((run_functors exec fs l).1 ≡ fs)
        × ((run_functors exec fs l).0.pending_functors ≡ l.pending_functors ++ posts exec fs)
  unfolding run_functors
  run_functors-order [] l = (refl, sym (append-nil l.pending_functors))
  run_functors-order (f ∷ fs) l =
      let rest = run_functors-order fs (post_all (exec f) l) in
      (
        ap (◌∷◌ f) rest.0,
        rest.1
            ∙ ap (λ ps. ps ++ posts exec fs) (post_all-pending (exec f) l)
            ∙ append_assoc l.pending_functors (exec f) (posts exec fs),
      )

  -- doPendingFunctors runs exactly the functors that were queued when it began, each once and in
  -- order; those that they post wait, in order, for the next round.
  pub do_pending_functors-order :
      (l : EventLoop F)
      → ((do_pending_functors exec l).1 ≡ l.pending_functors)
        × ((do_pending_functors exec l).0.pending_functors ≡ posts exec l.pending_functors)
  unfolding do_pending_functors
  do_pending_functors-order l =
      run_functors-order l.pending_functors (record l { pending_functors = [] })

  posts-append : (xs ys : List F) → posts exec (xs ++ ys) ≡ posts exec xs ++ posts exec ys
  posts-append [] ys = refl
  posts-append (x ∷ xs) ys =
      ap (λ ps. exec x ++ ps) (posts-append xs ys)
      ∙ sym (append_assoc (exec x) (posts exec xs) (posts exec ys))

  poll-pending :
      (es : List (ℕ × Reported)) (l : EventLoop F)
      → (poll es l).pending_functors ≡ l.pending_functors
  unfolding poll
  poll-pending [] l = refl
  poll-pending ((i, e) ∷ es) l = poll-pending es _

  module _ (calls : ℕ → Callbacks) where
    loop_round-order :
        (es : List (ℕ × Reported)) (l : EventLoop F)
        → ((loop_round calls exec es l).1 ≡ l.pending_functors)
          × ((loop_round calls exec es l).0.pending_functors ≡ posts exec l.pending_functors)
    unfolding loop_round handle_actived_channels
    loop_round-order es l =
        let o = do_pending_functors-order (handle_actived_channels calls (poll es l)).0 in
        (o.0 ∙ poll-pending es l, o.1 ∙ ap (posts exec) (poll-pending es l))

    quit-pending :
        (quits : Bool) (l : EventLoop F)
        → (if quits then quit_loop l else l).pending_functors ≡ l.pending_functors
    unfolding quit_loop
    quit-pending true l = refl
    quit-pending false l = refl

    chain :
        (old ran queued more left : List F)
        → ran ≡ old
        → queued ≡ posts exec old
        → more ++ left ≡ queued ++ posts exec more
        → (ran ++ more) ++ left ≡ old ++ posts exec (ran ++ more)
    chain old ran queued more left e o ih =
        append_assoc ran more left
        ∙ ap₂ ◌++◌ e (ih ∙ ap (λ ps. ps ++ posts exec more) (o ∙ ap (posts exec) (sym e)))
        ∙ ap (λ ps. old ++ ps) (sym (posts-append ran more))

    loop_rounds-order :
        (rounds : List (Bool × List (ℕ × Reported))) (l : EventLoop F)
        → let (l', ran) = loop_rounds calls exec rounds l in
          ran ++ l'.pending_functors ≡ l.pending_functors ++ posts exec ran
    unfolding loop_rounds
    loop_rounds-order [] l = sym (append-nil l.pending_functors)
    loop_rounds-order ((quits, es) ∷ rounds) l =
        let o = loop_round-order es l in
        let l' = (loop_round calls exec es l).0 in
        if-holds l.quit
          (λ (r : EventLoop F × List F).
            r.1 ++ r.0.pending_functors ≡ l.pending_functors ++ posts exec r.1)
          _ _ (sym (append-nil l.pending_functors))
          (chain l.pending_functors _ _ _ _ o.0 (quit-pending quits l' ∙ o.1)
            (loop_rounds-order rounds (if quits then quit_loop l' else l')))

    -- Over any number of rounds of the loop, whatever the polls report and whenever quit is called:
    -- the functors that ran, followed by those still queued, are the functors queued at the start
    -- followed by all that the functors that ran have posted. So none is lost, none runs twice, and
    -- they run in the order in which they were posted.
    pub loop-order :
        (rounds : List (Bool × List (ℕ × Reported))) (l : EventLoop F)
        → let (l', ran) = loop calls exec rounds l in
          ran ++ l'.pending_functors ≡ l.pending_functors ++ posts exec ran
    unfolding loop
    loop-order rounds l = loop_rounds-order rounds (record l { quit = false })
