-- ===== src/Net/Wakeup/Awake.antt =====
-- The loop does not sleep on a functor, nor on quit().
use mathlib.Core.Path.{subst}
use libiak.Prelude.{
  ℕ, zero, suc, ◌≡◌, inl, inr, refl, sym, ap, ◌∙◌, true, false, List, [], ◌∷◌, ◌++◌, Option, none,
  some, append-nil, append_assoc, if◌then◌else◌, if-cases, ◌>>=◌,
}
use mathlib.Core.Bool.{false≢true}
use libiak.Net.EPollPoller.{dispatch}
use libiak.Net.Wakeup.{
  Stage, polling, handling, swapping, running, stopped, Running, readable_event, any, begin_loop,
  push, set_quit, wakeup_of, wakeup, poll_wakeup, turn_at, turn, return_at, Act, posts, quits,
  signals, turns, returns, act, run,
}
use libiak.Net.Wakeup.Watch.{
  comes_to_functors, comes_to_quit, IsReady, is_quiet, queued, quiet-signalled, handled-IsReady,
  is_running,
}

module _ {ℓ} {F : Type ℓ} (fd : ℕ) where
  -- While nothing is on its way to wake the loop, a loop that would sleep has nothing to run and was not
  -- told to quit.
  pub record IsAwake (l : Running F) : Type ℓ where
    pub pending_seen :
        comes_to_functors l.stage ≡ false → is_quiet l.posting l.signalled ≡ true → l.pending ≡ []
    pub quit_seen :
        comes_to_quit l.stage ≡ false → is_quiet l.posting l.signalled ≡ true → l.quit ≡ false
    pub taken_seen : is_running l.stage ≡ false → l.taken ≡ []
    pub ready : IsReady fd l.stage l.channel l.active

  -- The functors that ran, and then those that will, in order
  abbrev pub functors : Running F → List F
  functors l = l.ran ++ (l.taken ++ l.pending)

  -- If a step can be taken, it leaves such a loop, with these functors.
  abbrev pub Stays : List F → Option (Running F) → Type ℓ
  Stays fs none = Unit
  Stays fs (some l) = IsAwake l × (functors l ≡ fs)

  push-Stays : (f : F) (l : Running F) → IsAwake l → Stays (functors l ++ f ∷ []) (some (push f l))
  unfolding push
  push-Stays f l v = (
    record {
      pending_seen = λ e q. absurd (false≢true q);
      quit_seen = λ e q. absurd (false≢true q);
      taken_seen = v.taken_seen;
      ready = v.ready;
    },
    simp append_assoc,
  )

  set_quit-Stays : (l : Running F) → IsAwake l → Stays (functors l) (some (set_quit l))
  unfolding set_quit
  set_quit-Stays l v = (
    record {
      pending_seen = λ e q. absurd (false≢true q);
      quit_seen = λ e q. absurd (false≢true q);
      taken_seen = v.taken_seen;
      ready = v.ready;
    },
    refl,
  )

  wakeup-Stays : (n : ℕ) (l : Running F) → IsAwake l → Stays (functors l) (wakeup_of n l)
  wakeup-Stays zero l v = tt
  wakeup-Stays (suc n) l v = (
    record {
      pending_seen = λ e q. absurd (false≢true (sym (quiet-signalled n) ∙ q));
      quit_seen = λ e q. absurd (false≢true (sym (quiet-signalled n) ∙ q));
      taken_seen = v.taken_seen;
      ready = v.ready;
    },
    refl,
  )

  return_at-Stays :
      (st : Stage) (l : Running F)
      → IsAwake (record l { stage = st })
      → Stays (functors l) (return_at st l)
  return_at-Stays polling l v = (
    record {
      pending_seen = λ e q. absurd (false≢true (sym e));
      quit_seen = λ e q. absurd (false≢true (sym e));
      taken_seen = v.taken_seen;
      ready = inl v.ready;
    },
    refl,
  )
  return_at-Stays handling l v = tt
  return_at-Stays swapping l v = tt
  return_at-Stays running l v = tt
  return_at-Stays stopped l v = tt

  poll_wakeup-Stays :
      (l : Running F)
      → IsAwake (record l { stage = polling })
      → Stays (functors l) (some (poll_wakeup l))
  unfolding poll_wakeup
  poll_wakeup-Stays l v = (
    record {
      pending_seen = λ e q. absurd (false≢true (sym e));
      quit_seen = λ e q. absurd (false≢true (sym e));
      taken_seen = v.taken_seen;
      ready = inr (
        ap (λ c. (dispatch readable_event c).0) v.ready.0,
        ap (λ c. if any (dispatch readable_event c).1 then true else l.active) v.ready.0
            ∙ ap (λ b. if b then true else l.active) (queued fd),
      );
    },
    refl,
  )

  run_functor-Stays :
      (fs : List F) (l : Running F)
      → IsAwake (record l { stage = running; taken = fs })
      → Stays (functors (record l { taken = fs })) (turn_at running (record l { taken = fs }))
  run_functor-Stays [] l v =
      if-cases l.quit
        (λ st.
          Stays (functors (record l { taken = [] })) (some (record l { stage = st; taken = [] })))
        _ _
        (λ e. (
          record {
            pending_seen = λ a q. v.pending_seen refl q;
            quit_seen = λ a q. absurd (false≢true (sym a));
            taken_seen = λ a. refl;
            ready = v.ready;
          },
          refl,
        ))
        (λ e. (
          record {
            pending_seen = λ a q. v.pending_seen refl q;
            quit_seen = λ a q. e;
            taken_seen = λ a. refl;
            ready = v.ready;
          },
          refl,
        ))
  run_functor-Stays (f ∷ fs) l v = (
    record {
      pending_seen = v.pending_seen;
      quit_seen = v.quit_seen;
      taken_seen = λ a. absurd (false≢true (sym a));
      ready = v.ready;
    },
    append_assoc l.ran (f ∷ []) (fs ++ l.pending),
  )

  turn_at-Stays :
      (st : Stage) (l : Running F)
      → IsAwake (record l { stage = st })
      → Stays (functors l) (turn_at st l)
  turn_at-Stays polling l v =
      if-cases l.signalled (Stays (functors l)) _ _ (λ e. poll_wakeup-Stays l v) (λ e. tt)
  turn_at-Stays handling l v = (
    record {
      pending_seen = λ e q. absurd (false≢true (sym e));
      quit_seen = λ e q. absurd (false≢true (sym e));
      taken_seen = v.taken_seen;
      ready = (handled-IsReady fd l.channel l.active v.ready, refl);
    },
    refl,
  )
  turn_at-Stays swapping l v = (
    record {
      pending_seen = λ e q. refl;
      quit_seen = λ e q. absurd (false≢true (sym e));
      taken_seen = λ e. absurd (false≢true (sym e));
      ready = v.ready;
    },
    rw (v.taken_seen refl) (simp append-nil),
  )
  turn_at-Stays running l v = run_functor-Stays l.taken l v
  turn_at-Stays stopped l v = tt

  abbrev pub posted_by : Act F → List F
  posted_by (posts f) = f ∷ []
  posted_by quits = []
  posted_by signals = []
  posted_by turns = []
  posted_by returns = []

  -- The functors that are posted, in order
  abbrev pub posted : List (Act F) → List F
  posted [] = []
  posted (a ∷ acts) = posted_by a ++ posted acts

  act-Stays : (a : Act F) (l : Running F) → IsAwake l → Stays (functors l ++ posted_by a) (act a l)
  unfolding act turn wakeup
  act-Stays (posts f) l v = push-Stays f l v
  act-Stays quits l v = rw (append-nil (functors l)) (set_quit-Stays l v)
  act-Stays signals l v = rw (append-nil (functors l)) (wakeup-Stays l.posting l v)
  act-Stays turns l v = rw (append-nil (functors l)) (turn_at-Stays l.stage l v)
  act-Stays returns l v = rw (append-nil (functors l)) (return_at-Stays l.stage l v)

  Stays-bind :
      (fs gs : List F) (o : Option (Running F)) (next : Running F → Option (Running F))
      → Stays fs o
      → ((l : Running F) → IsAwake l → Stays (functors l ++ gs) (next l))
      → Stays (fs ++ gs) (o >>= next)
  Stays-bind fs gs none next h k = tt
  Stays-bind fs gs (some l) next (v, e) k = subst (λ xs. Stays (xs ++ gs) (next l)) e (k l v)

  -- Whatever threads post functors and quit while the loop goes on, in any order: the functors that
  -- have run and then those that still wait are the ones that were posted, each once and in that order;
  -- the channel of wakeupFd_ is ready for the next edge when epoll_wait is called; and a loop in
  -- epoll_wait has nothing to run and was not told to quit, unless an edge is there to wake it or a
  -- thread is about to write one.
  pub run-Stays :
      (acts : List (Act F)) (l : Running F)
      → IsAwake l
      → Stays (functors l ++ posted acts) (run acts l)
  unfolding run
  run-Stays [] l v = rw (append-nil (functors l)) (v, refl)
  run-Stays (a ∷ acts) l v =
      subst (λ fs. Stays fs (act a l >>= run acts))
        (append_assoc (functors l) (posted_by a) (posted acts))
        (Stays-bind (functors l ++ posted_by a) (posted acts) (act a l) (run acts) (act-Stays a l v)
          (run-Stays acts))

  pub begin_loop-IsAwake : IsAwake (begin_loop fd)
  unfolding begin_loop
  begin_loop-IsAwake = record {
    pending_seen = λ e q. refl;
    quit_seen = λ e q. refl;
    taken_seen = λ e. refl;
    ready = (refl, refl);
  }
