-- ===== src/Base/CountDownLatch/Gate.antt =====
-- The gate is shut before the last countDown, and open behind it.
use mathlib.Core.Path.{subst}
use libiak.Prelude.{
  ℕ, zero, suc, ◌+◌, ◌≤◌, ◌<◌, ◌≡◌, ◌==◌, refl, ap, ◌∙◌, true, false, List, [], ◌∷◌, Option, none,
  some, replicate, if-cases, arith, ◌>>=◌, pos, abs, sub_ℕ,
}
use libiak.Base.CountDownLatch.{
  CountDownLatch, new_latch, is_positive, decrement, test, wait, resume_one, resume, count_down,
  wake_one, Act, waits, downs, resumes, wakes, act, run,
}

-- A latch made with the count `n`, after `d` calls of countDown and `w` of wait
pub record IsGate (n d w : ℕ) (l : CountDownLatch) : Type 0 where
  pub counted : l.count ≡ sub_ℕ n d
  pub threads : l.waiting + l.awake + l.passed ≡ w
  pub shut : d < n → l.passed ≡ 0
  pub opened : n ≤ d → l.waiting ≡ 0

-- If a step can be taken, it leaves such a latch.
abbrev pub Gates : ℕ → ℕ → ℕ → Option CountDownLatch → Type 0
Gates n d w none = Unit
Gates n d w (some l) = IsGate n d w l

decrement-sub_ℕ : (n d : ℕ) → decrement (sub_ℕ n d) ≡ sub_ℕ n (suc d)
decrement-sub_ℕ n d = ground arith

positive→lt : (n d : ℕ) → is_positive (sub_ℕ n d) ≡ true → d < n
positive→lt n d e = ground arith

not_positive→le : (n d : ℕ) → is_positive (sub_ℕ n d) ≡ false → n ≤ d
not_positive→le n d e = ground arith

is_zero→eq : (n d : ℕ) → (abs (sub_ℕ n d) == 0) ≡ true → n ≡ d
is_zero→eq n d e = ground arith

not_zero→ne : (n d : ℕ) → (abs (sub_ℕ n d) == 0) ≡ false → ¬ (n ≡ d)
not_zero→ne n d e = ground arith

module _ (n d : ℕ) where
  test-IsGate : (w : ℕ) (l : CountDownLatch) → IsGate n d w l → IsGate n d (suc w) (test l)
  test-IsGate w l v =
      if-cases (is_positive l.count) (IsGate n d (suc w)) _ _
        (λ e.
          let early = positive→lt n d (rw v.counted at e) in
          record {
            counted = v.counted;
            threads = omega (arith, v.threads);
            shut = v.shut;
            opened = λ h. absurd (omega arith);
          })
        (λ e.
          let late = not_positive→le n d (rw v.counted at e) in
          record {
            counted = v.counted;
            threads = omega (arith, v.threads);
            shut = λ h. absurd (omega arith);
            opened = v.opened;
          })

module _ (n d w : ℕ) where
  resume_one-Gates :
      (k : ℕ) (l : CountDownLatch) → l.awake ≡ k → IsGate n d w l → Gates n d w (resume_one k l)
  resume_one-Gates zero l e v = tt
  resume_one-Gates (suc k) l e v =
      subst (λ x. IsGate n d x (test (record l { awake = k }))) (omega (arith, v.threads, e))
        (test-IsGate n d (l.waiting + k + l.passed) (record l { awake = k })
          (record { counted = v.counted; threads = refl; shut = v.shut; opened = v.opened }))

  wake_one-Gates :
      (k : ℕ) (l : CountDownLatch) → l.waiting ≡ k → IsGate n d w l → Gates n d w (wake_one k l)
  wake_one-Gates zero l e v = tt
  wake_one-Gates (suc k) l e v = record {
    counted = v.counted;
    threads = omega (arith, v.threads);
    shut = v.shut;
    opened = λ h. omega (arith, v.opened h);
  }

  count_down-IsGate : (l : CountDownLatch) → IsGate n d w l → IsGate n (suc d) w (count_down l)
  unfolding count_down
  count_down-IsGate l v =
      let counted : decrement l.count ≡ sub_ℕ n (suc d) =
        ap decrement v.counted ∙ decrement-sub_ℕ n d in
      if-cases (abs (decrement l.count) == 0) (IsGate n (suc d) w) _ _
        (λ e. record {
          counted = counted;
          threads = omega (arith, v.threads);
          shut = λ h. v.shut (omega arith);
          opened = λ h. refl;
        })
        (λ e.
          let more = not_zero→ne n (suc d) (rw counted at e) in
          record {
            counted = counted;
            threads = v.threads;
            shut = λ h. v.shut (omega arith);
            opened = λ h. v.opened (omega (arith, more));
          })

abbrev pub waits_of : Act → ℕ
waits_of waits = 1
waits_of downs = 0
waits_of resumes = 0
waits_of wakes = 0

abbrev pub downs_of : Act → ℕ
downs_of waits = 0
downs_of downs = 1
downs_of resumes = 0
downs_of wakes = 0

-- How often threads called wait, and countDown
abbrev pub all_waits : List Act → ℕ
all_waits [] = 0
all_waits (a ∷ acts) = waits_of a + all_waits acts

abbrev pub all_downs : List Act → ℕ
all_downs [] = 0
all_downs (a ∷ acts) = downs_of a + all_downs acts

Gates-eq :
    (n d d' w w' : ℕ) (o : Option CountDownLatch)
    → d ≡ d'
    → w ≡ w'
    → Gates n d w o
    → Gates n d' w' o
Gates-eq n d d' w w' o e f g = subst (λ x. Gates n x w' o) e (subst (λ x. Gates n d x o) f g)

act-Gates :
    (n d w : ℕ) (a : Act) (l : CountDownLatch)
    → IsGate n d w l
    → Gates n (d + downs_of a) (w + waits_of a) (act a l)
unfolding act wait resume
act-Gates n d w waits l v =
    Gates-eq n d _ (suc w) _ (some (wait l)) (omega arith) (omega arith) (test-IsGate n d w l v)
act-Gates n d w downs l v =
    Gates-eq n (suc d) _ w _ (some (count_down l)) (omega arith) (omega arith)
      (count_down-IsGate n d w l v)
act-Gates n d w resumes l v =
    Gates-eq n d _ w _ (resume l) (omega arith) (omega arith)
      (resume_one-Gates n d w l.awake l refl v)
act-Gates n d w wakes l v =
    Gates-eq n d _ w _ (wake_one l.waiting l) (omega arith) (omega arith)
      (wake_one-Gates n d w l.waiting l refl v)

run_from-Gates :
    (n d w : ℕ) (acts : List Act) (l : CountDownLatch)
    → IsGate n d w l
    → Gates n (d + all_downs acts) (w + all_waits acts) (run acts l)
unfolding run
run_from-Gates n d w [] l v = Gates-eq n d _ w _ (some l) (omega arith) (omega arith) v
run_from-Gates n d w (a ∷ acts) l v =
    go (act a l) (act-Gates n d w a l v)
      (λ l' v'. run_from-Gates n (d + downs_of a) (w + waits_of a) acts l' v')
  where
    go :
        (o : Option CountDownLatch)
        → Gates n (d + downs_of a) (w + waits_of a) o
        → ((l' : CountDownLatch)
            → IsGate n (d + downs_of a) (w + waits_of a) l'
            → Gates n
                (d + downs_of a + all_downs acts)
                (w + waits_of a + all_waits acts)
                (run acts l'))
        → Gates n
            (d + (downs_of a + all_downs acts))
            (w + (waits_of a + all_waits acts))
            (o >>= run acts)
    go none g next = tt
    go (some l') g next = Gates-eq n _ _ _ _ (run acts l') (omega arith) (omega arith) (next l' g)

-- Whatever threads wait and count down, in any order, and whenever they wake: the count is the first one
-- less the calls of countDown, each thread that called wait() sleeps, was woken or has passed, none has
-- passed before the last of the calls that the latch was made for, and none sleeps behind it.
pub run-Gates :
    (n : ℕ) (acts : List Act)
    → Gates n (all_downs acts) (all_waits acts) (run acts (new_latch (pos n)))
unfolding new_latch
run-Gates n acts = Gates-eq n _ _ _ _ (run acts (new_latch (pos n))) (omega arith) (omega arith) (
    run_from-Gates n 0 0 acts (new_latch (pos n))
      (record { counted = start; threads = refl; shut = λ h. refl; opened = λ h. refl }))
  where
    start : pos n ≡ sub_ℕ n 0
    start = ground arith

-- A latch that all threads which called wait() have passed
pub data Passes (w : ℕ) : Option CountDownLatch → Type 0 where
  passed_all : (l : CountDownLatch) → l.waiting ≡ 0 → l.awake ≡ 0 → l.passed ≡ w → Passes w (some l)

not_positive : (n d : ℕ) → n ≤ d → is_positive (sub_ℕ n d) ≡ false
not_positive n d h = ground arith

resumes-Passes :
    (n d w k : ℕ) (l : CountDownLatch)
    → n ≤ d
    → l.awake ≡ k
    → IsGate n d w l
    → Passes w (run (replicate k resumes) l)
unfolding run act resume
resumes-Passes n d w zero l h e v =
    passed_all l (v.opened h) e (omega (arith, v.threads, v.opened h, e))
resumes-Passes n d w (suc k) l h e v =
    let shut : is_positive l.count ≡ false = ap is_positive v.counted ∙ not_positive n d h in
    rw (e, shut)
      (resumes-Passes n d w k (record l { awake = k; passed = l.passed + 1 }) h refl
        (record {
          counted = v.counted;
          threads = omega (arith, v.threads, e);
          shut = λ lt. absurd (omega arith);
          opened = v.opened;
        }))

-- When the latch was counted down as often as it was made for, and each woken thread has then had the
-- mutex once, all threads that called wait() have passed.
pub run_awake-Passes :
    (n d w : ℕ) (l : CountDownLatch)
    → n ≤ d
    → IsGate n d w l
    → Passes w (run (replicate l.awake resumes) l)
run_awake-Passes n d w l h v = resumes-Passes n d w l.awake l h refl v
