-- ===== src/Log/AsyncLogger/Filed.antt =====
-- The lines that threads log, in the files of the log.
use mathlib.Core.Path.{subst}
use libiak.Prelude.{
  ℕ, suc, ◌≡◌, refl, sym, ap, ◌∙◌, List, [], ◌∷◌, ◌++◌, append-nil, append_assoc, Option, none,
  some, drop, length, ltb, if-holds, ◌>>=◌,
}
use libiak.Log.AsyncLogger.{
  AsyncLogger, LogBuffer, Phase, idle, swapped, joined, avail, append_current, append_to_buffer,
  swap_current, swap_buffers, refill, write_buffers, act, run,
}
use libiak.Log.AsyncLogger as Buffers
use libiak.Log.AsyncLogger.Order
use libiak.Log.AsyncLogger.Order.{stream, accepted, lines, Goes, act-Goes}
use libiak.Log.AsyncLogger.Rolls.{append_and_flush, act_on_files, run_on_files}
use libiak.Log.Rolling.{Logger}
use libiak.Log.Rolling.Writes.{Succeeds}
use libiak.Log.Rolling.Files.{all_bytes, IsSound}
use libiak.Log.AsyncLogger.Bytes.{HasBytes, append_and_flush-HasBytes}

-- If a step does not fault, these bytes were written.
abbrev Wrote : List ℕ → AsyncLogger → Option AsyncLogger → Type 0
Wrote xs s none = Unit
Wrote xs s (some s') = s'.written ≡ s.written ++ xs

module _ (size : ℕ) (line : List ℕ) (s : AsyncLogger) where
  append-Wrote : Wrote [] s (append_to_buffer size line s)
  unfolding append_to_buffer append_current
  append-Wrote = go s.current
    where
      go : (o : Option LogBuffer) → Wrote [] s (o >>= λ b. some (append_current size line b s))
      go none = tt
      go (some b) =
          if-holds (ltb (length line) (avail size b))
            (λ (s' : AsyncLogger). s'.written ≡ s.written ++ []) _ _ (sym (append-nil s.written))
            (sym (append-nil s.written))

swap-Wrote : (s : AsyncLogger) → Wrote [] s (swap_buffers s)
unfolding swap_buffers swap_current
swap-Wrote s = go s.current
  where
    same : (b : LogBuffer) → (swap_current b s).written ≡ s.written
    same b =
        if-holds (ltb 0 (length b)) (λ (s' : AsyncLogger). s'.written ≡ s.written) _ _ refl refl

    go : (o : Option LogBuffer) → Wrote [] s (o >>= λ b. some (Buffers.exchange (swap_current b s)))
    go none = tt
    go (some b) = same b ∙ sym (append-nil s.written)

-- The state that write_buffers ends in
abbrev written_out : AsyncLogger → LogBuffer → LogBuffer × List LogBuffer → AsyncLogger
written_out s b1 r = record s {
  written = s.written ++ joined s.to_write;
  buffer1 = some b1;
  buffer2 = some r.0;
  to_write = [];
  phase = idle;
}

write-Wrote : (s : AsyncLogger) → Wrote (joined s.to_write) s (write_buffers s)
unfolding write_buffers
write-Wrote s = go (refill s.buffer1 s.to_write)
  where
    second :
        (b1 : LogBuffer) (o : Option (LogBuffer × List LogBuffer))
        → Wrote (joined s.to_write) s (o >>= λ r. some (written_out s b1 r))
    second b1 none = tt
    second b1 (some r) = refl

    go :
        (o : Option (LogBuffer × List LogBuffer))
        → Wrote
            (joined s.to_write)
            s
            (o >>= λ r. refill s.buffer2 r.1 >>= λ r'. some (written_out s r.0 r'))
    go none = tt
    go (some r) = second r.0 (refill s.buffer2 r.1)

-- The bytes that are not yet in a file
abbrev pub unwritten : AsyncLogger → List ℕ
unwritten s = joined s.to_write ++ (joined s.buffers ++ Order.or_nothing s.current)

-- No fault; what was appended to files and what is not yet in one are these bytes, and all is sound.
pub data Filed (bytes : List ℕ) : Option (AsyncLogger × Logger) → Type 0 where
  filed :
      (s : AsyncLogger) (l : Logger)
      → all_bytes l ++ unwritten s ≡ bytes
      → Order.IsSound s
      → IsSound l
      → Filed bytes (some (s, l))

append-cancel : (xs ys zs : List ℕ) → xs ++ ys ≡ xs ++ zs → ys ≡ zs
append-cancel [] ys zs e = e
append-cancel (x ∷ xs) ys zs e = append-cancel xs ys zs (ap (drop 1) e)

-- A step of the buffers that writes `xs`, when these go to the files
step-Filed :
    (xs acc : List ℕ) (s s' : AsyncLogger) (l l' : Logger)
    → Wrote xs s (some s')
    → (stream s' ≡ stream s ++ acc) × Order.IsSound s'
    → HasBytes (all_bytes l ++ xs) l'
    → Filed ((all_bytes l ++ unwritten s) ++ acc) (some (s', l'))
step-Filed xs acc s s' l l' w (e, v) h =
    let moved : xs ++ unwritten s' ≡ unwritten s ++ acc =
      append-cancel s.written (xs ++ unwritten s') (unwritten s ++ acc) (
        sym (append_assoc s.written xs (unwritten s'))
        ∙ ap (λ ws. ws ++ unwritten s') (sym w)
        ∙ e
        ∙ append_assoc s.written (unwritten s) acc) in
    filed s' l'
      (ap (λ bs. bs ++ unwritten s') h.has
        ∙ append_assoc (all_bytes l) xs (unwritten s')
        ∙ ap (λ bs. all_bytes l ++ bs) moved
        ∙ sym (append_assoc (all_bytes l) (unwritten s) acc))
      v h.sound

module _ (roll_size : ℕ) (fwrite : ℕ → List ℕ → ℕ) (ok : Succeeds fwrite) (clocks : ℕ → ℕ → ℕ × ℕ)
    (size : ℕ) where
  pair-Filed :
      (xs acc : List ℕ) (s : AsyncLogger) (l l' : Logger) (o : Option AsyncLogger)
      → Wrote xs s o
      → HasBytes (all_bytes l ++ xs) l'
      → (a : Option (List ℕ)) → accepted size a ≡ acc
      → Goes size a s o
      → Filed ((all_bytes l ++ unwritten s) ++ acc) (o >>= λ s'. some (s', l'))
  pair-Filed xs acc s l l' none w h a e g = absurd g
  pair-Filed xs acc s l l' (some s') w h a e (same, v) =
      step-Filed xs acc s s' l l' w (same ∙ ap (λ ys. stream s ++ ys) e, v) h

  act_on_files-Filed :
      (n : ℕ) (a : Option (List ℕ)) (s : AsyncLogger) (l : Logger)
      → Order.IsSound s
      → IsSound l
      → Filed
          ((all_bytes l ++ unwritten s) ++ accepted size a)
          (act_on_files roll_size fwrite clocks size n a (s, l))
  unfolding act_on_files act
  act_on_files-Filed n (some line) s l v w =
      pair-Filed [] (accepted size (some line)) s l l (append_to_buffer size line s)
        (append-Wrote size line s) (record { has = sym (append-nil (all_bytes l)); sound = w })
        (some line) refl (act-Goes size (some line) s v)
  act_on_files-Filed n none s l v w = go s.phase (act-Goes size none s v)
    where
      go :
          (p : Phase)
          → Goes size none s (elim p [ idle ↦ swap_buffers s | swapped ↦ write_buffers s ])
          → Filed ((all_bytes l ++ unwritten s) ++ []) (
              elim p [ idle ↦ swap_buffers s | swapped ↦ write_buffers s ] >>= λ s'. some (
                s',
                elim p [
                  | idle ↦ l
                  | swapped ↦ append_and_flush roll_size fwrite (clocks n) s.to_write l
                ],
              ))
      go idle g =
          pair-Filed [] [] s l l (swap_buffers s) (swap-Wrote s)
            (record { has = sym (append-nil (all_bytes l)); sound = w }) none refl g
      go swapped g =
          pair-Filed (joined s.to_write) [] s l
            (append_and_flush roll_size fwrite (clocks n) s.to_write l) (write_buffers s)
            (write-Wrote s)
            (append_and_flush-HasBytes roll_size fwrite ok (clocks n) s.to_write (all_bytes l) l
              (record { has = refl; sound = w }))
            none refl g

  -- With fwrite() that does not fail, in any interleaving of threads that log with the writing thread, from sound
  -- buffers and LogFiles, nothing is read through a null pointer, and in the end the bytes that were appended
  -- through all LogFiles, the oldest first, and then those still in buffers, are those at the start and then the
  -- lines that were logged, in their order, less the lines that do not fit a buffer, whenever a new LogFile was
  -- begun; and each LogFile was opened in a later second than the one before.
  pub run_on_files-Filed :
      (n : ℕ) (acts : List (Option (List ℕ))) (s : AsyncLogger) (l : Logger)
      → Order.IsSound s
      → IsSound l
      → Filed
          ((all_bytes l ++ unwritten s) ++ lines size acts)
          (run_on_files roll_size fwrite clocks size n acts (s, l))
  unfolding run_on_files
  run_on_files-Filed n [] s l v w = filed s l (sym (append-nil (all_bytes l ++ unwritten s))) v w
  run_on_files-Filed n (a ∷ acts) s l v w =
      go (act_on_files roll_size fwrite clocks size n a (s, l)) (act_on_files-Filed n a s l v w)
        (λ s' l' v' w'. run_on_files-Filed (suc n) acts s' l' v' w')
    where
      go :
          (o : Option (AsyncLogger × Logger))
          → Filed ((all_bytes l ++ unwritten s) ++ accepted size a) o
          → ((s' : AsyncLogger) (l' : Logger)
              → Order.IsSound s'
              → IsSound l'
              → Filed
                  ((all_bytes l' ++ unwritten s') ++ lines size acts)
                  (run_on_files roll_size fwrite clocks size (suc n) acts (s', l')))
          → Filed
              ((all_bytes l ++ unwritten s) ++ (accepted size a ++ lines size acts))
              (o >>= run_on_files roll_size fwrite clocks size (suc n) acts)
      go o f next =
          elim f
            as (λ o f.
              Filed ((all_bytes l ++ unwritten s) ++ (accepted size a ++ lines size acts))
                (o >>= run_on_files roll_size fwrite clocks size (suc n) acts)) [
                  | filed s' l' e v' w' ↦
                      subst
                        (λ bs.
                          Filed bs
                            (run_on_files roll_size fwrite clocks size (suc n) acts (s', l')))
                        (ap (λ bs. bs ++ lines size acts) e
                          ∙ append_assoc (all_bytes l ++ unwritten s) (accepted size a)
                              (lines size acts))
                        (next s' l' v' w')
                ]
