-- ===== src/Log/AsyncLogger/Bytes.antt =====
-- The bytes appended to the files of an asynchronous log.
use libiak.Prelude.{
  ℕ, suc, ◌+◌, ◌≡◌, refl, sym, ap, ◌∙◌, not, List, [], ◌∷◌, ◌++◌, append-nil, append_assoc, length,
  length-append, ltb, ◌==◌, if-holds, arith,
}
use libiak.Log.AsyncLogger.{joined}
use libiak.Log.AsyncLogger.Rolls.{roll_after, append_buffer, append_each, append_and_flush}
use libiak.Log.Rolling.{LogFile, Logger, flush, period, check_time_roll, roll_file}
use libiak.Log.Rolling.Writes.{Succeeds, append_file_lem}
use libiak.Log.Rolling.Files.{all_bytes, older_bytes, IsSound, Keeps, roll_file-Keeps}

roll_after-Keeps :
    (roll_size now later : ℕ) (l : Logger) → IsSound l → Keeps l (roll_after roll_size now later l)
unfolding roll_after
roll_after-Keeps roll_size now later l v =
    let counted : IsSound (record l { count = 0 }) = record {
      opened = v.opened;
      ordered = v.ordered;
      counted = v.counted;
    } in
    let more : IsSound (record l { count = suc l.count }) = record {
      opened = v.opened;
      ordered = v.ordered;
      counted = v.counted;
    } in
    let k = roll_file-Keeps later (record l { count = 0 }) counted in
    let rolled : Keeps l (roll_file later (record l { count = 0 })) = record {
      bytes = k.bytes;
      sound = k.sound;
    } in
    if-holds (ltb roll_size l.file.written_bytes) (Keeps l) _ _ rolled (
      if-holds (ltb check_time_roll l.count) (Keeps l) _ _
        (if-holds (not (period now == l.start_of_period)) (Keeps l) _ _ rolled
          (record { bytes = refl; sound = counted }))
        (record { bytes = refl; sound = more }))

-- A log through whose LogFiles these bytes were appended
pub record HasBytes (bytes : List ℕ) (l : Logger) : Type 0 where
  pub has : all_bytes l ≡ bytes
  pub sound : IsSound l

module _ (roll_size : ℕ) (fwrite : ℕ → List ℕ → ℕ) (ok : Succeeds fwrite) where
  append_buffer-HasBytes :
      (times : ℕ × ℕ) (line bytes : List ℕ) (l : Logger)
      → HasBytes bytes l
      → HasBytes (bytes ++ line) (append_buffer roll_size fwrite times line l)
  unfolding append_buffer
  append_buffer-HasBytes (now, later) line bytes l v =
      let written : LogFile = record l.file {
        appended = l.file.appended ++ line;
        written_bytes = l.file.written_bytes + length line;
      } in
      let k =
        roll_after-Keeps roll_size now later (record l { file = written })
          (record {
            opened = v.sound.opened;
            ordered = v.sound.ordered;
            counted = omega (arith, v.sound.counted, length-append l.file.appended line);
          }) in
      rw (append_file_lem fwrite ok line l.file) (record {
        has =
            k.bytes
            ∙ sym (append_assoc (older_bytes l.older) l.file.appended line)
            ∙ ap (λ xs. xs ++ line) v.has;
        sound = k.sound;
      })

  append_each-HasBytes :
      (clock : ℕ → ℕ × ℕ) (n : ℕ) (bs : List (List ℕ)) (bytes : List ℕ) (l : Logger)
      → HasBytes bytes l
      → HasBytes (bytes ++ joined bs) (append_each roll_size fwrite clock n bs l)
  unfolding append_each
  append_each-HasBytes clock n [] bytes l v = rw (append-nil bytes) v
  append_each-HasBytes clock n (b ∷ bs) bytes l v = rw (← append_assoc bytes b (joined bs)) (
      append_each-HasBytes clock (suc n) bs (bytes ++ b)
        (append_buffer roll_size fwrite (clock n) b l)
        (append_buffer-HasBytes (clock n) b bytes l v))

  pub append_and_flush-HasBytes :
      (clock : ℕ → ℕ × ℕ) (bs : List (List ℕ)) (bytes : List ℕ) (l : Logger)
      → HasBytes bytes l
      → HasBytes (bytes ++ joined bs) (append_and_flush roll_size fwrite clock bs l)
  unfolding append_and_flush flush
  append_and_flush-HasBytes clock bs bytes l v =
      let k = append_each-HasBytes clock 0 bs bytes l v in
      record {
        has = k.has;
        sound = record {
          opened = k.sound.opened;
          ordered = k.sound.ordered;
          counted = k.sound.counted;
        };
      }
