-- ===== src/Log/Rolling/Files.antt =====
-- What is appended to the files of a log, over Logger::append_unlocked and Logger::rollFile.
use libiak.Prelude.{
  ℕ, ◌+◌, ◌-◌, ◌≤◌, ◌<◌, ◌≡◌, refl, sym, ◌∙◌, false, not, ◌&&◌, List, [], ◌∷◌, ◌++◌, length, ltb,
  ◌==◌, if-cases, if-holds, arith, append-nil, append_assoc, length-append, ltb→lt, lt→ltb,
}
use libiak.Log.Rolling.{
  LogFile, Logger, open_file, flush, period, check_time_roll, roll_file, after_append,
  append_unlocked, append_file,
}
use libiak.Log.Rolling.Writes.{Succeeds, append_file_lem}

-- The bytes that were appended through the LogFiles, the oldest first.
abbrev pub older_bytes : List LogFile → List ℕ
older_bytes [] = []
older_bytes (f ∷ fs) = older_bytes fs ++ f.appended

abbrev pub all_bytes : Logger → List ℕ
all_bytes l = older_bytes l.older ++ l.file.appended

-- Each file was opened in a later second than the one before.
abbrev pub Descends : ℕ → List LogFile → Type 0
Descends now [] = Unit {0}
Descends now (f ∷ fs) = (f.opened < now) × Descends f.opened fs

pub record IsSound (l : Logger) : Type 0 where
  pub opened : l.file.opened ≡ l.last_roll
  pub ordered : Descends l.last_roll l.older
  pub counted : l.file.written_bytes ≡ length l.file.appended

-- A step keeps the bytes and the soundness of the files.
pub record Keeps (l l' : Logger) : Type 0 where
  pub bytes : all_bytes l' ≡ all_bytes l
  pub sound : IsSound l'

pub roll_file-Keeps : (now : ℕ) (l : Logger) → IsSound l → Keeps l (roll_file now l)
unfolding roll_file open_file
roll_file-Keeps now l v =
    if-cases (ltb l.last_roll now) (λ l'. Keeps l l') _ _
      (λ e. record {
        bytes = append-nil (older_bytes l.older ++ l.file.appended);
        sound = record {
          opened = refl;
          ordered = (rw v.opened (ltb→lt _ _ e), rw v.opened v.ordered);
          counted = refl;
        };
      })
      (λ e. record { bytes = refl; sound = v })

module _ (fwrite : ℕ → List ℕ → ℕ) (roll_size flush_interval : ℕ) where
  after_append-Keeps :
      (now later : ℕ) (l : Logger)
      → IsSound l
      → Keeps l (after_append fwrite roll_size flush_interval now later l)
  unfolding after_append flush
  after_append-Keeps now later l v =
      let counted : IsSound (record l { count = 0 }) = record {
        opened = v.opened;
        ordered = v.ordered;
        counted = v.counted;
      } in
      let rolled = roll_file-Keeps later (record l { count = 0 }) counted in
      if-cases (ltb 0 roll_size && ltb roll_size l.file.written_bytes) (λ l'. Keeps l l') _ _
        (λ e. roll_file-Keeps later l v)
        (λ e.
          if-cases (ltb check_time_roll l.count) (λ l'. Keeps l l') _ _
            (λ often.
              if-cases (not (period now == l.start_of_period)) (λ l'. Keeps l l') _ _
                (λ day. record { bytes = rolled.bytes; sound = rolled.sound })
                (λ day.
                  if-cases (ltb flush_interval (now - l.last_flush)) (λ l'. Keeps l l') _ _
                    (λ wait. record {
                      bytes = refl;
                      sound = record {
                        opened = v.opened;
                        ordered = v.ordered;
                        counted = v.counted;
                      };
                    })
                    (λ wait. record { bytes = refl; sound = counted })))
            (λ often. record {
              bytes = refl;
              sound = record { opened = v.opened; ordered = v.ordered; counted = v.counted };
            }))

  module _ (ok : Succeeds fwrite) where
    -- With fwrite() that does not fail, Logger::append_unlocked on sound LogFiles, whether it goes on to
    -- a new one or not, adds the line to the bytes that were appended through all of them, the oldest
    -- first, behind these bytes, and leaves the LogFiles sound: each was opened in a later second than
    -- the one before, and the last counts the bytes that were appended through it.
    pub append_unlocked_lem :
        (now later : ℕ) (line : List ℕ) (l : Logger)
        → IsSound l
        → (all_bytes (append_unlocked fwrite roll_size flush_interval now later line l)
            ≡ all_bytes l ++ line)
          × IsSound (append_unlocked fwrite roll_size flush_interval now later line l)
    unfolding append_unlocked
    append_unlocked_lem now later line l v =
        let written : LogFile = record l.file {
          appended = l.file.appended ++ line;
          written_bytes = l.file.written_bytes + length line;
        } in
        let k =
          after_append-Keeps now later (record l { file = written })
            (record {
              opened = v.opened;
              ordered = v.ordered;
              counted = omega (arith, v.counted, length-append l.file.appended line);
            }) in
        rw (append_file_lem fwrite ok line l.file)
          (k.bytes ∙ sym (append_assoc (older_bytes l.older) l.file.appended line), k.sound)

module _ (size : ℕ) where
  -- A file that is within the size stays so, or a new one follows.
  roll_file-within :
      (now : ℕ) (l : Logger)
      → l.file.written_bytes ≤ size
      → (roll_file now l).file.written_bytes ≤ size
  unfolding roll_file open_file
  roll_file-within now l h =
      if-cases (ltb l.last_roll now) (λ (l' : Logger). l'.file.written_bytes ≤ size) _ _
        (λ e. omega arith) (λ e. h)

  roll_file-fresh :
      (now : ℕ) (l : Logger) → l.last_roll < now → (roll_file now l).file.written_bytes ≤ size
  unfolding roll_file open_file
  roll_file-fresh now l h = rw (lt→ltb _ _ h) (omega arith)

not_full : (size n : ℕ) → 0 < size → ltb 0 size && ltb size n ≡ false → n ≤ size
not_full size n h e = ground arith

module _ (fwrite : ℕ → List ℕ → ℕ) (roll_size flush_interval : ℕ) where
  after_append-within :
      (now later : ℕ) (l : Logger)
      → 0 < roll_size
      → l.last_roll < later
      → (after_append fwrite roll_size flush_interval now later l).file.written_bytes ≤ roll_size
  unfolding after_append flush
  after_append-within now later l positive h =
      let P : Logger → Type 0 = λ l'. l'.file.written_bytes ≤ roll_size in
      if-cases (ltb 0 roll_size && ltb roll_size l.file.written_bytes) P _ _
        (λ e. roll_file-fresh roll_size later l h)
        (λ e.
          let w = not_full roll_size l.file.written_bytes positive e in
          if-cases (ltb check_time_roll l.count) P _ _
            (λ often.
              if-cases (not (period now == l.start_of_period)) P _ _
                (λ day. roll_file-within roll_size later (record l { count = 0 }) w)
                (λ day. if-holds (ltb flush_interval (now - l.last_flush)) P _ _ w w))
            (λ often. w))

  -- After a line is appended in a later second than the file was opened in, the file that is now
  -- written to has at most `roll_size` bytes, `roll_size` not being 0; whatever fwrite() does.
  pub append_unlocked-within :
      (now later : ℕ) (line : List ℕ) (l : Logger)
      → 0 < roll_size
      → l.last_roll < later
      → (append_unlocked fwrite roll_size flush_interval now later line l).file.written_bytes
        ≤ roll_size
  unfolding append_unlocked
  append_unlocked-within now later line l positive h =
      after_append-within now later (record l { file = append_file fwrite line l.file }) positive h
