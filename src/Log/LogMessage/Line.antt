-- ===== src/Log/LogMessage/Line.antt =====
-- The text of a whole log line.
use libiak.Prelude.{
  ℕ, ◌+◌, ◌^◌, ◌≤◌, ◌<◌, ◌≡◌, ◌⊎◌, inr, refl, sym, ap, ◌∙◌, Bool, List, [], ◌∷◌, ◌++◌, length, ◌==◌,
  if-cases, arith, ==→eq, ℤ, abs, codes, append_assoc,
}
use libiak.Log.LogStream.{
  LogStream, new_stream, Item, put_all, convert, buffer_size, max_numeric_size,
}
use libiak.Log.LogStream.Puts.{ArePrintable, text_of, texts_of, put_all-texts}
use libiak.Log.LogMessage.{
  LogLevel, level_name, TimeCache, refresh, base_name, heading, ending, new_message, put_into,
  finish,
}

-- The time of a thread is that of its second, or none was taken yet.
abbrev pub IsCurrent : (ℕ → List ℕ) → TimeCache → Type 0
IsCurrent local_time c = (c.last_second ≡ 0) ⊎ (c.time ≡ local_time c.last_second)

refresh-time :
    (local_time : ℕ → List ℕ) (seconds : ℕ) (c : TimeCache)
    → 0 < seconds
    → IsCurrent local_time c
    → ((refresh local_time seconds c).time ≡ local_time seconds)
      × IsCurrent local_time (refresh local_time seconds c)
unfolding refresh
refresh-time local_time seconds c h v =
    if-cases (seconds == c.last_second)
      (λ (r : TimeCache). (r.time ≡ local_time seconds) × IsCurrent local_time r) _ _
      (λ e. let same = ==→eq _ _ e in (ground (arith, same, ap local_time same), v))
      (λ e. (refl, inr refl))

module _ {ℓ} {D : Type ℓ} (print_double : D → List ℕ) (local_time print_us : ℕ → List ℕ) where
  put_all-append :
      (xs ys : List (Item D)) (s : LogStream)
      → put_all print_double (xs ++ ys) s ≡ put_all print_double ys (put_all print_double xs s)
  unfolding put_all
  put_all-append [] ys s = refl
  put_all-append (x ∷ xs) ys s = put_all-append xs ys _

  ArePrintable-append :
      (xs ys : List (Item D))
      → ArePrintable print_double xs
      → ArePrintable print_double ys
      → ArePrintable print_double (xs ++ ys)
  ArePrintable-append [] ys h k = k
  ArePrintable-append (x ∷ xs) ys h k = (h.0, ArePrintable-append xs ys h.1 k)

  texts_of-append :
      (xs ys : List (Item D))
      → texts_of print_double (xs ++ ys) ≡ texts_of print_double xs ++ texts_of print_double ys
  texts_of-append [] ys = refl
  texts_of-append (x ∷ xs) ys =
      ap (λ text. text_of print_double x ++ text) (texts_of-append xs ys)
      ∙ sym (
          append_assoc (text_of print_double x) (texts_of print_double xs)
            (texts_of print_double ys))

  -- The text of a line: the time of its second, the microseconds, the level, what the user put, the
  -- file's base name and the line number.
  abbrev pub line_text : List ℕ → ℤ → LogLevel → ℕ → ℕ → List (Item D) → List ℕ
  line_text filename line level seconds us user =
      local_time seconds
      ++ (print_us us
          ++ (level_name level
              ++ (texts_of print_double user
                  ++ (codes " - " ++ (base_name filename ++ b':' ∷ (convert line ++ b'\n' ∷ []))))))

  -- A line that DLogMessage writes after the Epoch, from a thread whose time is current or was not
  -- taken yet, is exactly the time, the microseconds, the level, the texts of the items put into it,
  -- and its place in the source, if 32 bytes of the buffer would be left free; and the time stays
  -- current.
  pub finish-line_text :
      (has_logger : Bool) (filename : List ℕ) (line : ℤ) (level : LogLevel) (seconds us : ℕ)
      (c : TimeCache) (user : List (Item D))
      → 0 < seconds
      → IsCurrent local_time c
      → ArePrintable print_double user
      → abs line < 2 ^ 64
      → length (line_text filename line level seconds us user) + max_numeric_size ≤ buffer_size
      → let (m, c') =
          new_message print_double local_time print_us filename line level seconds us c in
        ((finish print_double local_time print_us has_logger
            (put_into print_double local_time print_us user m)).text
          ≡ line_text filename line level seconds us user)
        × IsCurrent local_time c'
  unfolding new_message finish
  finish-line_text has_logger filename line level seconds us c user h v k w room =
      let (time, current) = refresh-time local_time seconds c h v in
      let c' : TimeCache = refresh local_time seconds c in
      let start = heading print_double local_time print_us level us c' in
      let last = ending print_double local_time print_us filename line in
      let together =
        put_all-append start (user ++ last) new_stream
        ∙ put_all-append user last (put_all print_double start new_stream) in
      let text : texts_of print_double (start ++ (user ++ last))
          ≡ line_text filename line level seconds us user =
        rw (time, texts_of-append user last) refl in
      let printable = ArePrintable-append user last k (tt, (tt, (tt, (w, (tt, tt))))) in
      (
        ap (λ (s : LogStream). s.bytes) (sym together)
            ∙ put_all-texts print_double (start ++ (user ++ last)) new_stream
                (tt, (tt, (tt, printable))) (omega (arith, ap length text, room))
            ∙ text,
        current,
      )
