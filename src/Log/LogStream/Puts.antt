-- ===== src/Log/LogStream/Puts.antt =====
-- What `<<` does to the buffer: it appends the whole text of an item, or nothing.
use mathlib.Core.Path.{subst}
use libiak.Prelude.{
  ℕ, ◌+◌, ◌^◌, ◌≤◌, ◌<◌, ◌≡◌, ◌⊎◌, inl, inr, refl, sym, ap, ◌∙◌, List, [], ◌∷◌, ◌++◌, length, ltb,
  leb, ltb→lt, ltb→le, if◌then◌else◌, if-cases, arith, abs, append-nil, append_assoc, length-append,
}
use libiak.Log.LogStream.{
  LogStream, Item, integer, double, character, string, format, bool, pointer, buffer_size,
  max_numeric_size, avail, append, format_integer, convert, convert_hex, put, put_all,
}
use libiak.Log.LogStream.Decimal.{length-convert}
use libiak.Log.LogStream.Hex.{length-convert_hex}

module _ {ℓ} {D : Type ℓ} (print_double : D → List ℕ) where
  -- The text of an item.
  abbrev pub text_of : Item D → List ℕ
  text_of (integer v) = convert v
  text_of (double v) = print_double v
  text_of (character c) = c ∷ []
  text_of (string text) = text
  text_of (format text) = text
  text_of (bool b) = (if b then b'1' else b'0') ∷ []
  text_of (pointer v) = b'0' ∷ b'x' ∷ convert_hex v

  abbrev pub texts_of : List (Item D) → List ℕ
  texts_of [] = []
  texts_of (x ∷ xs) = text_of x ++ texts_of xs

  -- Integers and pointers have 64 bits, and snprintf was given 32 bytes that suffice.
  abbrev pub IsPrintable : Item D → Type 0
  IsPrintable (integer v) = abs v < 2 ^ 64
  IsPrintable (double v) = length (print_double v) < max_numeric_size
  IsPrintable (character c) = Unit {0}
  IsPrintable (string text) = Unit {0}
  IsPrintable (format text) = Unit {0}
  IsPrintable (bool b) = Unit {0}
  IsPrintable (pointer v) = v < 2 ^ 64

  abbrev pub ArePrintable : List (Item D) → Type 0
  ArePrintable [] = Unit {0}
  ArePrintable (x ∷ xs) = IsPrintable x × ArePrintable xs

  -- The text is appended and leaves a byte free (for the 0 behind a number), or nothing changes,
  -- which happens only where fewer than 32 bytes would be left.
  abbrev pub Puts : List ℕ → LogStream → LogStream → Type 0
  Puts text s s' =
      (s'.bytes ≡ s.bytes ++ text) × (length s.bytes + length text < buffer_size)
      ⊎ (s' ≡ s) × (buffer_size < length s.bytes + length text + max_numeric_size)

  append-Puts : (text : List ℕ) (s : LogStream) → Puts text s (append text s)
  unfolding append
  append-Puts text s =
      if-cases (ltb (length text) (avail s)) (Puts text s) _ _
        (λ e. inl (refl, omega (arith, ltb→lt _ _ e)))
        (λ e. inr (refl, omega (arith, ltb→le _ _ e)))

  number-Puts :
      (text : List ℕ) (s : LogStream)
      → length text < max_numeric_size
      → Puts text s
          (if leb max_numeric_size (avail s) then record { bytes = s.bytes ++ text } else s)
  number-Puts text s short =
      if-cases (leb max_numeric_size (avail s)) (Puts text s) _ _ (λ e. inl (refl, ground arith))
        (λ e. inr (refl, ground arith))

  put-Puts :
      (x : Item D) (s : LogStream) → IsPrintable x → Puts (text_of x) s (put print_double x s)
  unfolding put format_integer
  put-Puts (integer v) s h =
      number-Puts (convert v) s (omega (arith, length-convert 19 v (omega arith)))
  put-Puts (double v) s h = number-Puts (print_double v) s h
  put-Puts (character c) s h = append-Puts (c ∷ []) s
  put-Puts (string text) s h = append-Puts text s
  put-Puts (format text) s h = append-Puts text s
  put-Puts (bool b) s h = append-Puts ((if b then b'1' else b'0') ∷ []) s
  put-Puts (pointer v) s h =
      number-Puts (b'0' ∷ b'x' ∷ convert_hex v) s
        (omega (arith, length-convert_hex 15 v (omega arith)))

  put_all-bounded :
      (xs : List (Item D)) (s : LogStream)
      → ArePrintable xs
      → length s.bytes ≤ buffer_size
      → length (put_all print_double xs s).bytes ≤ buffer_size
  unfolding put_all
  put_all-bounded [] s h b = b
  put_all-bounded (x ∷ xs) s h b =
      put_all-bounded xs (put print_double x s) h.1 (elim (put-Puts x s h.0) [
        | inl done ↦ omega (arith, ap length done.0, length-append s.bytes (text_of x))
        | inr full ↦ rw full.0 b
      ])

  -- Bytes `old`, behind which items are put one after another, become `new`: the whole text of an item
  -- that leaves a byte free is there, in its place; an item is left out as a whole, and only where fewer
  -- than 32 bytes would be free behind it.
  abbrev pub Fits : List ℕ → List (Item D) → List ℕ → Type 0
  Fits old [] new = new ≡ old
  Fits old (x ∷ xs) new =
      (length old + length (text_of x) < buffer_size) × Fits (old ++ text_of x) xs new
      ⊎ (buffer_size < length old + length (text_of x) + max_numeric_size) × Fits old xs new

  whole :
      (xs : List (Item D)) (s : LogStream)
      → ArePrintable xs
      → Fits s.bytes xs (put_all print_double xs s).bytes
  unfolding put_all
  whole [] s h = refl
  whole (x ∷ xs) s h =
      let s' = put print_double x s in
      let rest = whole xs s' h.1 in
      let P : List ℕ → Type 0 = λ old. Fits old xs (put_all print_double xs s').bytes in
      elim (put-Puts x s h.0) [
        | inl (done, room) ↦ inl (room, subst P done rest)
        | inr (same, full) ↦ inr (full, subst P (ap (λ (r : LogStream). r.bytes) same) rest)
      ]

  -- Items are put into a buffer that holds at most its 4096 bytes, integers and pointers of 64 bits and
  -- doubles whose text is shorter than 32 characters: the buffer never holds more than 4096 bytes; each
  -- item is there with its whole text, in its order, or left out as a whole, which happens only where
  -- fewer than 32 bytes would be free behind it; and nothing else is there than was there before.
  pub put_all-Fits :
      (xs : List (Item D)) (s : LogStream)
      → ArePrintable xs
      → length s.bytes ≤ buffer_size
      → (length (put_all print_double xs s).bytes ≤ buffer_size)
        × Fits s.bytes xs (put_all print_double xs s).bytes
  put_all-Fits xs s h b = (put_all-bounded xs s h b, whole xs s h)

  -- Where 32 bytes would still be free behind them all, items put into the buffer one after another
  -- leave exactly their texts there, in their order, behind what it held.
  pub put_all-texts :
      (xs : List (Item D)) (s : LogStream)
      → ArePrintable xs
      → length s.bytes + length (texts_of xs) + max_numeric_size ≤ buffer_size
      → (put_all print_double xs s).bytes ≡ s.bytes ++ texts_of xs
  unfolding put_all
  put_all-texts [] s h b = sym (append-nil s.bytes)
  put_all-texts (x ∷ xs) s h b =
      let both = length-append (text_of x) (texts_of xs) in
      elim (put-Puts x s h.0) [
        | inl (done, room) ↦
            put_all-texts xs (put print_double x s) h.1
              (omega (arith, both, ap length done, length-append s.bytes (text_of x)))
            ∙ ap (λ bytes. bytes ++ texts_of xs) done
            ∙ append_assoc s.bytes (text_of x) (texts_of xs)
        | inr (same, full) ↦ absurd (omega (arith, both))
      ]
