-- ===== src/Base/FileUtil/Whole.antt =====
-- What is read is a prefix of the file, and all that was asked for unless a read fails.
use mathlib.Core.Path.{subst}
use libiak.Prelude.{
  ℕ, zero, suc, ◌-◌, ◌≤◌, ◌<◌, min, ◌≡◌, refl, sym, ap, ◌∙◌, true, false, List, [], ◌∷◌, ◌++◌,
  append-nil, append_assoc, Option, none, some, length, take, length-append, take_all,
  take-append_ge, if-cases, ltb, ltb→lt, ltb→le, arith, ◌>>=◌, ℤ, pos, negsuc, is_negative,
}
use libiak.Base.FileUtil.{
  new_reader, close_reader, Reading, got, failed, buffer_size, append_read, read_loop,
  read_to_string, read_file,
}

module _ (F : Type 0) (read : ℕ → F → Reading × F) (rest : F → List ℕ) where
  -- What read() does, asked for `n` bytes of a file of which these are left: it gives up to `n` of the next
  -- ones, and no byte only at the end of the file; or it fails and the file stays where it is.
  pub data IsReading (n : ℕ) (bytes : List ℕ) : Reading × F → Type 0 where
    is_got :
        (b : ℕ) (bs : List ℕ) (f : F)
        → length (b ∷ bs) ≤ n
        → (b ∷ bs) ++ rest f ≡ bytes
        → IsReading n bytes (got (b ∷ bs), f)
    is_end : (f : F) → rest f ≡ bytes → bytes ≡ [] → IsReading n bytes (got [], f)
    is_failed : (e : ℕ) (f : F) → rest f ≡ bytes → IsReading n bytes (failed e, f)

  abbrev pub IsFile : Type 0
  IsFile = (n : ℕ) (f : F) → 0 < n → IsReading n (rest f) (read n f)

  -- The bytes `xs` were read behind the content, and the rest is still in the file: the string has `size`
  -- bytes or the file is at its end and `err` is returned, or a read failed.
  pub data Reads (err size : ℕ) (content bytes : List ℕ) : Option (List ℕ × ℕ × F) → Type 0 where
    whole :
        (xs : List ℕ) (f : F)
        → xs ++ rest f ≡ bytes
        → xs ≡ take (size - length content) bytes
        → Reads err size content bytes (some (content ++ xs, err, f))
    cut :
        (xs : List ℕ) (e : ℕ) (f : F) (n : ℕ) (g : F)
        → read n g ≡ (failed e, f)
        → xs ++ rest f ≡ bytes
        → length xs < size - length content
        → Reads err size content bytes (some (content ++ xs, e, f))

  take-more :
      (n : ℕ) (ys xs bytes' bytes : List ℕ)
      → ys ++ bytes' ≡ bytes
      → length ys ≤ n
      → xs ≡ take (n - length ys) bytes'
      → ys ++ xs ≡ take n bytes
  take-more n ys xs bytes' bytes e h k = rw (← e, k) (sym (take-append_ge n ys bytes' h))

  -- Bytes that were read before come first.
  Reads-append :
      (err size : ℕ) (content ys bytes' bytes : List ℕ) (o : Option (List ℕ × ℕ × F))
      → ys ++ bytes' ≡ bytes
      → length ys ≤ size - length content
      → Reads err size (content ++ ys) bytes' o
      → Reads err size content bytes o
  Reads-append err size content ys bytes' bytes o e h r =
      let left : size - length (content ++ ys) ≡ size - length content - length ys =
        omega (arith, length-append content ys) in
      elim r as (λ o r. Reads err size content bytes o) [
        | whole xs f e' k ↦
            subst (λ zs. Reads err size content bytes (some (zs, err, f)))
              (sym (append_assoc content ys xs))
              (whole (ys ++ xs) f (append_assoc ys xs (rest f) ∙ ap (◌++◌ ys) e' ∙ e) (
                take-more (size - length content) ys xs bytes' bytes e h
                  (k ∙ ap (λ n. take n bytes') left)))
        | cut xs e'' f n g fails e' k ↦
            subst (λ zs. Reads err size content bytes (some (zs, e'', f)))
              (sym (append_assoc content ys xs))
              (cut (ys ++ xs) e'' f n g fails (append_assoc ys xs (rest f) ∙ ap (◌++◌ ys) e' ∙ e)
                (omega (arith, length-append ys xs, length-append content ys, k)))
      ]

  -- One turn of the loop, whatever `next` does when it goes round again
  append_read-Reads :
      (err size n : ℕ) (content : List ℕ) (next : List ℕ → F → Option (List ℕ × ℕ × F)) (f : F)
      → n ≤ size - length content
      → IsReading n (rest f) (read n f)
      → ((b : ℕ) (bs : List ℕ) (g : F)
          → length (b ∷ bs) ≤ n
          → Reads err size (content ++ b ∷ bs) (rest g) (next (content ++ b ∷ bs) g))
      → 0 < n
      → Reads err size content (rest f) (append_read F read err content next (read n f))
  append_read-Reads err size n content next f h r again pos_n =
      (elim r
          as (λ x r.
            read n f ≡ x
            → Reads err size content (rest f) (append_read F read err content next x)) [
              | is_got b bs g le same ↦ λ e.
                  Reads-append err size content (b ∷ bs) (rest g) (rest f)
                    (next (content ++ b ∷ bs) g) same (omega (arith, le, h)) (again b bs g le)
              | is_end g same none_left ↦ λ e.
                  subst (λ zs. Reads err size content (rest f) (some (zs, err, g)))
                    (append-nil content)
                    (whole [] g same
                      (rw none_left (sym (take_all (size - length content) [] (omega arith)))))
              | is_failed er g same ↦ λ e.
                  subst (λ zs. Reads err size content (rest f) (some (zs, er, g)))
                    (append-nil content) (cut [] er g n f e same (omega (arith, h, pos_n)))
            ])
        refl

  read_loop-Reads :
      IsFile
      → (n err size : ℕ) (content : List ℕ) (f : F) → size - length content < n
      → Reads err size content (rest f) (read_loop F read n err size content f)
  unfolding read_loop
  read_loop-Reads file zero err size content f h = absurd (omega arith)
  read_loop-Reads file (suc n) err size content f h =
      if-cases (ltb (length content) size) (Reads err size content (rest f)) _ _
        (λ e.
          let lt = ltb→lt _ _ e in
          let some_room : 0 < min (size - length content) buffer_size = omega (arith, lt) in
          append_read-Reads err size (min (size - length content) buffer_size) content
            (read_loop F read n err size) f (omega arith) (file _ f some_room)
            (λ b bs g le.
              read_loop-Reads file n err size (content ++ b ∷ bs) g
                (omega (arith, h, lt, length-append content (b ∷ bs))))
            some_room)
        (λ e.
          subst (λ zs. Reads err size content (rest f) (some (zs, err, f))) (append-nil content)
            (whole [] f refl (full (ltb→le _ _ e))))
    where
      full : size ≤ length content → [] ≡ take (size - length content) (rest f)
      full le =
          let none_left : 0 ≡ size - length content = omega (arith, le) in
          ap (λ k. take k (rest f)) none_left

  -- readFile with the descriptors it closes: open() failed and nothing happens, or the file is read and its
  -- descriptor closed.
  pub data ReadsFile (fd : ℤ) (errno size : ℕ) (content : List ℕ) (f : F)
      : Option ((List ℕ × ℕ × F) × List ℤ) → Type 0 where
    not_opened :
        is_negative fd ≡ true → ReadsFile fd errno size content f (some ((content, errno, f), []))
    opened :
        (r : List ℕ × ℕ × F)
        → is_negative fd ≡ false
        → Reads 0 size content (rest f) (some r)
        → ReadsFile fd errno size content f (some (r, fd ∷ []))

  -- readFile always ends. If open() fails, the string is left alone, the errno is returned and nothing is
  -- closed. Else, whatever portions the reads give: what is appended to the string is the beginning of the
  -- file, the rest is still to be read, and the descriptor is closed; the string then has `size` bytes, or was
  -- longer, or the file is at its end, and 0 is returned, or a read failed, and its errno is returned.
  pub read_file-ReadsFile :
      IsFile
      → (fd : ℤ) (errno size : ℕ) (content : List ℕ) (f : F)
      → ReadsFile fd errno size content f (read_file F read fd errno content size f)
  unfolding read_file read_to_string new_reader close_reader
  read_file-ReadsFile file (negsuc n) errno size content f = not_opened refl
  read_file-ReadsFile file (pos n) errno size content f =
      go (read_loop F read (suc (size - length content)) 0 size content f)
        (read_loop-Reads file _ 0 size content f (omega arith))
    where
      go :
          (o : Option (List ℕ × ℕ × F))
          → Reads 0 size content (rest f) o
          → ReadsFile (pos n) errno size content f (o >>= (λ r. some (r, pos n ∷ [])))
      go none r = elim r [ ]
      go (some x) r = opened x refl r
