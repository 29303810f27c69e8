-- ===== src/Log/Rolling/Writes.antt =====
-- LogFile::append against fwrite() that takes a part of the bytes at each call.
use libiak.Prelude.{
  ℕ, zero, suc, ◌+◌, ◌≤◌, ◌<◌, ◌≡◌, refl, List, [], ◌∷◌, ◌++◌, length, drop, ◌==◌, if-cases, arith,
  ==→eq, length-drop, take-append-drop,
}
use libiak.Log.Rolling.{LogFile, write_rest, append_file}

-- What fwrite() does where it does not fail: it takes at least a byte, and no more than there are.
abbrev pub Succeeds : (ℕ → List ℕ → ℕ) → Type 0
Succeeds fwrite =
    (n : ℕ) (line : List ℕ) → 0 < length line → (0 < fwrite n line) × (fwrite n line ≤ length line)

module _ (fwrite : ℕ → List ℕ → ℕ) (ok : Succeeds fwrite) where
  -- The loop writes what remains, if it has as many rounds as there are bytes.
  write_rest_lem :
      (fuel n : ℕ) (line : List ℕ) → length line ≤ fuel → write_rest fwrite fuel n line ≡ line
  unfolding write_rest
  write_rest_lem zero n [] h = refl
  write_rest_lem zero n (b ∷ line) h = absurd (omega arith)
  write_rest_lem (suc fuel) n [] h = refl
  write_rest_lem (suc fuel) n (b ∷ line) h =
      let (some_bytes, no_more) = ok n (b ∷ line) (omega arith) in
      let later =
        write_rest_lem fuel (suc n) (drop (fwrite n (b ∷ line)) (b ∷ line))
          (omega (arith, length-drop (fwrite n (b ∷ line)) (b ∷ line))) in
      if-cases (fwrite n (b ∷ line) == 0) (λ (r : List ℕ). r ≡ b ∷ line) _ _
        (λ e. absurd (omega (arith, ==→eq _ _ e)))
        (λ e. rw later (take-append-drop (fwrite n (b ∷ line)) (b ∷ line)))

  -- With fwrite() that takes at least one and at most all of the bytes it is given, LogFile::append
  -- ends and writes the whole line behind what was appended before, and counts its bytes.
  pub append_file_lem :
      (line : List ℕ) (f : LogFile)
      → append_file fwrite line f
        ≡ record f { appended = f.appended ++ line; written_bytes = f.written_bytes + length line }
  unfolding append_file
  append_file_lem line f =
      rw
        (
          write_rest_lem (length line) 1 (drop (fwrite 0 line) line)
              (omega (arith, length-drop (fwrite 0 line) line)),
          take-append-drop (fwrite 0 line) line,
        )
        refl
