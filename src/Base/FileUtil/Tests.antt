-- ===== src/Base/FileUtil/Tests.antt =====
-- The theorem on base/FileUtil.cpp at a file that is read in portions of at most two bytes.
use libiak.Prelude.{ℕ, suc, zero, ◌≡◌, refl, arith, List, [], ◌∷◌, some, pos}
use libiak.Base.FileUtil.{
  Reading, got, failed, read_file, read_loop, read_to_string, new_reader, close_reader,
}
use libiak.Base.FileUtil.Whole.{is_got, is_end, is_failed, IsFile, ReadsFile, read_file-ReadsFile}

-- The read behind a byte 0 fails with errno 5, EIO, once.
abbrev read_two : ℕ → List ℕ → Reading × List ℕ
read_two n [] = (got [], [])
read_two n (zero ∷ bs) = (failed 5, zero ∷ bs)
read_two zero (suc a ∷ bs) = (got [], suc a ∷ bs)
read_two (suc zero) (suc a ∷ bs) = (got (suc a ∷ []), bs)
read_two (suc (suc n)) (suc a ∷ []) = (got (suc a ∷ []), [])
read_two (suc (suc n)) (suc a ∷ b ∷ bs) = (got (suc a ∷ b ∷ []), bs)

abbrev all_left : List ℕ → List ℕ
all_left bs = bs

read_two-IsFile : IsFile (List ℕ) read_two all_left
read_two-IsFile n [] h = is_end [] refl refl
read_two-IsFile n (zero ∷ bs) h = is_failed 5 (zero ∷ bs) refl
read_two-IsFile zero (suc a ∷ bs) h = absurd (omega arith)
read_two-IsFile (suc zero) (suc a ∷ bs) h = is_got (suc a) [] bs (omega arith) refl
read_two-IsFile (suc (suc n)) (suc a ∷ []) h = is_got (suc a) [] [] (omega arith) refl
read_two-IsFile (suc (suc n)) (suc a ∷ b ∷ bs) h = is_got (suc a) (b ∷ []) bs (omega arith) refl

-- Five bytes are asked for, and one is there already.
read_file_five :
    read_file (List ℕ) read_two (pos 3) 0 (9 ∷ []) 5 (1 ∷ 2 ∷ 3 ∷ 4 ∷ 5 ∷ 6 ∷ [])
    ≡ some ((9 ∷ 1 ∷ 2 ∷ 3 ∷ 4 ∷ [], 0, 5 ∷ 6 ∷ []), pos 3 ∷ [])
unfolding read_file read_loop read_to_string new_reader close_reader
read_file_five = refl

read_file-ReadsFile_example :
    ReadsFile
      (List ℕ)
      read_two
      all_left
      (pos 3)
      0
      9
      (9 ∷ [])
      (1 ∷ 2 ∷ 3 ∷ 0 ∷ [])
      (read_file (List ℕ) read_two (pos 3) 0 (9 ∷ []) 9 (1 ∷ 2 ∷ 3 ∷ 0 ∷ []))
read_file-ReadsFile_example =
    read_file-ReadsFile (List ℕ) read_two all_left read_two-IsFile (pos 3) 0 9 (9 ∷ [])
      (1 ∷ 2 ∷ 3 ∷ 0 ∷ [])
