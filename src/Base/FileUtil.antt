-- ===== src/Base/FileUtil.antt =====
-- base/FileUtil.h and base/FileUtil.cpp: reading a file into a string. An open file is a parameter: the
-- state `F` of what is behind the descriptor, and what `read` does to it. A string is the list of its bytes.
pub mod Whole
mod Tests
use libiak.Prelude.{
  ℕ, zero, suc, ◌+◌, ◌-◌, min, Bool, true, false, not, List, [], ◌∷◌, ◌++◌, Option, none, some,
  length, if◌then◌else◌, ltb, ◌>>=◌, ℤ, pos, negsuc, is_negative,
}

-- class FileReader
pub record FileReader : Type 0 where
  pub fd : ℤ
  pub err : ℕ

-- FileReader::FileReader, after open() with the descriptor `fd` and with `errno`
unfoldable pub new_reader : ℤ → ℕ → FileReader
new_reader fd errno = record { fd = fd; err = if is_negative fd then errno else 0 }

-- FileReader::~FileReader: the descriptors it closes
unfoldable pub close_reader : FileReader → List ℤ
close_reader r = if is_negative r.fd then [] else r.fd ∷ []

-- What ::read gives: bytes, none of them at the end of the file, or -1 with an errno.
pub data Reading : Type 0 where
  got : List ℕ → Reading
  failed : ℕ → Reading

-- sizeof buf
abbrev pub buffer_size : ℕ
buffer_size = 65536

module _ (F : Type 0) (read : ℕ → F → Reading × F) where
  -- The string, what the function returns, and the file behind it
  abbrev pub Read : Type 0
  Read = List ℕ × ℕ × F

  -- The body of the loop of readToString behind ::read; `next` goes round again.
  abbrev pub append_read : ℕ → List ℕ → (List ℕ → F → Option Read) → Reading × F → Option Read
  append_read err content next (got [], f) = some (content, err, f)
  append_read err content next (got (b ∷ bs), f) = next (content ++ b ∷ bs) f
  append_read err content next (failed e, f) = some (content, e, f)

  -- The loop of readToString, `none` where the fuel does not reach the end
  unfoldable pub read_loop : ℕ → ℕ → ℕ → List ℕ → F → Option Read
  read_loop zero err size content f = none
  read_loop (suc n) err size content f =
      let next = read_loop n err size in
      if ltb (length content) size
      then append_read err content next (read (min (size - length content) buffer_size) f)
      else some (content, err, f)

  -- FileReader::readToString
  unfoldable pub read_to_string : FileReader → List ℕ → ℕ → F → Option Read
  read_to_string r content size f =
      if is_negative r.fd
      then some (content, r.err, f)
      else read_loop (suc (size - length content)) r.err size content f

  -- FileReader::readFile, with what it closes
  unfoldable pub read_file : ℤ → ℕ → List ℕ → ℕ → F → Option (Read × List ℤ)
  read_file fd errno content size f = do
    let r = new_reader fd errno
    read ← read_to_string r content size f
    some (read, close_reader r)
