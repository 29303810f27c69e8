-- ===== src/Log/LogStream.antt =====
-- log/LogStream.h and log/LogStream.cpp: the buffer in which a log line is put together. A character
-- is its code; the buffer is the characters before `cur_`. `print_double` is snprintf with "%.12g".
pub mod Decimal
pub mod Hex
pub mod Puts
mod Tests
use mathlib.Core.List.{reverse}
use libiak.Prelude.{
  ℕ, zero, suc, ◌+◌, ◌-◌, ◌*◌, ◌/◌, ◌%◌, ◌≡◌, Bool, true, false, List, [], ◌∷◌, ◌++◌, length,
  get_or, ltb, leb, ◌==◌, if◌then◌else◌, ℤ, pos, negsuc, minus, abs, is_negative, quot, rem,
}

-- `digits`
abbrev pub digits : List ℕ
digits =
    b'9' ∷ b'8' ∷ b'7' ∷ b'6' ∷ b'5' ∷ b'4' ∷ b'3' ∷ b'2' ∷ b'1' ∷ b'0' ∷ b'1' ∷ b'2' ∷ b'3' ∷ b'4'
    ∷ b'5' ∷ b'6' ∷ b'7' ∷ b'8' ∷ b'9' ∷ []

-- `zero[lsd]`, where `zero` is `digits + 9`
abbrev pub zero_at : ℤ → ℕ
zero_at (pos n) = get_or digits (9 + n) 0
zero_at (negsuc n) = get_or digits (9 - suc n) 0

abbrev pub is_zero : ℤ → Bool
is_zero i = abs i == 0

-- The do-while loop of convert: the digits that it stores, the last of the number first.
unfoldable pub convert_loop : ℕ → ℤ → List ℕ
convert_loop zero i = []
convert_loop (suc fuel) i =
    let rest = convert_loop fuel (quot i 10) in
    zero_at (rem i 10) ∷ (if is_zero (quot i 10) then [] else rest)

-- convert, for every integer type: the text, less the '\0' behind it
unfoldable pub convert : ℤ → List ℕ
unfolding convert_loop
convert value =
    reverse (convert_loop (suc (abs value)) value ++ (if is_negative value then b'-' ∷ [] else []))

-- `digitsHex`
abbrev pub digits_hex : List ℕ
digits_hex =
    b'0' ∷ b'1' ∷ b'2' ∷ b'3' ∷ b'4' ∷ b'5' ∷ b'6' ∷ b'7' ∷ b'8' ∷ b'9' ∷ b'A' ∷ b'B' ∷ b'C' ∷ b'D'
    ∷ b'E' ∷ b'F' ∷ []

-- The do-while loop of convertHex.
unfoldable pub hex_loop : ℕ → ℕ → List ℕ
hex_loop zero i = []
hex_loop (suc fuel) i =
    let rest = hex_loop fuel (i / 16) in
    get_or digits_hex (i % 16) 0 ∷ (if i / 16 == 0 then [] else rest)

-- convertHex
unfoldable pub convert_hex : ℕ → List ℕ
unfolding hex_loop
convert_hex value = reverse (hex_loop (suc value) value)

-- kBufferSize and kMaxNumericSize
abbrev pub buffer_size : ℕ
buffer_size = 4096

abbrev pub max_numeric_size : ℕ
max_numeric_size = 32

-- class LogStream
pub record LogStream : Type 0 where
  pub bytes : List ℕ

abbrev pub new_stream : LogStream
new_stream = record { bytes = [] }

-- LogStream::avail
abbrev pub avail : LogStream → ℕ
avail s = buffer_size - length s.bytes

-- LogStream::append
unfoldable pub append : List ℕ → LogStream → LogStream
append text s = if ltb (length text) (avail s) then record { bytes = s.bytes ++ text } else s

-- LogStream::formatInteger
unfoldable pub format_integer : ℤ → LogStream → LogStream
unfolding convert
format_integer v s =
    if leb max_numeric_size (avail s) then record { bytes = s.bytes ++ convert v } else s

-- LogStream::reset
unfoldable pub reset : LogStream → LogStream
reset s = record { bytes = [] }

-- What `<<` is given. The eight integer types all go to formatInteger; a float is made a double, and
-- a format is the text that LogFormat holds.
pub data Item {ℓ} (D : Type ℓ) : Type ℓ where
  integer : ℤ → Item D
  double : D → Item D
  character : ℕ → Item D
  string format : List ℕ → Item D
  bool : Bool → Item D
  pointer : ℕ → Item D

module _ {ℓ} {D : Type ℓ} (print_double : D → List ℕ) where
  -- LogStream::operator<<
  unfoldable pub put : Item D → LogStream → LogStream
  unfolding append format_integer convert_hex
  put (integer v) s = format_integer v s
  put (double v) s =
      if leb max_numeric_size (avail s) then record { bytes = s.bytes ++ print_double v } else s
  put (character c) s = append (c ∷ []) s
  put (string text) s = append text s
  put (format text) s = append text s
  put (bool b) s = append ((if b then b'1' else b'0') ∷ []) s
  put (pointer v) s =
      if leb max_numeric_size (avail s)
      then record { bytes = s.bytes ++ b'0' ∷ b'x' ∷ convert_hex v }
      else s

  unfoldable pub put_all : List (Item D) → LogStream → LogStream
  unfolding put
  put_all [] s = s
  put_all (x ∷ xs) s = put_all xs (put x s)
