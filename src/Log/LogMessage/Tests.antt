-- ===== src/Log/LogMessage/Tests.antt =====
-- The theorem on log/LogMessage.cpp at a concrete line.
use libiak.Prelude.{ℕ, ◌+◌, ◌≡◌, ◌≤◌, inl, refl, ap, arith, length, List, [], ◌∷◌, pos, true, codes}
use libiak.Log.Logging.{last_position}
use libiak.Log.LogStream.{Item, string, integer, buffer_size, convert}
use libiak.Log.LogMessage.{info, new_cache, new_message, put_into, finish, base_name}
use libiak.Log.LogMessage.Line.{IsCurrent, line_text, finish-line_text}

abbrev as_given : List ℕ → List ℕ
as_given text = text

-- The same second, and the same part of it, at any time.
abbrev at_noon : ℕ → List ℕ
at_noon n = codes "20140102 12:00:00"

abbrev no_us : ℕ → List ℕ
no_us n = codes ".000000 "

abbrev user : List (Item (List ℕ))
user = string (codes "started ") ∷ integer (pos 7) ∷ []

line :
    line_text as_given at_noon no_us (codes "src/Main.cpp") (pos 12) info 3 0 user
    ≡ codes "20140102 12:00:00.000000 INFO  started 7 - Main.cpp:12\n"
unfolding base_name convert last_position
line = refl

room :
    length (line_text as_given at_noon no_us (codes "src/Main.cpp") (pos 12) info 3 0 user) + 32
    ≤ buffer_size
room = omega (arith, ap length line)

finish-line_text_example :
    let (m, c') =
      new_message as_given at_noon no_us (codes "src/Main.cpp") (pos 12) info 3 0 new_cache in
    ((finish as_given at_noon no_us true (put_into as_given at_noon no_us user m)).text
      ≡ line_text as_given at_noon no_us (codes "src/Main.cpp") (pos 12) info 3 0 user)
    × IsCurrent at_noon c'
finish-line_text_example =
    finish-line_text as_given at_noon no_us true (codes "src/Main.cpp") (pos 12) info 3 0 new_cache
      user (omega arith) (inl refl) (tt, (omega arith, tt)) (omega arith) room
