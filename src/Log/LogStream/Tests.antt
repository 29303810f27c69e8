-- ===== src/Log/LogStream/Tests.antt =====
-- The theorems on log/LogStream.cpp at concrete items.
use libiak.Prelude.{ℕ, ◌≡◌, ◌≤◌, refl, arith, length, List, [], ◌∷◌, negsuc, true, codes, replicate}
use libiak.Log.LogStream.{
  Item, integer, double, character, string, bool, pointer, convert, convert_hex, put_all,
  new_stream, buffer_size,
}
use libiak.Log.LogStream.Decimal.{IsText, convert-IsText}
use libiak.Log.LogStream.Puts.{ArePrintable, Fits, put_all-Fits}

minus_twelve : convert (negsuc 11) ≡ codes "-12"
unfolding convert
minus_twelve = refl

hex : convert_hex 48879 ≡ codes "BEEF"
unfolding convert_hex
hex = refl

convert-IsText_example : IsText (negsuc 11) (convert (negsuc 11))
convert-IsText_example = convert-IsText (negsuc 11)

-- A double is printed as its own text here.
abbrev as_given : List ℕ → List ℕ
as_given text = text

abbrev items : List (Item (List ℕ))
items =
    string (codes "a ")
    ∷ integer (negsuc 11)
    ∷ character b' '
    ∷ double (codes "1.5")
    ∷ bool true
    ∷ pointer 255
    ∷ []

items-ArePrintable : ArePrintable as_given items
items-ArePrintable = (tt, (omega arith, (tt, (omega arith, (tt, (omega arith, tt))))))

-- The second text does not fit behind the first, and the items behind it do.
abbrev too_many : List (Item (List ℕ))
too_many = string (replicate 4030 b'x') ∷ string (replicate 70 b'y') ∷ items

put_all-Fits_example :
    (length (put_all as_given too_many new_stream).bytes ≤ buffer_size)
    × Fits as_given [] too_many (put_all as_given too_many new_stream).bytes
put_all-Fits_example =
    put_all-Fits as_given too_many new_stream (tt, (tt, items-ArePrintable)) (omega arith)
