-- ===== src/Log/LogStream/Hex.antt =====
-- The text of a pointer reads back as its value, and is short.
use mathlib.Core.List.{reverse_aux}
use libiak.Prelude.{
  ℕ, zero, suc, ◌+◌, ◌-◌, ◌*◌, ◌/◌, ◌%◌, ◌^◌, ◌≤◌, ◌<◌, ◌≡◌, refl, ap, ◌∙◌, List, [], ◌∷◌, length,
  get_or, leb, ◌==◌, if◌then◌else◌, if-cases, arith, ==→eq, ==→ne,
}
use libiak.Log.LogStream.{digits_hex, hex_loop, convert_hex}
use libiak.Log.LogStream.Decimal.{length-reverse_aux}

-- The value of one hexadecimal digit.
abbrev pub digit_of : ℕ → ℕ
digit_of c = if leb c b'9' then c - b'0' else c - b'A' + 10

-- The number that hexadecimal digits denote, behind the number `n`.
abbrev pub read_hex : ℕ → List ℕ → ℕ
read_hex n [] = n
read_hex n (c ∷ cs) = read_hex (16 * n + digit_of c) cs

abbrev value_of : List ℕ → ℕ
value_of [] = 0
value_of (c ∷ cs) = digit_of c + 16 * value_of cs

read_hex-reverse_aux : (xs r : List ℕ) → read_hex 0 (reverse_aux xs r) ≡ read_hex (value_of xs) r
read_hex-reverse_aux [] r = refl
read_hex-reverse_aux (x ∷ xs) r =
    read_hex-reverse_aux xs (x ∷ r) ∙ ap (λ n. read_hex n r) (omega arith)

digit_at : (k : ℕ) → k < 16 → digit_of (get_or digits_hex k 0) ≡ k
digit_at zero h = refl
digit_at (suc zero) h = refl
digit_at (suc (suc zero)) h = refl
digit_at (suc (suc (suc zero))) h = refl
digit_at (suc (suc (suc (suc zero)))) h = refl
digit_at (suc (suc (suc (suc (suc zero))))) h = refl
digit_at (suc (suc (suc (suc (suc (suc zero)))))) h = refl
digit_at (suc (suc (suc (suc (suc (suc (suc zero))))))) h = refl
digit_at (suc (suc (suc (suc (suc (suc (suc (suc zero)))))))) h = refl
digit_at (suc (suc (suc (suc (suc (suc (suc (suc (suc zero))))))))) h = refl
digit_at (suc (suc (suc (suc (suc (suc (suc (suc (suc (suc zero)))))))))) h = refl
digit_at (suc (suc (suc (suc (suc (suc (suc (suc (suc (suc (suc zero))))))))))) h = refl
digit_at (suc (suc (suc (suc (suc (suc (suc (suc (suc (suc (suc (suc zero)))))))))))) h = refl
digit_at (suc (suc (suc (suc (suc (suc (suc (suc (suc (suc (suc (suc (suc zero))))))))))))) h = refl
digit_at (suc (suc (suc (suc (suc (suc (suc (suc (suc (suc (suc (suc (suc (suc zero))))))))))))))
      h =
    refl
digit_at
      (suc (suc (suc (suc (suc (suc (suc (suc (suc (suc (suc (suc (suc (suc (suc zero)))))))))))))))
      h =
    refl
digit_at
      (suc
        (suc (suc (suc (suc (suc (suc (suc (suc (suc (suc (suc (suc (suc (suc (suc k))))))))))))))))
      h =
    absurd (omega arith)

value_of-hex_loop : (fuel i : ℕ) → i < fuel → value_of (hex_loop fuel i) ≡ i
unfolding hex_loop
value_of-hex_loop zero i h = absurd (omega arith)
value_of-hex_loop (suc fuel) i h =
    let last = digit_at (i % 16) (omega arith) in
    if-cases (i / 16 == 0)
      (λ (r : List ℕ). digit_of (get_or digits_hex (i % 16) 0) + 16 * value_of r ≡ i) _ _
      (λ e. rw last (omega (arith, ==→eq _ _ e)))
      (λ e.
        let ih = value_of-hex_loop fuel (i / 16) (omega (arith, ==→ne _ _ e)) in
        rw (last, ih) (omega arith))

length-hex_loop : (k fuel i : ℕ) → i < 16 ^ suc k → length (hex_loop fuel i) ≤ suc k
unfolding hex_loop
length-hex_loop k zero i h = omega arith
length-hex_loop zero (suc fuel) i h =
    if-cases (i / 16 == 0) (λ (r : List ℕ). suc (length r) ≤ 1) _ _ (λ e. omega arith)
      (λ e. absurd (omega (arith, ==→ne _ _ e)))
length-hex_loop (suc k) (suc fuel) i h =
    if-cases (i / 16 == 0) (λ (r : List ℕ). suc (length r) ≤ suc (suc k)) _ _ (λ e. omega arith)
      (λ e. omega (arith, length-hex_loop k fuel (i / 16) (omega arith)))

-- The text that convertHex makes of any number reads back as that number.
pub read_hex-convert_hex : (v : ℕ) → read_hex 0 (convert_hex v) ≡ v
unfolding convert_hex
read_hex-convert_hex v =
    read_hex-reverse_aux (hex_loop (suc v) v) [] ∙ value_of-hex_loop (suc v) v (omega arith)

-- The text of a number of at most k + 1 hexadecimal digits.
pub length-convert_hex : (k v : ℕ) → v < 16 ^ suc k → length (convert_hex v) ≤ suc k
unfolding convert_hex
length-convert_hex k v h =
    omega (arith, length-reverse_aux (hex_loop (suc v) v) [], length-hex_loop k (suc v) v h)
