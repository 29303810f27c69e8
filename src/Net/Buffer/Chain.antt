-- ===== src/Net/Buffer/Chain.antt =====
-- The bytes that a chain of blocks holds, and when a chain is well formed.
use libiak.Prelude.{ℕ, ◌≡◌, refl, sym, ◌∙◌, ap, List, [], ◌∷◌, ◌++◌, append_assoc}
use libiak.Net.Buffer.{Buffer, IsValid, contents}

-- The bytes of the blocks from the head to the tail, oldest first.
abbrev pub held : List Buffer → Buffer → List ℕ
held [] tail = contents tail
held (b ∷ front) tail = contents b ++ held front tail

-- A block behind the head holds its bytes from its begin on.
abbrev pub Followers : List Buffer → Buffer → Type 0
Followers [] tail = IsValid tail × (tail.pop ≡ 0)
Followers (b ∷ front) tail = IsValid b × (b.pop ≡ 0) × Followers front tail

abbrev pub IsChain : List Buffer → Buffer → Type 0
IsChain [] tail = IsValid tail
IsChain (b ∷ front) tail = IsValid b × Followers front tail

pub Followers-IsChain :
    (front : List Buffer) (tail : Buffer) → Followers front tail → IsChain front tail
Followers-IsChain [] tail f = f.0
Followers-IsChain (b ∷ front) tail f = (f.0, f.2)

pub tail-IsValid : (front : List Buffer) (tail : Buffer) → IsChain front tail → IsValid tail
tail-IsValid [] tail c = c
tail-IsValid (b ∷ []) tail c = c.1.0
tail-IsValid (b ∷ d ∷ front) tail c = tail-IsValid (d ∷ front) tail (c.1.0, c.1.2)

-- A block behind the tail.
pub held-append :
    (front : List Buffer) (tail last : Buffer)
    → held (front ++ tail ∷ []) last ≡ held front tail ++ contents last
held-append [] tail last = refl
held-append (b ∷ front) tail last =
    ap (λ bytes. contents b ++ bytes) (held-append front tail last)
    ∙ sym (append_assoc (contents b) (held front tail) (contents last))

Followers-append :
    (front : List Buffer) (tail last : Buffer)
    → Followers front tail
    → IsValid last
    → last.pop ≡ 0
    → Followers (front ++ tail ∷ []) last
Followers-append [] tail last f v e = (f.0, f.1, (v, e))
Followers-append (b ∷ front) tail last f v e = (f.0, f.1, Followers-append front tail last f.2 v e)

pub IsChain-append :
    (front : List Buffer) (tail last : Buffer)
    → IsChain front tail
    → IsValid last
    → last.pop ≡ 0
    → IsChain (front ++ tail ∷ []) last
IsChain-append [] tail last c v e = (c, (v, e))
IsChain-append (b ∷ front) tail last c v e = (c.0, Followers-append front tail last c.1 v e)

-- More bytes in the tail.
pub held-tail :
    (front : List Buffer) (tail tail' : Buffer) (more : List ℕ)
    → contents tail' ≡ contents tail ++ more
    → held front tail' ≡ held front tail ++ more
held-tail [] tail tail' more e = e
held-tail (b ∷ front) tail tail' more e =
    ap (λ bytes. contents b ++ bytes) (held-tail front tail tail' more e)
    ∙ sym (append_assoc (contents b) (held front tail) more)

Followers-tail :
    (front : List Buffer) (tail tail' : Buffer)
    → Followers front tail
    → IsValid tail'
    → tail'.pop ≡ tail.pop
    → Followers front tail'
Followers-tail [] tail tail' f v e = (v, e ∙ f.1)
Followers-tail (b ∷ front) tail tail' f v e = (f.0, f.1, Followers-tail front tail tail' f.2 v e)

pub IsChain-tail :
    (front : List Buffer) (tail tail' : Buffer)
    → IsChain front tail
    → IsValid tail'
    → tail'.pop ≡ tail.pop
    → IsChain front tail'
IsChain-tail [] tail tail' c v e = v
IsChain-tail (b ∷ front) tail tail' c v e = (c.0, Followers-tail front tail tail' c.1 v e)
