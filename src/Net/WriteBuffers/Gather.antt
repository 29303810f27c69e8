-- ===== src/Net/WriteBuffers/Gather.antt =====
-- What onWrite offers to writev, and what a round of its loop leaves.
use native.Mathlib.Nat.{mod-eq_of_lt, mod-eq-sub-mod}
use libiak.Prelude.{
  ℕ, ◌<◌, ◌≤◌, ◌≡◌, ◌^◌, ◌+◌, ◌-◌, ◌⊎◌, inl, inr, refl, sym, ap, ap₂, ◌∙◌, List, [], ◌∷◌, ◌++◌,
  some, take, drop, length, arith, ltb, ltb→lt, ltb→le, Bool-cases, u32, add32, sub32,
  drop-append_le, drop-append_ge, drop_all, take-append_le, take-append_ge, take_all, append-nil,
}
use libiak.Net.Buffer.{Buffer, IsValid, at, window, contents}
use libiak.Net.Buffer.Window.{window-append}
use libiak.Net.Buffer.Contents.{
  length-contents, slice-at, slice-at_wrapped, window_wrapped, drop-contents, slice-contents,
}
use libiak.Net.Buffer.Chain.{held, IsChain}
use libiak.Net.WriteBuffers.{
  head_segments, gather, next_bytes, next_count, offered, head_of, next_of, keep, begin, sent,
}

-- The segments of a head that is not empty are its bytes.
gather-head :
    (b : Buffer) → IsValid b → 0 < b.count → gather b.buffer (head_segments b) ≡ contents b
unfolding head_segments
gather-head b v h = elim (Bool-cases (ltb b.pop b.push)) [
  | inl e ↦
      let lt : b.pop < b.push = ltb→lt _ _ e in
      rw e
        (append-nil _ ∙ slice-at b b.pop b.count v (omega (arith, v.range, v.push_in, v.count_in)))
  | inr e ↦
      let le : b.push ≤ b.pop = ltb→le _ _ e in
      let rear : sub32 b.capacity b.pop ≡ b.capacity - b.pop = omega (arith, v.pop_in, v.small) in
      rw (e, rear)
        (elim (Bool-cases (ltb 0 b.push)) [
          | inl wrapped ↦
              let sum : b.capacity - b.pop + b.push ≡ b.count = omega (arith, v.range, v.pop_in) in
              rw (wrapped, append-nil)
                (ap₂ ◌++◌ (slice-at b b.pop (b.capacity - b.pop) v (omega (arith, v.pop_in))) (
                    slice-at_wrapped b 0 b.push (b.pop + (b.capacity - b.pop)) v
                      (omega (arith, v.pop_in)) (omega (arith, v.push_in)))
                  ∙ sym (window-append (at b) b.pop (b.capacity - b.pop) b.push)
                  ∙ ap (window (at b) b.pop) sum)
          | inr straight ↦
              let all : b.capacity - b.pop ≡ b.count =
                omega (arith, v.range, v.pop_in, ltb→le _ _ straight) in
              rw (straight, append-nil, all)
                (slice-at b b.pop b.count v (omega (arith, v.pop_in, all)))
        ])
]

keep-pop :
    (b : Buffer) (n : ℕ)
    → IsValid b
    → n < b.count
    → ((keep b n).pop < b.capacity)
      × (((keep b n).pop ≡ b.pop + n) ⊎ (b.pop + n ≡ b.capacity + (keep b n).pop))
keep-pop b n v h =
    let plain : add32 b.pop (u32 n) ≡ b.pop + n = omega (arith, v.pop_in, v.count_in, v.small) in
    rw plain (
      ground (
        arith,
        v.pop_in,
        v.count_in,
        mod-eq_of_lt {n = b.pop + n} {m = b.capacity},
        mod-eq-sub-mod {n = b.pop + n} {m = b.capacity},
        mod-eq_of_lt {n = b.pop + n - b.capacity} {m = b.capacity},
      ))

keep-count : (b : Buffer) (n : ℕ) → IsValid b → n < b.count → (keep b n).count ≡ b.count - n
keep-count b n v h = omega (arith, v.count_in, v.small)

keep-IsValid : (b : Buffer) (n : ℕ) → IsValid b → n < b.count → IsValid (keep b n)
keep-IsValid b n v h =
    let p = keep-pop b n v h in
    let c = keep-count b n v h in
    record {
      storage = v.storage;
      some_room = v.some_room;
      small = v.small;
      count_in = omega (arith, c, v.count_in);
      pop_in = omega (arith, p.0);
      push_in = v.push_in;
      range = omega (arith, v.range, p, c, v.push_in, v.pop_in, v.count_in);
    }

keep-drop :
    (b : Buffer) (n : ℕ) → IsValid b → n < b.count → contents (keep b n) ≡ drop n (contents b)
keep-drop b n v h =
    ap (window (at b) (keep b n).pop) (keep-count b n v h)
    ∙ shifted ((keep-pop b n v h).1)
    ∙ sym (drop-contents b n)
  where
    shifted :
        ((keep b n).pop ≡ b.pop + n) ⊎ (b.pop + n ≡ b.capacity + (keep b n).pop)
        → window (at b) (keep b n).pop (b.count - n) ≡ window (at b) (b.pop + n) (b.count - n)
    shifted (inl e) = ap (λ p. window (at b) p (b.count - n)) e
    shifted (inr e) = sym (
        window_wrapped b (keep b n).pop (b.count - n) (b.pop + n) e
          (omega (arith, v.count_in, v.push_in, v.range)))

-- A block behind the head of which `n` bytes went out.
begin-IsValid : (b : Buffer) (n : ℕ) → IsValid b → b.pop ≡ 0 → n ≤ b.count → IsValid (begin b n)
begin-IsValid b n v z h =
    omega (arith, v.count_in, v.push_in, v.small, v.some_room, v.storage, v.range)

begin-drop :
    (b : Buffer) (n : ℕ)
    → IsValid b
    → b.pop ≡ 0
    → n ≤ b.count
    → contents (begin b n) ≡ drop n (contents b)
begin-drop b n v z h =
    let start : n ≡ b.pop + n = omega arith in
    let left : sub32 b.count n ≡ b.count - n = omega (arith, v.count_in, v.small) in
    ap (window (at b) n) left
    ∙ ap (λ p. window (at b) p (b.count - n)) start
    ∙ sym (drop-contents b n)

-- The chain that a round leaves: `n` bytes of `old` are gone.
abbrev pub Leaves : ℕ → List ℕ → List Buffer × Buffer → Type 0
Leaves n old (front, tail) = (held front tail ≡ drop n old) × IsChain front tail

-- The bytes that were offered: those of the head and of the next block.
abbrev pub offered_count : List Buffer → Buffer → ℕ
offered_count front tail = (head_of front tail).count + next_count (next_of front tail)

-- Where writev takes at most the bytes of the head and the next block, fewer than 2^32, what is left
-- in the chain is what it held less exactly those bytes, and the chain is well formed.
pub sent-Leaves :
    (n : ℕ) (front : List Buffer) (tail : Buffer)
    → IsChain front tail
    → n ≤ offered_count front tail
    → n < 2 ^ 32
    → Leaves n (held front tail) (sent n front tail)
unfolding sent
sent-Leaves n [] tail c h small = ground (
  arith,
  length-contents tail,
  drop_all n (contents tail),
  keep-drop tail n c,
  keep-IsValid tail n c,
)
sent-Leaves n (b ∷ []) tail c h small = ground (
  arith,
  length-contents b,
  keep-drop b n c.0,
  keep-IsValid b n c.0,
  drop-append_le n (contents b) (contents tail),
  drop-append_ge n (contents b) (contents tail),
  begin-drop tail (sub32 (u32 n) b.count) c.1.0 c.1.1,
  begin-IsValid tail (sub32 (u32 n) b.count) c.1.0 c.1.1,
  c.0.small,
  c.0.count_in,
)
sent-Leaves n (b ∷ d ∷ front) tail c h small = ground (
  arith,
  length-contents b,
  length-contents d,
  keep-drop b n c.0,
  keep-IsValid b n c.0,
  drop-append_le n (contents b) (contents d ++ held front tail),
  drop-append_ge n (contents b) (contents d ++ held front tail),
  drop-append_le (n - b.count) (contents d) (held front tail),
  begin-drop d (sub32 (u32 n) b.count) c.1.0 c.1.1,
  begin-IsValid d (sub32 (u32 n) b.count) c.1.0 c.1.1,
  c.0.small,
  c.0.count_in,
)

offered-two :
    (b d : Buffer) (behind rest : List ℕ)
    → IsValid b
    → IsValid d
    → d.pop ≡ 0
    → 0 < b.count
    → behind ≡ contents d ++ rest
    → gather b.buffer (head_segments b) ++ next_bytes (some d)
      ≡ take (b.count + d.count) (contents b ++ behind)
offered-two b d behind rest v u z h e =
    let all : b.count + d.count - length (contents b) ≡ d.count =
      omega (arith, length-contents b) in
    ap₂ ◌++◌ (gather-head b v h) (
      slice-contents d d.count u z (omega arith)
      ∙ sym (take-append_le d.count (contents d) rest (omega (arith, length-contents d)))
      ∙ ap (take d.count) (sym e))
    ∙ sym (
        take-append_ge (b.count + d.count) (contents b) behind (omega (arith, length-contents b))
        ∙ rw all)

-- A round whose head is not empty offers exactly the oldest bytes that wait.
pub offered-held :
    (front : List Buffer) (tail : Buffer)
    → IsChain front tail
    → 0 < (head_of front tail).count
    → offered (head_of front tail) (next_of front tail)
      ≡ take (offered_count front tail) (held front tail)
unfolding offered
offered-held [] tail c h =
    let none_next : tail.count + 0 ≡ tail.count = omega arith in
    rw (append-nil, none_next)
      (gather-head tail c h
        ∙ sym (take_all tail.count (contents tail) (omega (arith, length-contents tail))))
offered-held (b ∷ []) tail c h =
    offered-two b tail (contents tail) [] c.0 c.1.0 c.1.1 h (sym (append-nil (contents tail)))
offered-held (b ∷ d ∷ front) tail c h =
    offered-two b d (contents d ++ held front tail) (held front tail) c.0 c.1.0 c.1.1 h refl
