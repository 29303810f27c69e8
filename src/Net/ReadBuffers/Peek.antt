-- ===== src/Net/ReadBuffers/Peek.antt =====
-- PeekData returns the oldest bytes that the connection holds.
use libiak.Prelude.{
  ℕ, ◌<◌, ◌≤◌, ◌≡◌, ◌^◌, ◌+◌, ◌-◌, inl, inr, sym, ap, ap₂, ◌∙◌, List, [], ◌∷◌, ◌++◌, Option, some,
  true, take, length, arith, ltb, ltb→lt, ltb→le, Bool-cases, u32, sub32, sub32-eq, u32-eq,
  take-append_le, take-append_ge, take_all, length-append,
}
use libiak.Net.Buffer.{Buffer, IsValid, at, window, contents, slice}
use libiak.Net.Buffer.Window.{window-append}
use libiak.Net.Buffer.Contents.{
  length-contents, slice-at, slice-at_wrapped, take-contents, slice-contents,
}
use libiak.Net.ReadBuffers.{
  ReadBuffers, done, copy_front, peek_others, peek_from, peek_chain, peek_data, spare_list,
}
use libiak.Net.Buffer.Chain.{held, Followers, IsChain}
use libiak.Net.ReadBuffers.Held.{IsReadable}

-- The one or two copies out of the head are its oldest bytes.
pub copy_front-take :
    (b : Buffer) (n : ℕ) → IsValid b → n ≤ b.count → copy_front b n ≡ take n (contents b)
unfolding copy_front
copy_front-take b n v h = elim (Bool-cases (ltb (sub32 b.capacity b.pop) n)) [
  | inl e ↦ rw e (two_copies (ltb→lt _ _ e) ∙ sym (take-contents b n h))
  | inr e ↦ rw e (slice-at b b.pop n v (omega (arith, ltb→le _ _ e)) ∙ sym (take-contents b n h))
]
  where
    two_copies :
        sub32 b.capacity b.pop < n
        → slice b.buffer b.pop (sub32 b.capacity b.pop)
            ++ slice b.buffer 0 (n - sub32 b.capacity b.pop)
          ≡ window (at b) b.pop n
    two_copies lt =
        let sum : sub32 b.capacity b.pop + (n - sub32 b.capacity b.pop) ≡ n = omega arith in
        ap₂ ◌++◌ (slice-at b b.pop _ v (omega arith))
          (slice-at_wrapped b 0 _ (b.pop + sub32 b.capacity b.pop) v (omega arith) (omega arith))
        ∙ sym (window-append (at b) b.pop (sub32 b.capacity b.pop) _)
        ∙ ap (window (at b) b.pop) sum

-- The copies of the first `n` bytes of a list of blocks, seen from its first block.
pub take-two :
    (first rest : List ℕ) (n : ℕ)
    → length first ≤ n
    → take n (first ++ rest) ≡ first ++ take (n - length first) rest
take-two first rest n h = take-append_ge n first rest h

-- The loop over the blocks behind the head returns their oldest bytes.
pub peek_others-take :
    (front : List Buffer) (tail : Buffer) (spare : Option Buffer) (rear : ℕ)
    → Followers front tail
    → rear < 2 ^ 32
    → rear ≤ length (held front tail)
    → peek_others rear (front ++ tail ∷ spare_list spare) ≡ some (take rear (held front tail))
unfolding peek_others
peek_others-take [] tail spare rear v small h = ground (
  arith,
  length-contents tail,
  slice-contents tail rear v.0 v.1,
  slice-contents tail tail.count v.0 v.1,
)
peek_others-take (b ∷ front) tail spare rear v small h = ground (
  arith,
  length-contents b,
  length-append (contents b) (held front tail),
  slice-contents b rear v.0 v.1,
  slice-contents b b.count v.0 v.1,
  take_all b.count (contents b),
  take-append_le rear (contents b) (held front tail),
  take-append_ge rear (contents b) (held front tail),
  peek_others-take front tail spare (sub32 rear b.count) v.2,
  sub32-eq rear b.count,
)

peek_from-take :
    (head : Buffer) (front : List Buffer) (tail : Buffer) (spare : Option Buffer) (n : ℕ)
    → IsChain (head ∷ front) tail
    → n < 2 ^ 32
    → n ≤ length (held (head ∷ front) tail)
    → peek_from n head (front ++ tail ∷ spare_list spare) ≡ some (take n (held (head ∷ front) tail))
unfolding peek_from
peek_from-take b front tail spare n v small h = ground (
  arith,
  length-contents b,
  length-append (contents b) (held front tail),
  copy_front-take b n v.0,
  copy_front-take b b.count v.0,
  take_all b.count (contents b),
  take-append_le n (contents b) (held front tail),
  take-append_ge n (contents b) (held front tail),
  peek_others-take front tail spare (sub32 (u32 n) b.count) v.1,
  u32-eq n small,
  sub32-eq n b.count,
)

peek_chain-take :
    (front : List Buffer) (tail : Buffer) (spare : Option Buffer) (n : ℕ)
    → IsChain front tail
    → n < 2 ^ 32
    → n ≤ length (held front tail)
    → peek_chain n front tail spare ≡ some (take n (held front tail))
unfolding peek_from
peek_chain-take [] tail spare n v small h =
    ground
      (arith, length-contents tail, copy_front-take tail n v, copy_front-take tail tail.count v)
peek_chain-take (b ∷ front) tail spare n v small h = peek_from-take b front tail spare n v small h

-- PeekData answers a request for at least one and at most `readSize_` bytes with exactly the oldest
-- bytes that the connection holds, wherever they lie in the blocks, and never runs off the chain.
pub peek_data_lem :
    (n : ℕ) (r : ReadBuffers)
    → IsReadable r
    → 0 < n
    → n ≤ r.size
    → peek_data true n r ≡ done (take n (held r.front r.tail))
unfolding peek_data
peek_data_lem n r v pos h = ground (arith, peek_chain-take r.front r.tail r.spare n v.chain)
