-- ===== src/Net/WriteBuffers/Drain.antt =====
-- Rounds of onWrite: what goes out, and the round after the last byte.
use mathlib.Core.Path.{subst}
use libiak.Prelude.{
  ℕ, zero, suc, refl, sym, ap, ap₂, ◌∙◌, take, take-append-drop, ◌<◌, ◌≤◌, ◌≡◌, ◌^◌, ◌↔◌, List, [],
  ◌∷◌, ◌++◌, none, some, drop, length, arith, sub32, length-append, length-drop, length-take,
  append-nil,
}
use libiak.Net.Buffer.{Buffer, IsValid, contents, slice}
use libiak.Net.Buffer.Contents.{length-contents}
use libiak.Net.Buffer.Chain.{held, IsChain}
use libiak.Net.WriteBuffers.{WriteBuffers, head_of, next_of, offered, Round, again, write_round}
use libiak.Net.WriteBuffers.WriteData.{IsWritable}
use libiak.Net.WriteBuffers.Gather.{offered_count, sent-Leaves, offered-held}

offered_count-le :
    (front : List Buffer) (tail : Buffer)
    → IsChain front tail
    → (offered_count front tail ≤ length (held front tail)) × (offered_count front tail < 2 ^ 32)
offered_count-le [] tail c = omega (arith, length-contents tail, c.count_in, c.small)
offered_count-le (b ∷ []) tail c = omega (
  arith,
  length-append (contents b) (contents tail),
  length-contents b,
  length-contents tail,
  c.0.count_in,
  c.0.small,
  c.1.0.count_in,
  c.1.0.small,
)
offered_count-le (b ∷ d ∷ front) tail c = omega (
  arith,
  length-append (contents b) (contents d ++ held front tail),
  length-append (contents d) (held front tail),
  length-contents b,
  length-contents d,
  c.0.count_in,
  c.0.small,
  c.1.0.count_in,
  c.1.0.small,
)

-- A shorter beginning of a beginning
take-take : {A : Type 0} (m n : ℕ) (xs : List A) → n ≤ m → take n (take m xs) ≡ take n xs
take-take m zero xs h = refl
take-take zero (suc n) xs h = absurd (omega arith)
take-take (suc m) (suc n) [] h = refl
take-take (suc m) (suc n) (x ∷ xs) h = ap (◌∷◌ x) (take-take m n xs (omega arith))

-- The bytes that a round of onWrite gives to writev.
abbrev pub offers : WriteBuffers → List ℕ
offers w = offered (head_of w.front w.tail) (next_of w.front w.tail)

module _ (w : WriteBuffers) (v : IsWritable w) (small : w.size < 2 ^ 64) where
  write_round-drop :
      (n : ℕ)
      → n ≤ offered_count w.front w.tail
      → let (w', round) = write_round (some n) w in
        (held w'.front w'.tail ≡ drop n (held w.front w.tail))
        × IsWritable w'
        × ((round ≡ again) ↔ (n ≡ offered_count w.front w.tail))
  unfolding write_round
  write_round-drop n h =
      let b = offered_count-le w.front w.tail v.chain in
      let l = sent-Leaves n w.front w.tail v.chain h (omega (arith, b.1)) in
      ground (arith, b, l, v.sized, length-drop n (held w.front w.tail))

  module _ (waits : 0 < (head_of w.front w.tail).count) where
    length-offers : length (offers w) ≡ offered_count w.front w.tail
    length-offers =
        let b = offered_count-le w.front w.tail v.chain in
        ap length (offered-held w.front w.tail v.chain waits)
        ∙ omega (arith, b.0, length-take (offered_count w.front w.tail) (held w.front w.tail))

    -- A round of onWrite whose head block is not empty, in which writev takes the first `n` of the
    -- bytes that were offered to it: those bytes and then what is left in the chain are what the chain
    -- held, the chain is well formed and its byte count right, and the loop goes on exactly if writev
    -- took all of the bytes that were offered.
    pub write_round_lem :
        (n : ℕ)
        → n ≤ length (offers w)
        → let (w', round) = write_round (some n) w in
          (take n (offers w) ++ held w'.front w'.tail ≡ held w.front w.tail)
          × IsWritable w'
          × ((round ≡ again) ↔ (n ≡ length (offers w)))
    write_round_lem n h =
        let old = held w.front w.tail in
        let count = offered_count w.front w.tail in
        let all : n ≤ count = omega (arith, length-offers) in
        let (gone, ok, goes_on) = write_round-drop n all in
        let first : take n (offers w) ≡ take n old =
          ap (take n) (offered-held w.front w.tail v.chain waits) ∙ take-take count n old all in
        (
          ap₂ ◌++◌ first gone ∙ take-append-drop n old,
          ok,
          subst (λ k. ((write_round (some n) w).1 ≡ again) ↔ (n ≡ k)) (sym length-offers) goes_on,
        )

-- A block with its counters reset offers all of its memory.
offered-reset :
    (b : Buffer)
    → IsValid b
    → length (offered (record b { push = 0; pop = 0; count = 0 }) none) ≡ b.capacity
unfolding offered
offered-reset b v = ground (
  arith,
  v.storage,
  v.small,
  append-nil (slice b.buffer 0 (sub32 b.capacity 0)),
  append-nil (slice b.buffer 0 (sub32 b.capacity 0) ++ []),
  length-take (sub32 b.capacity 0) b.buffer,
)

-- What the round after the last byte finds.
abbrev pub OffersStale : WriteBuffers → WriteBuffers × Round → Type 0
OffersStale w (w', round) =
    (round ≡ again)
    × (held w'.front w'.tail ≡ [])
    × (length (offered (head_of w'.front w'.tail) (next_of w'.front w'.tail)) ≡ w.tail.capacity)

-- A connection whose bytes to send lie in one block.
abbrev pub one_block : Buffer → WriteBuffers
one_block tail = record { front = []; tail = tail; size = tail.count }

-- After a round of onWrite in which writev took all bytes of a chain of one block, the loop goes
-- on with nothing left to send, and offers writev a whole block of memory, `capacity` bytes that
-- nobody asked to send.
pub write_round-OffersStale :
    (tail : Buffer)
    → IsValid tail
    → OffersStale (one_block tail) (write_round (some tail.count) (one_block tail))
unfolding write_round
write_round-OffersStale tail v = ground (arith, v.count_in, v.small, offered-reset tail v)
