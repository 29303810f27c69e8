-- ===== src/Net/Buffer/Contents.antt =====
-- What copies out of a block, and changes of its counters, mean for the bytes that it holds.
use libiak.Prelude.{ℕ, ◌+◌, ◌-◌, ◌≤◌, ◌≡◌, sym, ap, ◌∙◌, take, drop, length, get_or, arith}
use libiak.Net.Buffer.{Buffer, IsValid, at, window, contents, slice}
use libiak.Net.Buffer.Window.{length-window, window_ext, drop-window, take-window, slice-window}

pub length-contents : (b : Buffer) → length (contents b) ≡ b.count
length-contents b = length-window (at b) b.pop b.count

-- A copy out of the block before its end.
pub slice-at :
    (b : Buffer) (p n : ℕ) → IsValid b → p + n ≤ b.capacity → slice b.buffer p n ≡ window (at b) p n
slice-at b p n v h =
    slice-window b.buffer p n (omega arith)
    ∙ window_ext (λ i. get_or b.buffer i 0) (at b) p p n (λ i lt. ground arith)

-- A copy from the begin of the block is the window that starts one capacity later.
pub slice-at_wrapped :
    (b : Buffer) (p n q : ℕ)
    → IsValid b
    → q ≡ b.capacity + p
    → p + n ≤ b.capacity
    → slice b.buffer p n ≡ window (at b) q n
slice-at_wrapped b p n q v e h =
    slice-window b.buffer p n (omega arith)
    ∙ window_ext (λ i. get_or b.buffer i 0) (at b) p q n
        (λ i lt. let back : q + i - b.capacity ≡ p + i = omega arith in ground (arith, back))

-- One round of the block further the bytes are the same.
pub window_wrapped :
    (b : Buffer) (p n q : ℕ)
    → q ≡ b.capacity + p
    → p + n ≤ b.capacity
    → window (at b) q n ≡ window (at b) p n
window_wrapped b p n q e h =
    window_ext (at b) (at b) q p n
      (λ i lt. let back : q + i - b.capacity ≡ p + i = omega arith in ground (arith, back))

pub take-contents : (b : Buffer) (k : ℕ) → k ≤ b.count → take k (contents b) ≡ window (at b) b.pop k
take-contents b k h = take-window (at b) k b.pop b.count h

pub drop-contents :
    (b : Buffer) (k : ℕ) → drop k (contents b) ≡ window (at b) (b.pop + k) (b.count - k)
drop-contents b k = drop-window (at b) k b.pop b.count

-- A block that is read from its begin.
pub slice-contents :
    (b : Buffer) (n : ℕ)
    → IsValid b
    → b.pop ≡ 0
    → n ≤ b.count
    → slice b.buffer 0 n ≡ take n (contents b)
slice-contents b n v e h =
    slice-at b 0 n v (omega (arith, v.count_in))
    ∙ ap (λ p. window (at b) p n) (sym e)
    ∙ sym (take-contents b n h)
