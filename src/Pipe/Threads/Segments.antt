-- ===== src/Pipe/Threads/Segments.antt =====
-- Stretches of the ring of bytes, from one offset on to another.
use zephyr_server.Common.{
  ℕ, ◌+◌, ◌-◌, ◌≤◌, ◌<◌, ◌≡◌, ◌⊎◌, List, ◌++◌, append_assoc, leb, if◌then◌else◌, length, slice,
  blit, slice-append, slice-blit_before, slice-blit_after, length-slice, length-append, arith,
}
use native.Mathlib.Decide.{dec_le}

-- How many bytes lie from offset `a` on to offset `b`, in a ring of `size` bytes, and which.
abbrev pub dist : ℕ → ℕ → ℕ → ℕ
dist size a b = if leb a b then b - a else size - a + b

abbrev pub between : List ℕ → ℕ → ℕ → ℕ → List ℕ
between mem size a b =
    if leb a b then slice mem a (b - a) else slice mem a (size - a) ++ slice mem 0 b

pub length-between :
    (mem : List ℕ) (size a b : ℕ)
    → length mem ≡ size
    → a < size
    → b < size
    → length (between mem size a b) ≡ dist size a b
length-between mem size a b e h k = ground (
  arith,
  length-slice mem a (b - a),
  length-slice mem a (size - a),
  length-slice mem 0 b,
  length-append (slice mem a (size - a)) (slice mem 0 b),
)

-- A stretch is cut in two at an offset on it.
pub between-append :
    (mem : List ℕ) (size a m b : ℕ)
    → a < size
    → m < size
    → b < size
    → dist size a m ≤ dist size a b
    → between mem size a b ≡ between mem size a m ++ between mem size m b
between-append mem size a m b ha hm hb h = elim (dec_le a b) [
  | yes flat ↦ ground (arith, slice-append mem a (m - a) (b - m) m (b - a))
  | no split ↦ elim (dec_le a m) [
    | yes first ↦ ground (
      arith,
      slice-append mem a (m - a) (size - m) m (size - a),
      append_assoc (slice mem a (m - a)) (slice mem m (size - m)) (slice mem 0 b),
    )
    | no second ↦ ground (
      arith,
      slice-append mem 0 m (b - m) m b,
      append_assoc (slice mem a (size - a)) (slice mem 0 m) (slice mem m (b - m)),
    )
  ]
]

-- What is copied outside of a stretch does not change it.
pub between-blit :
    (mem : List ℕ) (size a b at : ℕ) (ys : List ℕ)
    → (a ≤ b → (b ≤ at) ⊎ (at + length ys ≤ a))
    → (b < a → (b ≤ at) × (at + length ys ≤ a))
    → between (blit mem at ys) size a b ≡ between mem size a b
between-blit mem size a b at ys f g = elim (dec_le a b) [
  | yes flat ↦
      ground (arith, slice-blit_before mem at ys a (b - a), slice-blit_after mem at ys a (b - a))
  | no split ↦
      ground (arith, slice-blit_after mem at ys a (size - a), slice-blit_before mem at ys 0 b)
]
