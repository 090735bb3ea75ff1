-- ===== src/Pipe/Reading.antt =====
-- `ReadData` against the queue.
use zephyr_server.Common.{
  ℕ, ◌+◌, ◌-◌, ◌≤◌, ◌<◌, ◌≡◌, refl, sym, ◌∙◌, List, [], ◌++◌, append_assoc, length, slice,
  take-drop_of_append, length-append, length-slice, slice-append, arith,
}
use native.Mathlib.Decide.{dec_le, dec_lt}
use zephyr_server.Pipe.{Pipe, done, out_of_range, advance, read_data}
use zephyr_server.Pipe.Invariant.{IsValid, contents, length-contents, get_data_len-contents}
use zephyr_server.Pipe.Fifo.{pop_all, pop_all_taken, pop_all_refused}

-- The pipe after `len` bytes behind `rear` have been passed.
abbrev pub passed : Pipe → ℕ → Pipe
passed p len = record p { rear = advance p p.rear len }

-- The bytes from `rear` to the writer or to the end of the pool.
abbrev pub Ahead : Pipe → ℕ → Type 0
Ahead p len = (p.rear ≤ p.header → p.rear + len ≤ p.header) × (p.rear + len ≤ p.mem_pool_size)

module _ {p : Pipe} (len : ℕ) (v : IsValid p) (a : Ahead p len) where
  -- One piece is passed: what stood there and what is left make up the old contents.
  pub passed-contents : contents p ≡ slice p.mem_pool p.rear len ++ contents (passed p len)
  unfolding advance
  passed-contents = elim (dec_le p.rear p.header) [
    | yes flat ↦ ground (
      arith,
      slice-append p.mem_pool p.rear len (p.header - p.rear - len) (p.rear + len)
          (p.header - p.rear),
    )
    | no split ↦ ground (
      arith,
      slice-append p.mem_pool p.rear len (p.mem_pool_size - p.rear - len) (p.rear + len)
          (p.mem_pool_size - p.rear),
      append_assoc (slice p.mem_pool p.rear len)
          (slice p.mem_pool (p.rear + len) (p.mem_pool_size - p.rear - len))
          (slice p.mem_pool 0 p.header),
    )
  ]

  pub passed-IsValid : IsValid (passed p len)
  unfolding advance
  passed-IsValid = ground arith

-- The pipe after the bytes up to the end of the pool and some at its start have been passed.
abbrev passed_round : Pipe → ℕ → Pipe
passed_round p rest = record p { rear = rest }

module _ {p : Pipe} (room rest : ℕ) (v : IsValid p) (split : p.header < p.rear)
    (all : p.rear + room ≡ p.mem_pool_size) (some_left : rest ≤ p.header) where
  passed_round-contents :
      contents p
      ≡ (slice p.mem_pool p.rear room ++ slice p.mem_pool 0 rest) ++ contents (passed_round p rest)
  passed_round-contents = ground (
    arith,
    slice-append p.mem_pool 0 rest (p.header - rest) rest p.header,
    append_assoc (slice p.mem_pool p.rear room) (slice p.mem_pool 0 rest)
        (slice p.mem_pool rest (p.header - rest)),
  )

  passed_round-IsValid : IsValid (passed_round p rest)
  passed_round-IsValid = ground arith

-- Which of its three ways `ReadData` takes.
module _ {p : Pipe} (len : ℕ) (v : IsValid p) where
  read_data_refused : length (contents p) < len → read_data p len ≡ (out_of_range, [], p)
  unfolding read_data
  read_data_refused h = ground (arith, get_data_len-contents v)

  read_data_whole :
      len ≤ length (contents p)
      → Ahead p len
      → read_data p len ≡ (done len, slice p.mem_pool p.rear len, passed p len)
  unfolding read_data
  read_data_whole h a = ground (arith, get_data_len-contents v)

  read_data_round :
      len ≤ length (contents p)
      → p.header < p.rear
      → p.mem_pool_size < p.rear + len
      → let room = p.mem_pool_size - p.rear in
        read_data p len ≡ (
          done len,
          slice p.mem_pool p.rear room ++ slice p.mem_pool 0 (len - room),
          passed_round p (len - room),
        )
  unfolding read_data
  read_data_round h s a = ground (arith, get_data_len-contents v)

-- A read of bytes that are there returns the oldest of them, and leaves the others.
read_data_accepted :
    {p : Pipe} (len : ℕ)
    → IsValid p
    → len ≤ length (contents p)
    → let (r, out, p') = read_data p len in
      (r ≡ done len) × (contents p ≡ out ++ contents p') × (length out ≡ len) × IsValid p'
read_data_accepted {p} len v h = elim (dec_lt p.mem_pool_size (p.rear + len)) [
  | no w ↦ rw (read_data_whole len v h (near w)) (
    refl,
    passed-contents len v (near w),
    length-slice p.mem_pool p.rear len (omega arith),
    passed-IsValid len v (near w),
  )
  | yes w ↦ rw (read_data_round len v h (beyond w) w) (
    refl,
    passed_round-contents room (len - room) v (beyond w) (omega arith) (rest w),
    length_out w,
    passed_round-IsValid room (len - room) v (beyond w) (omega arith) (rest w),
  )
]
  where
    room : ℕ
    room = p.mem_pool_size - p.rear

    near : ¬ (p.mem_pool_size < p.rear + len) → Ahead p len
    near w = ground (arith, length-contents v)

    beyond : p.mem_pool_size < p.rear + len → p.header < p.rear
    beyond w = ground (arith, length-contents v)

    rest : p.mem_pool_size < p.rear + len → len - room ≤ p.header
    rest w = ground (arith, length-contents v)

    length_out :
        p.mem_pool_size < p.rear + len
        → length (slice p.mem_pool p.rear room ++ slice p.mem_pool 0 (len - room)) ≡ len
    length_out w = ground (
      arith,
      rest w,
      length-append (slice p.mem_pool p.rear room) (slice p.mem_pool 0 (len - room)),
      length-slice p.mem_pool p.rear room,
      length-slice p.mem_pool 0 (len - room),
    )

-- `ReadData` does to a valid pipe what `pop_all` does to the queue that it holds, with the same
-- result and bytes, and leaves it valid: the oldest bytes come out, or none where there are fewer.
pub read_data_refines :
    {p : Pipe} (len : ℕ)
    → IsValid p
    → let (r, out, p') = read_data p len in
      ((r, out, contents p') ≡ pop_all (contents p) len) × IsValid p'
read_data_refines {p} len v = elim (dec_lt (length q) len) [
  | yes h ↦ rw (read_data_refused len v h) (sym (pop_all_refused q len h), v)
  | no h ↦
      let (r, c, n, v') = read_data_accepted len v (omega arith) in
      let (t, d) = take-drop_of_append len q _ _ c (sym n) in
      ((λ i. (r i, sym t i, sym d i)) ∙ sym (pop_all_taken q len (omega arith)), v')
]
  where
    q : List ℕ
    q = contents p
