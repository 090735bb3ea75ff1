-- ===== src/Pipe/Threads/Safety.antt =====
-- What holds between any two steps of the threads of a pipe.
use zephyr_server.Common.{
  ℕ, ◌+◌, ◌-◌, ◌≤◌, ◌<◌, ◌≡◌, ◌∙◌, true, false, List, ◌++◌, append-nil, leb, length, take, drop,
  slice, blit, slice-blit_self, slice-blit_after, take-append-drop, length-take, length-drop,
  length-blit, arith,
}
use native.Mathlib.Decide.{dec_le}
use zephyr_server.Pipe.{Pipe, advance, get_avail_free_len, get_free_len, get_data_len}
use zephyr_server.Pipe.Invariant.{IsValid, contents}
use zephyr_server.Pipe.Threads.{
  can_write, copy_in, header_after, can_read, data_room, copy_out, rear_after, Writer, idle,
  entered, planned, copied, Reader, waiting, accepted, aimed, taken, Threads,
}
use zephyr_server.Pipe.Threads.Segments.{dist, between, between-blit}

-- How many bytes the pipe holds.
abbrev pub held : Pipe → ℕ
held p = dist p.mem_pool_size p.rear p.header

-- `src` fits behind the bytes held, and is copied in one piece or round the end of the pool.
abbrev pub Fits : Pipe → List ℕ → Type 0
Fits p src = held p + length src < p.mem_pool_size

abbrev pub Room : ℕ → ℕ → ℕ → ℕ → Type 0
Room size at len room = (len ≤ room → at + len ≤ size) × (room < len → at + room ≡ size)

-- What a writer and a reader know of the pipe while they are in a call.
unfoldable pub Writing : Pipe → Writer → Type 0
Writing p idle = Unit {0}
Writing p (entered src) = Fits p src
Writing p (planned src room) = Fits p src × Room p.mem_pool_size p.header (length src) room
Writing p (copied src at) =
    (at < p.mem_pool_size)
    × (held p ≤ dist p.mem_pool_size p.rear at)
    × (between p.mem_pool p.mem_pool_size p.header at ≡ src)

unfoldable pub Reading : Pipe → Reader → Type 0
Reading p waiting = Unit {0}
Reading p (accepted len) = len ≤ held p
Reading p (aimed len room) = (len ≤ held p) × Room p.mem_pool_size p.rear len room
Reading p (taken out at) =
    (at < p.mem_pool_size)
    × (dist p.mem_pool_size p.rear at ≤ held p)
    × (between p.mem_pool p.mem_pool_size p.rear at ≡ out)

pub record Safe (s : Threads) : Type 0 where
  pub valid : IsValid s.pipe
  pub history : s.sent ≡ s.got ++ contents s.pipe
  pub writing : Writing s.pipe s.writer
  pub reading : Reading s.pipe s.reader

module _ (p : Pipe) (v : IsValid p) where
  pub can_write-Fits : (src : List ℕ) → can_write p (length src) ≡ true → Fits p src
  unfolding can_write get_free_len
  can_write-Fits src h = ground arith

  pub get_avail_free_len-Room :
      (src : List ℕ)
      → Fits p src
      → Room p.mem_pool_size p.header (length src) (get_avail_free_len p)
  unfolding get_avail_free_len
  get_avail_free_len-Room src f = ground arith

  pub can_read-held : (len : ℕ) → can_read p len ≡ true → len ≤ held p
  unfolding can_read get_data_len
  can_read-held len h = ground arith

  pub data_room-Room : (len : ℕ) → len ≤ held p → Room p.mem_pool_size p.rear len (data_room p)
  unfolding data_room
  data_room-Room len h = ground arith

  module _ (src : List ℕ) (room : ℕ) (f : Fits p src)
      (r : Room p.mem_pool_size p.header (length src) room) where
    pub length-copy_in : length (copy_in p src room) ≡ length p.mem_pool
    unfolding copy_in
    length-copy_in = ground (
      arith,
      length-blit p.mem_pool p.header src,
      length-blit p.mem_pool p.header (take room src),
      length-blit (blit p.mem_pool p.header (take room src)) 0 (drop room src),
    )

    -- The bytes held are not touched.
    pub between-copy_in :
        (b : ℕ)
        → b < p.mem_pool_size
        → dist p.mem_pool_size p.rear b ≤ held p
        → between (copy_in p src room) p.mem_pool_size p.rear b
          ≡ between p.mem_pool p.mem_pool_size p.rear b
    unfolding copy_in
    between-copy_in b h k = elim (dec_le (length src) room) [
      | yes w ↦ ground (arith, between-blit p.mem_pool p.mem_pool_size p.rear b p.header src)
      | no w ↦
          (let first = take room src in
            let rest = drop room src in
            let n = length-take room src in
            let m = length-drop room src in
            rw (whole_not w) (
              between-blit (blit p.mem_pool p.header first) p.mem_pool_size p.rear b 0 rest
                (λ q. ground arith) (λ q. ground arith)
              ∙ between-blit p.mem_pool p.mem_pool_size p.rear b p.header first (λ q. ground arith)
                  (λ q. ground arith)))
    ]
      where
        whole_not : ¬ (length src ≤ room) → leb (length src) room ≡ false
        whole_not w = ground arith

    -- `src` stands behind them.
    pub copy_in-between :
        between (copy_in p src room) p.mem_pool_size p.header (header_after p (length src) room)
        ≡ src
    unfolding copy_in header_after advance
    copy_in-between = elim (dec_le (length src) room) [
      | yes w ↦ ground (arith, slice-blit_self p.mem_pool p.header src (length src), append-nil src)
      | no w ↦
          (let first = take room src in
            let rest = drop room src in
            ground (
              arith,
              length-take room src,
              length-drop room src,
              length-blit p.mem_pool p.header first,
              slice-blit_after (blit p.mem_pool p.header first) 0 rest p.header room,
              slice-blit_self p.mem_pool p.header first room,
              slice-blit_self (blit p.mem_pool p.header first) 0 rest (length src - room),
              take-append-drop room src,
            ))
    ]

    pub header_after-held :
        (header_after p (length src) room < p.mem_pool_size)
        × (held p ≤ dist p.mem_pool_size p.rear (header_after p (length src) room))
    unfolding header_after advance
    header_after-held = ground arith

  module _ (len room : ℕ) (f : len ≤ held p) (r : Room p.mem_pool_size p.rear len room) where
    pub rear_after-held :
        (rear_after p len room < p.mem_pool_size)
        × (dist p.mem_pool_size p.rear (rear_after p len room) ≤ held p)
    unfolding rear_after advance
    rear_after-held = ground arith

    pub copy_out-between :
        between p.mem_pool p.mem_pool_size p.rear (rear_after p len room) ≡ copy_out p len room
    unfolding copy_out rear_after advance
    copy_out-between = ground (arith, append-nil (slice p.mem_pool p.rear len))
