-- ===== src/Pipe/Threads.antt =====
-- A pipe with its writer's thread and its reader's thread: `WriteData` and `ReadData` taken apart at
-- the loads of the other thread's offset and at the store of their own (Public/source/Pipe.cpp). Each
-- thread alone stores to its offset. The copying of the bytes is one step; nothing is stored by the
-- other thread to the cells that it touches.
pub mod Segments
pub mod Stages
pub mod Safety
pub mod Interleavings
mod Tests
use zephyr_server.Common.{
  ℕ, ◌-◌, ◌≡◌, Bool, true, false, not, List, [], ◌++◌, ltb, leb, ◌==◌, if◌then◌else◌, ◌||◌, length,
  take, drop, slice, blit, sub32, is_negative,
}
use zephyr_server.Pipe.{Pipe, advance, get_free_len, get_avail_free_len, get_data_len}

-- `WriteData`: the tests of `freeLen`.
pub can_write : Pipe → ℕ → Bool
can_write p len =
    let free_len = get_free_len p in
    not ((is_negative free_len || free_len == 0) || ltb free_len len)

-- What the `memcpy` of `WriteData` leave in the pool, and the value stored to `m_pHeader`, for the
-- `freeLen` of the second load of `m_pRear`.
pub copy_in : Pipe → List ℕ → ℕ → List ℕ
copy_in p src room =
    if leb (length src) room
    then blit p.mem_pool p.header src
    else blit (blit p.mem_pool p.header (take room src)) 0 (drop room src)

pub header_after : Pipe → ℕ → ℕ → ℕ
header_after p len room = if leb len room then advance p p.header len else len - room

-- `ReadData`: the test of the first `dataLen`, and the second one.
pub can_read : Pipe → ℕ → Bool
can_read p len = not (ltb (get_data_len p) len)

pub data_room : Pipe → ℕ
data_room p = if ltb p.rear p.header then p.header - p.rear else sub32 p.mem_pool_size p.rear

-- What the `memcpy` of `ReadData` copy out, and the value stored to `m_pRear`.
pub copy_out : Pipe → ℕ → ℕ → List ℕ
copy_out p len room =
    if leb len room
    then slice p.mem_pool p.rear len
    else slice p.mem_pool p.rear room ++ slice p.mem_pool 0 (len - room)

pub rear_after : Pipe → ℕ → ℕ → ℕ
rear_after p len room = if leb len room then advance p p.rear len else len - room

-- How far the writer is: outside of `WriteData`, past its tests, past the second load of `m_pRear`,
-- or past the copying and about to store to `m_pHeader`.
pub data Writer : Type 0 where
  idle : Writer
  entered : List ℕ → Writer
  planned : List ℕ → ℕ → Writer
  copied : List ℕ → ℕ → Writer

-- How far the reader is, likewise; `taken` has the bytes it copied and what it is to store.
pub data Reader : Type 0 where
  waiting : Reader
  accepted : ℕ → Reader
  aimed : ℕ → ℕ → Reader
  taken : List ℕ → ℕ → Reader

-- The pipe, both threads, and all bytes written and read by the calls that have ended.
pub record Threads : Type 0 where
  pub pipe : Pipe
  pub writer : Writer
  pub reader : Reader
  pub sent : List ℕ
  pub got : List ℕ

pub data Step (s : Threads) : Threads → Type 0 where
  refuse_write : (src : List ℕ) → s.writer ≡ idle → can_write s.pipe (length src) ≡ false → Step s s
  enter_write :
      (src : List ℕ)
      → s.writer ≡ idle
      → can_write s.pipe (length src) ≡ true
      → Step s (record s { writer = entered src })
  load_rear :
      (src : List ℕ)
      → s.writer ≡ entered src
      → Step s (record s { writer = planned src (get_avail_free_len s.pipe) })
  fill_pool :
      (src : List ℕ) (room : ℕ)
      → s.writer ≡ planned src room
      → Step s (record s {
        pipe = record s.pipe { mem_pool = copy_in s.pipe src room };
        writer = copied src (header_after s.pipe (length src) room);
      })
  store_header :
      (src : List ℕ) (at : ℕ)
      → s.writer ≡ copied src at
      → Step s
          (record s { pipe = record s.pipe { header = at }; writer = idle; sent = s.sent ++ src })
  refuse_read : (len : ℕ) → s.reader ≡ waiting → can_read s.pipe len ≡ false → Step s s
  enter_read :
      (len : ℕ)
      → s.reader ≡ waiting
      → can_read s.pipe len ≡ true
      → Step s (record s { reader = accepted len })
  load_header :
      (len : ℕ)
      → s.reader ≡ accepted len
      → Step s (record s { reader = aimed len (data_room s.pipe) })
  take_bytes :
      (len room : ℕ)
      → s.reader ≡ aimed len room
      → Step s (record s { reader = taken (copy_out s.pipe len room) (rear_after s.pipe len room) })
  store_rear :
      (out : List ℕ) (at : ℕ)
      → s.reader ≡ taken out at
      → Step s
          (record s { pipe = record s.pipe { rear = at }; reader = waiting; got = s.got ++ out })

-- Any interleaving of the two threads over a pipe that both have left alone so far.
abbrev pub started : Pipe → List ℕ → Threads
started p held = record { pipe = p; writer = idle; reader = waiting; sent = held; got = [] }

pub data Reach (s : Threads) : Threads → Type 0 where
  here : Reach s s
  later : {t u : Threads} → Reach s t → Step t u → Reach s u
