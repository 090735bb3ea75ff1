-- ===== src/Pipe/Invariant.antt =====
-- When a pipe is well formed, and what it holds.
use zephyr_server.Common.{
  ℕ, ◌+◌, ◌-◌, ◌^◌, ◌≤◌, ◌<◌, ◌≡◌, List, ◌++◌, leb, if◌then◌else◌, length, slice, length-slice,
  length-append, arith,
}
use zephyr_server.Pipe.{Pipe, get_data_len, get_free_len}

-- Both offsets lie in the pool, whose size is that of its buffer and fits a `TInt32`.
pub record IsValid (p : Pipe) : Type 0 where
  pub storage : length p.mem_pool ≡ p.mem_pool_size
  pub small : p.mem_pool_size < 2 ^ 31
  pub header_in : p.header < p.mem_pool_size
  pub rear_in : p.rear < p.mem_pool_size

-- The bytes that are written and not yet read, oldest first.
abbrev pub contents : Pipe → List ℕ
contents p =
    if leb p.rear p.header
    then slice p.mem_pool p.rear (p.header - p.rear)
    else slice p.mem_pool p.rear (p.mem_pool_size - p.rear) ++ slice p.mem_pool 0 p.header

-- `GetDataLen` is the number of bytes held.
pub get_data_len-contents : {p : Pipe} → IsValid p → get_data_len p ≡ length (contents p)
unfolding get_data_len
get_data_len-contents {p} v = ground (
  arith,
  length-slice p.mem_pool p.rear (p.header - p.rear),
  length-slice p.mem_pool p.rear (p.mem_pool_size - p.rear),
  length-slice p.mem_pool 0 p.header,
  length-append (slice p.mem_pool p.rear (p.mem_pool_size - p.rear)) (slice p.mem_pool 0 p.header),
)

-- `GetDataLen` and `GetFreeLen` make up the pool, but for the one byte that is never used.
pub free_len-add-data_len :
    {p : Pipe} → IsValid p → get_free_len p + get_data_len p + 1 ≡ p.mem_pool_size
unfolding get_data_len get_free_len
free_len-add-data_len v = ground arith

-- The data lies in one piece, or in two round the end of the pool.
pub contents_flat :
    (p : Pipe) → p.rear ≤ p.header → contents p ≡ slice p.mem_pool p.rear (p.header - p.rear)
contents_flat p h = ground arith

pub contents_split :
    (p : Pipe)
    → p.header < p.rear
    → contents p ≡ slice p.mem_pool p.rear (p.mem_pool_size - p.rear) ++ slice p.mem_pool 0 p.header
contents_split p h = ground arith

-- How many bytes are held, by the offsets.
pub length-contents :
    {p : Pipe}
    → IsValid p
    → length (contents p)
      ≡ (if leb p.rear p.header then p.header - p.rear else p.mem_pool_size - p.rear + p.header)
unfolding get_data_len
length-contents v = ground (arith, get_data_len-contents v)
