-- ===== src/Pipe.antt =====
-- The byte pipe between two threads: `CPipe` (Public/include/Pipe.h, Public/source/Pipe.cpp).
-- A pointer into the pool is its offset from `m_pMemPool`; the `_DEBUG` branches are left out.
-- An operation that changes the pipe returns the new pipe beside its result.
pub mod Invariant
pub mod Fifo
pub mod Writing
pub mod Reading
pub mod Sessions
pub mod ZeroCopy
pub mod Pieces
pub mod Threads
mod Tests
use zephyr_server.Common.{
  ℕ, ◌+◌, ◌-◌, ◌*◌, ◌%◌, Bool, true, false, Option, none, some, List, [], ◌++◌, ltb, leb, ◌==◌,
  if◌then◌else◌, ◌&&◌, ◌||◌, length, take, drop, slice, blit, sub32, is_negative,
}

-- `MIN_PIPE_LENGTH`
abbrev pub min_pipe_length : ℕ
min_pipe_length = 128 * 4

-- The `TInt32` results of the methods: a count (`SUCCESS` is `done 0`) or an error code.
pub data Ret : Type 0 where
  done : ℕ → Ret
  fail out_of_mem input_para_error out_of_range mem_not_aligned : Ret

pub record Pipe : Type 0 where
  pub mem_pool : List ℕ
  pub header : ℕ
  pub rear : ℕ
  pub mem_pool_size : ℕ

-- The default constructor.
pub null_pipe : Pipe
null_pipe = record { mem_pool = []; header = 0; rear = 0; mem_pool_size = 0 }

-- `Init(TUChar *pBuff,TInt32 pipeSize)`, with `none` for a null buffer.
pub init_with : Option (List ℕ) → ℕ → Pipe → Ret × Pipe
init_with none size p = (out_of_mem, record p { mem_pool = [] })
init_with (some buff) size p =
    (done 0, record { mem_pool = buff; header = 0; rear = 0; mem_pool_size = size })

-- The size that `Init` takes for `pipeSize`, a `TInt32`.
pub init_size : ℕ → ℕ
init_size pipe_size =
    if is_negative pipe_size || ltb pipe_size min_pipe_length then min_pipe_length else pipe_size

-- `Init(TInt32 pipeSize)`: `addr` is the address of the pipe, a pointer takes 4 bytes, and
-- `alloc` stands for `new TUChar[]`.
pub init : (ℕ → Option (List ℕ)) → ℕ → ℕ → Pipe → Ret × Pipe
unfolding init_with
init alloc addr pipe_size p =
    let size = init_size pipe_size in
    if addr % 4 == 0 then init_with (alloc size) size p else (mem_not_aligned, p)

pub reset : Pipe → Pipe
reset p = record p { header = 0; rear = 0 }

pub get_data_len : Pipe → ℕ
get_data_len p =
    if leb p.rear p.header then p.header - p.rear else sub32 p.mem_pool_size (p.rear - p.header)

-- The `TInt32` result as a 32-bit pattern.
pub get_free_len : Pipe → ℕ
get_free_len p =
    if ltb p.header p.rear
    then p.rear - p.header - 1
    else sub32 (sub32 p.mem_pool_size (p.header - p.rear)) 1

pub get_avail_free_len : Pipe → ℕ
get_avail_free_len p =
    if ltb p.header p.rear then p.rear - p.header else sub32 p.mem_pool_size p.header

-- How many contiguous pieces the data lies in.
pub get_data_piece : Pipe → ℕ
get_data_piece p =
    if p.header == p.rear
    then 0
    else if ltb p.rear p.header
    then 1
    else if p.header == 0
    then 1
    else 2

-- An offset moved on by `len`, back to the start of the pool at its end.
pub advance : Pipe → ℕ → ℕ → ℕ
advance p at len = if at + len == p.mem_pool_size then 0 else at + len

-- `WriteData`: `src` is what `pSrc` points to, its length the argument `len`.
pub write_data : Pipe → List ℕ → Ret × Pipe
write_data p src =
    let len = length src in
    let free_len = get_free_len p in
    let room = get_avail_free_len p in
    let here = record p {
      mem_pool = blit p.mem_pool p.header src;
      header = advance p p.header len;
    } in
    let first = blit p.mem_pool p.header (take room src) in
    let round = record p { mem_pool = blit first 0 (drop room src); header = len - room } in
    if is_negative free_len || free_len == 0
    then (out_of_mem, p)
    else if ltb free_len len
    then (out_of_mem, p)
    else if leb len room
    then (done len, here)
    else (done len, round)

-- `ReadData`: the list is what is copied to `pTo`.
pub read_data : Pipe → ℕ → Ret × List ℕ × Pipe
read_data p len =
    let room = if ltb p.rear p.header then p.header - p.rear else sub32 p.mem_pool_size p.rear in
    let here = record p { rear = advance p p.rear len } in
    let round = record p { rear = len - room } in
    if ltb (get_data_len p) len
    then (out_of_range, [], p)
    else if leb len room
    then (done len, slice p.mem_pool p.rear len, here)
    else (done len, slice p.mem_pool p.rear room ++ slice p.mem_pool 0 (len - room), round)

-- `PrepareMsg`: the pointer and the new value of the reference `len`.
pub prepare_msg : Pipe → ℕ → Option ℕ × ℕ
prepare_msg p len =
    let free_len = get_free_len p in
    let room =
      if ltb p.header p.rear then p.rear - p.header - 1 else sub32 p.mem_pool_size p.header in
    if ltb free_len len
    then (none, 0)
    else (some p.header, if ltb free_len room then free_len else room)

-- `ConfirmAddMsg`
pub confirm_add_msg : Pipe → ℕ → ℕ → Ret × Pipe
confirm_add_msg p mem len =
    if mem == p.header then (done 0, record p { header = advance p p.header len }) else (fail, p)

-- What the caller of `PrepareMsg` does with the piece it got before it confirms.
pub fill : Pipe → ℕ → List ℕ → Pipe
fill p mem src = record p { mem_pool = blit p.mem_pool mem src }

-- `GetData`: the pointer and the new value of the reference `len`.
pub get_data : Pipe → ℕ → Option ℕ × ℕ
get_data p len =
    if ltb (get_data_len p) len
    then (none, len)
    else (some p.rear, if leb p.rear p.header then p.header - p.rear else p.mem_pool_size - p.rear)

-- `ReturnMsgBuff`
pub return_msg_buff : Pipe → ℕ → ℕ → Ret × Pipe
return_msg_buff p msg len =
    if ltb (get_data_len p) len
    then (input_para_error, p)
    else if msg == p.rear
    then (done 0, record p { rear = advance p p.rear len })
    else (done 0, p)

-- `Peek` returns a pointer into the pool, or its argument `pBuffer` with the bytes copied there.
pub data Peeked : Type 0 where
  in_place : ℕ → Peeked
  copied : List ℕ → Peeked

pub peek : Pipe → ℕ → Option Peeked
peek p len =
    let room = p.mem_pool_size - p.rear in
    let joined = slice p.mem_pool p.rear room ++ slice p.mem_pool 0 (len - room) in
    if ltb (get_data_len p) len
    then none
    else if leb p.rear p.header
    then (if leb len (p.header - p.rear) then some (in_place p.rear) else none)
    else if leb len room
    then some (in_place p.rear)
    else some (copied joined)

-- `IsInPipe`, for the address of a byte and that of the pool.
pub is_in_pipe : Pipe → ℕ → ℕ → Bool
is_in_pipe p base addr = if ltb addr base && leb (base + p.mem_pool_size) addr then false else true
