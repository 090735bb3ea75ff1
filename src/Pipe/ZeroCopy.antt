-- ===== src/Pipe/ZeroCopy.antt =====
-- The calls that hand out pointers into the pool: `PrepareMsg` and `ConfirmAddMsg`, `GetData` and
-- `ReturnMsgBuff`, `Peek`, `IsInPipe`; and the two `Init`.
use mathlib.Core.Option
use zephyr_server.Common.{
  ℕ, ◌+◌, ◌-◌, ◌^◌, ◌≤◌, ◌<◌, ◌≡◌, refl, subst, ◌↔◌, true, Option, none, some, List, ◌++◌, length,
  take, slice, length-slice, take-slice, take-append_over, take-append_within, u32_mod, arith,
}
use native.Mathlib.Decide.{dec_le}
use zephyr_server.Pipe.{
  Pipe, done, advance, fill, prepare_msg, confirm_add_msg, get_data, return_msg_buff, get_data_len,
  Peeked, in_place, copied, peek, is_in_pipe, init_with, init, min_pipe_length, init_size,
}
use zephyr_server.Pipe.Invariant.{
  IsValid, contents, length-contents, get_data_len-contents, free_len-add-data_len,
}
use zephyr_server.Pipe.Writing.{placed, placed-contents, placed-IsValid}
use zephyr_server.Pipe.Reading.{Ahead, passed, passed-contents, passed-IsValid}

-- What `PrepareMsg` hands out: a piece at the writer's offset, inside the pool, and free.
prepare_msg_piece :
    {p : Pipe} (want at len : ℕ)
    → IsValid p
    → prepare_msg p want ≡ (some at, len)
    → (at ≡ p.header)
      × (p.header + len ≤ p.mem_pool_size)
      × (length (contents p) + len < p.mem_pool_size)
unfolding prepare_msg
prepare_msg_piece {p} want at len v e =
    ground (arith, get_data_len-contents v, free_len-add-data_len v, length-contents v)

confirm_add_msg-fill :
    (p : Pipe) (src : List ℕ)
    → confirm_add_msg (fill p p.header src) p.header (length src) ≡ (done 0, placed p src)
unfolding confirm_add_msg fill advance
confirm_add_msg-fill p src = ground arith

-- What `PrepareMsg` hands out may be filled with any `src` that is no longer than the piece:
-- `ConfirmAddMsg` then succeeds and has appended `src` to the contents of a valid pipe.
pub prepare-confirm :
    {p : Pipe} (want at len : ℕ) (src : List ℕ)
    → IsValid p
    → prepare_msg p want ≡ (some at, len)
    → length src ≤ len
    → let (r, p') = confirm_add_msg (fill p at src) at (length src) in
      (r ≡ done 0) × (contents p' ≡ contents p ++ src) × IsValid p'
prepare-confirm {p} want at len src v e h =
    let (here, fits, free) = prepare_msg_piece want at len v e in
    rw (here, confirm_add_msg-fill p src)
      (refl, placed-contents src v (omega arith) (omega arith), placed-IsValid src v (omega arith))

-- `PrepareMsg` refuses exactly what is longer than the free space.
pub prepare_msg_refuses :
    {p : Pipe} (want : ℕ)
    → IsValid p
    → ((prepare_msg p want).0 ≡ none) ↔ (p.mem_pool_size ≤ length (contents p) + want)
unfolding prepare_msg
prepare_msg_refuses want v = ground (arith, get_data_len-contents v, free_len-add-data_len v)

pub get_data_piece_at :
    {p : Pipe} (want at len n : ℕ)
    → IsValid p
    → get_data p want ≡ (some at, len)
    → n ≤ len
    → (at ≡ p.rear) × (n ≤ get_data_len p) × Ahead p n
unfolding get_data
get_data_piece_at {p} want at len n v e h =
    ground (arith, get_data_len-contents v, length-contents v)

return_msg_buff_passes :
    (p : Pipe) (n : ℕ) → n ≤ get_data_len p → return_msg_buff p p.rear n ≡ (done 0, passed p n)
unfolding return_msg_buff
return_msg_buff_passes p n h = ground arith

-- The piece that `GetData` hands out holds the oldest bytes, and any `n` of them can be handed back
-- by `ReturnMsgBuff`: it succeeds, and leaves a valid pipe with the other bytes.
pub get_data-return :
    {p : Pipe} (want at len n : ℕ)
    → IsValid p
    → get_data p want ≡ (some at, len)
    → n ≤ len
    → let (r, p') = return_msg_buff p at n in
      (r ≡ done 0) × (contents p ≡ slice p.mem_pool at n ++ contents p') × IsValid p'
get_data-return {p} want at len n v e h =
    let (here, enough, a) = get_data_piece_at want at len n v e h in
    rw (here, return_msg_buff_passes p n enough) (refl, passed-contents n v a, passed-IsValid n v a)

-- The `len` bytes that a caller of `Peek` reads.
abbrev pub shown : Pipe → ℕ → Peeked → List ℕ
shown p len (in_place at) = slice p.mem_pool at len
shown p len (copied bytes) = bytes

-- What `Peek` shows are the `len` oldest bytes, and it shows them where there are that many.
pub peek_shows :
    {p : Pipe} (len : ℕ)
    → IsValid p
    → len ≤ length (contents p)
    → Option.map (shown p len) (peek p len) ≡ some (take len (contents p))
unfolding peek
peek_shows {p} len v h = elim (dec_le p.rear p.header) [
  | yes flat ↦ ground (
    arith,
    get_data_len-contents v,
    length-contents v,
    take-slice p.mem_pool p.rear len (p.header - p.rear),
  )
  | no split ↦ ground (
    arith,
    get_data_len-contents v,
    length-contents v,
    length-slice p.mem_pool p.rear room,
    length-slice p.mem_pool 0 p.header,
    take-append_within len (slice p.mem_pool p.rear room) (slice p.mem_pool 0 p.header),
    take-append_over len (slice p.mem_pool p.rear room) (slice p.mem_pool 0 p.header),
    take-slice p.mem_pool p.rear len room,
    take-slice p.mem_pool 0 (len - room) p.header,
  )
]
  where
    room : ℕ
    room = p.mem_pool_size - p.rear

-- `ReturnMsgBuff` checks the length against all data, not against the piece at the reader: a caller
-- that returns more than the piece up to the end of the pool moves the reader out of the pool.
pub return_msg_buff_overrun :
    {p : Pipe} (n : ℕ)
    → IsValid p
    → n ≤ length (contents p)
    → p.mem_pool_size < p.rear + n
    → let (r, p') = return_msg_buff p p.rear n in (r ≡ done 0) × (p'.mem_pool_size < p'.rear)
unfolding return_msg_buff advance
return_msg_buff_overrun n v h k = ground (arith, get_data_len-contents v)

-- `IsInPipe` holds of every address, in the pool or not.
pub is_in_pipe_always : (p : Pipe) (base addr : ℕ) → is_in_pipe p base addr ≡ true
unfolding is_in_pipe
is_in_pipe_always p base addr = ground arith

-- What `init_with` leaves is empty, and valid where the block has the size.
init_with-IsValid :
    (buff : List ℕ) (size : ℕ) (p : Pipe)
    → length buff ≡ size
    → 0 < size
    → size < 2 ^ 31
    → let p' = (init_with (some buff) size p).1 in
      IsValid p' × (length (contents p') ≡ 0) × (p'.mem_pool_size ≡ size)
unfolding init_with
init_with-IsValid buff size p h k l = (omega arith, refl, refl)

init_size_bounds : (n : ℕ) → n < u32_mod → (min_pipe_length ≤ init_size n) × (init_size n < 2 ^ 31)
unfolding init_size
init_size_bounds n h = ground arith

init_done :
    (alloc : ℕ → Option (List ℕ)) (addr n : ℕ) (p p' : Pipe)
    → init alloc addr n p ≡ (done 0, p')
    → (buff : List ℕ) × (alloc (init_size n) ≡ some buff)
      × ((init_with (some buff) (init_size n) p).1 ≡ p')
unfolding init
init_done alloc addr n p p' e = ground arith

-- `Init` makes a valid, empty pipe of the size asked for, of at least the least size, wherever the
-- address is aligned and `alloc` yields a block of the size asked for.
pub init-IsValid :
    (alloc : ℕ → Option (List ℕ)) (addr pipe_size : ℕ) (p p' : Pipe)
    → ((n : ℕ) (buff : List ℕ) → alloc n ≡ some buff → length buff ≡ n)
    → pipe_size < u32_mod
    → init alloc addr pipe_size p ≡ (done 0, p')
    → IsValid p' × (length (contents p') ≡ 0) × (p'.mem_pool_size ≡ init_size pipe_size)
init-IsValid alloc addr pipe_size p p' sized small e =
    let (buff, got, made) = init_done alloc addr pipe_size p p' e in
    let size = init_size pipe_size in
    let (low, high) = init_size_bounds pipe_size small in
    subst (λ r. IsValid r × (length (contents r) ≡ 0) × (r.mem_pool_size ≡ size)) made
      (init_with-IsValid buff size p (sized size buff got) (omega arith) high)
