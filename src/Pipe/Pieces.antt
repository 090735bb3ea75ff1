-- ===== src/Pipe/Pieces.antt =====
-- The pieces that the calls hand out, as parts of the queue that a pipe holds.
use zephyr_server.Common.{
  ℕ, ◌≤◌, ◌<◌, ◌≡◌, refl, ap, ◌∙◌, sym, false, some, ltb, length, slice, length-slice, take, drop,
  take-drop_of_append, arith,
}
use zephyr_server.Pipe.{Pipe, get_data_len, get_data, read_data, return_msg_buff}
use zephyr_server.Pipe.Invariant.{IsValid, contents, length-contents, get_data_len-contents}
use zephyr_server.Pipe.Fifo.{pop_all_taken}
use zephyr_server.Pipe.Reading.{read_data_refines}
use zephyr_server.Pipe.ZeroCopy.{get_data_piece_at, get_data-return}

-- `GetData` hands out a piece where there are as many bytes as it is asked for.
pub get_data_there :
    {p : Pipe} (n : ℕ)
    → IsValid p
    → n ≤ length (contents p)
    → (at : ℕ) × (piece : ℕ) × (get_data p n ≡ (some at, piece))
unfolding get_data
get_data_there {p} n v h =
    let e : ltb (get_data_len p) n ≡ false = ground (arith, get_data_len-contents v) in
    rw e (_, _, refl)

-- The oldest bytes, where they lie in one piece, and what is left when they are returned.
pub get_data_oldest :
    {p : Pipe} (want n at piece : ℕ)
    → IsValid p
    → get_data p want ≡ (some at, piece)
    → n ≤ piece
    → (slice p.mem_pool at n ≡ take n (contents p))
      × (contents (return_msg_buff p at n).1 ≡ drop n (contents p))
      × IsValid (return_msg_buff p at n).1
      × (n ≤ length (contents p))
get_data_oldest {p} want n at piece v got whole =
    let (_, c, v') = get_data-return want at piece n v got whole in
    let (here, enough, ahead) = get_data_piece_at want at piece n v got whole in
    let fits : length (slice p.mem_pool at n) ≡ n =
      length-slice p.mem_pool at n (omega (arith, v.storage, ahead.1)) in
    let (t, d) = take-drop_of_append n (contents p) _ _ c (sym fits) in
    (sym t, sym d, v', omega (arith, get_data_len-contents v))

-- `GetData` of as much as there is hands out a piece, also of an empty or broken pipe.
pub get_data_own :
    (p : Pipe) → (at : ℕ) × (piece : ℕ) × (get_data p (get_data_len p) ≡ (some at, piece))
unfolding get_data
get_data_own p =
    let e : ltb (get_data_len p) (get_data_len p) ≡ false = ground arith in rw e (_, _, refl)

-- A piece is empty only where the pipe is.
pub get_data_nonempty :
    {p : Pipe} (want at piece : ℕ)
    → IsValid p
    → get_data p want ≡ (some at, piece)
    → 0 < length (contents p)
    → 0 < piece
unfolding get_data get_data_len
get_data_nonempty {p} want at piece v got h = ground (arith, length-contents v)

-- `ReadData` of bytes that are there.
pub read_data_there :
    {p : Pipe} (n : ℕ)
    → IsValid p
    → n ≤ length (contents p)
    → ((read_data p n).1 ≡ take n (contents p))
      × (contents (read_data p n).2 ≡ drop n (contents p))
      × IsValid (read_data p n).2
read_data_there {p} n v h =
    let (e, v') = read_data_refines n v in
    let e' = e ∙ pop_all_taken (contents p) n h in (ap (λ r. r.1) e', ap (λ r. r.2) e', v')
