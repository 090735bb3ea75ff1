-- ===== src/Pipe/Fifo.antt =====
-- What a pipe promises: a first-in first-out queue of bytes with room for `cap` of them.
use zephyr_server.Common.{
  ℕ, ◌+◌, ◌≤◌, ◌<◌, ◌≡◌, ◌⊎◌, List, [], ◌++◌, ltb, leb, if◌then◌else◌, ◌||◌, length, take, drop,
  arith,
}
use zephyr_server.Pipe.{Ret, done, out_of_mem, out_of_range}

-- All of `src` is taken or nothing; a full queue refuses also the empty write.
unfoldable pub push_all : ℕ → List ℕ → List ℕ → Ret × List ℕ
push_all cap q src =
    if leb cap (length q) || ltb cap (length q + length src)
    then (out_of_mem, q)
    else (done (length src), q ++ src)

-- The `n` oldest bytes, or nothing where there are fewer.
unfoldable pub pop_all : List ℕ → ℕ → Ret × List ℕ × List ℕ
pop_all q n = if ltb (length q) n then (out_of_range, [], q) else (done n, take n q, drop n q)

pub push_all_taken :
    (cap : ℕ) (q src : List ℕ)
    → length q < cap
    → length q + length src ≤ cap
    → push_all cap q src ≡ (done (length src), q ++ src)
unfolding push_all
push_all_taken cap q src h k = ground arith

pub push_all_refused :
    (cap : ℕ) (q src : List ℕ)
    → (cap ≤ length q) ⊎ (cap < length q + length src)
    → push_all cap q src ≡ (out_of_mem, q)
unfolding push_all
push_all_refused cap q src h = ground arith

pub pop_all_taken : (q : List ℕ) (n : ℕ) → n ≤ length q → pop_all q n ≡ (done n, take n q, drop n q)
unfolding pop_all
pop_all_taken q n h = ground arith

pub pop_all_refused : (q : List ℕ) (n : ℕ) → length q < n → pop_all q n ≡ (out_of_range, [], q)
unfolding pop_all
pop_all_refused q n h = ground arith
