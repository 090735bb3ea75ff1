-- ===== src/Pipe/Tests.antt =====
-- The pipe at concrete states: data round the end of a pool of six bytes.
use zephyr_server.Common.{
  ℕ, ◌≡◌, refl, Option, some, List, [], ◌∷◌, ◌++◌, blit, length, replicate, length-replicate, arith,
}
use zephyr_server.Pipe.{
  Pipe, done, out_of_mem, advance, get_avail_free_len, get_free_len, get_data_len, write_data,
  read_data, prepare_msg, confirm_add_msg, fill,
}
use zephyr_server.Pipe.Invariant.{IsValid, contents}
use zephyr_server.Pipe.Sessions.{
  write, read, run, run_queue, accepted, delivered, run_refines, run_conserves,
}
use zephyr_server.Pipe.ZeroCopy.{prepare-confirm}

-- 10, 20, 30, the last of them at the start of the pool; two more bytes fit.
abbrev wrapped : Pipe
wrapped = record {
  mem_pool = 30 ∷ 0 ∷ 0 ∷ 0 ∷ 10 ∷ 20 ∷ [];
  header = 1;
  rear = 4;
  mem_pool_size = 6;
}

wrapped-IsValid : IsValid wrapped
wrapped-IsValid = omega arith

contents-wrapped : contents wrapped ≡ 10 ∷ 20 ∷ 30 ∷ []
contents-wrapped = refl

write-wrapped :
    write_data wrapped (40 ∷ 50 ∷ [])
    ≡ (done 2, record wrapped { mem_pool = 30 ∷ 40 ∷ 50 ∷ 0 ∷ 10 ∷ 20 ∷ []; header = 3 })
unfolding write_data get_free_len get_avail_free_len advance blit
write-wrapped = refl

write-full : write_data wrapped (40 ∷ 50 ∷ 60 ∷ []) ≡ (out_of_mem, wrapped)
unfolding write_data get_free_len get_avail_free_len advance
write-full = refl

read-wrapped : read_data wrapped 3 ≡ (done 3, 10 ∷ 20 ∷ 30 ∷ [], record wrapped { rear = 1 })
unfolding read_data get_data_len advance
read-wrapped = refl

run_refines_example :
    let (replies, p') = run wrapped (read 1 ∷ write (40 ∷ 50 ∷ 60 ∷ []) ∷ read 5 ∷ []) in
    ((replies, contents p')
      ≡ run_queue 5 (10 ∷ 20 ∷ 30 ∷ []) (read 1 ∷ write (40 ∷ 50 ∷ 60 ∷ []) ∷ read 5 ∷ []))
    × IsValid p'
run_refines_example = run_refines (read 1 ∷ write (40 ∷ 50 ∷ 60 ∷ []) ∷ read 5 ∷ []) wrapped-IsValid

run_conserves_example :
    let calls = read 2 ∷ write (40 ∷ []) ∷ [] in
    let (replies, p') = run wrapped calls in
    (10 ∷ 20 ∷ 30 ∷ []) ++ accepted calls replies ≡ delivered replies ++ contents p'
run_conserves_example = run_conserves (read 2 ∷ write (40 ∷ []) ∷ []) wrapped-IsValid

prepare-confirm_example :
    let (r, p') = confirm_add_msg (fill wrapped 1 (40 ∷ [])) 1 1 in
    (r ≡ done 0) × (contents p' ≡ 10 ∷ 20 ∷ 30 ∷ 40 ∷ []) × IsValid p'
unfolding prepare_msg get_free_len
prepare-confirm_example = prepare-confirm 1 1 2 (40 ∷ []) wrapped-IsValid refl (omega arith)

-- `new TUChar[n]`, with all bytes zero.
abbrev zeros : ℕ → Option (List ℕ)
zeros n = some (replicate n 0)

zeros_sized : (n : ℕ) (buff : List ℕ) → zeros n ≡ some buff → length buff ≡ n
zeros_sized n buff e = ground (arith, length-replicate {A = ℕ} n 0)

abbrev made : Pipe
made = record { mem_pool = replicate 512 0; header = 0; rear = 0; mem_pool_size = 512 }
