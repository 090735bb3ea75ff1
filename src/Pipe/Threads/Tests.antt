-- ===== src/Pipe/Threads/Tests.antt =====
-- One interleaving: the reader takes the bytes round the end of the pool while the writer, which has
-- tested the free space before, fills in two more; the loads of both are out of date at their stores.
use zephyr_server.Common.{◌≡◌, refl, [], ◌∷◌, ◌++◌, blit, arith}
use zephyr_server.Pipe.{Pipe, get_free_len, get_avail_free_len, get_data_len, advance}
use zephyr_server.Pipe.Invariant.{IsValid, contents}
use zephyr_server.Pipe.Threads.{
  can_write, copy_in, header_after, can_read, data_room, copy_out, rear_after, idle, waiting,
  Threads, enter_write, load_rear, fill_pool, store_header, enter_read, load_header, take_bytes,
  store_rear, started, Reach, here, later,
}
use zephyr_server.Pipe.Threads.Interleavings.{interleavings_conserve}

-- 10, 20, 30, the last of them at the start of the pool; two more bytes fit.
abbrev wrapped : Pipe
wrapped = record {
  mem_pool = 30 ∷ 0 ∷ 0 ∷ 0 ∷ 10 ∷ 20 ∷ [];
  header = 1;
  rear = 4;
  mem_pool_size = 6;
}

wrapped-IsValid : IsValid wrapped
wrapped-IsValid = omega arith

abbrev finished : Threads
finished = record {
  pipe = record {
    mem_pool = 30 ∷ 40 ∷ 50 ∷ 0 ∷ 10 ∷ 20 ∷ [];
    header = 3;
    rear = 1;
    mem_pool_size = 6;
  };
  writer = idle;
  reader = waiting;
  sent = 10 ∷ 20 ∷ 30 ∷ 40 ∷ 50 ∷ [];
  got = 10 ∷ 20 ∷ 30 ∷ [];
}

interleaving : Reach (started wrapped (contents wrapped)) finished
unfolding can_write copy_in header_after can_read data_room copy_out rear_after get_free_len
    get_avail_free_len get_data_len advance blit
interleaving =
    let a = later here (enter_write (40 ∷ 50 ∷ []) refl refl) in
    let b = later a (enter_read 3 refl refl) in
    let c = later b (load_rear (40 ∷ 50 ∷ []) refl) in
    let d = later c (load_header 3 refl) in
    let e = later d (take_bytes 3 2 refl) in
    let f = later e (fill_pool (40 ∷ 50 ∷ []) 3 refl) in
    let g = later f (store_rear (10 ∷ 20 ∷ 30 ∷ []) 1 refl) in
    later g (store_header (40 ∷ 50 ∷ []) 3 refl)

interleavings_conserve_example :
    IsValid finished.pipe × (finished.sent ≡ finished.got ++ contents finished.pipe)
interleavings_conserve_example =
    interleavings_conserve wrapped wrapped-IsValid finished interleaving
