-- ===== src/Pipe/Threads/Stages.antt =====
-- The stages of `WriteData` and `ReadData`, run with no step of the other thread between them.
use zephyr_server.Common.{ℕ, ◌≡◌, List, [], length, if◌then◌else◌, arith}
use zephyr_server.Pipe.{
  Pipe, done, out_of_mem, out_of_range, write_data, read_data, get_avail_free_len,
}
use zephyr_server.Pipe.Threads.{
  can_write, copy_in, header_after, can_read, data_room, copy_out, rear_after,
}

-- Both calls are their stages, one after the other.
pub stages_calls :
    (p : Pipe) (src : List ℕ) (len : ℕ)
    → (write_data p src ≡ (
        if can_write p (length src)
        then (
          done (length src),
          record p {
            mem_pool = copy_in p src (get_avail_free_len p);
            header = header_after p (length src) (get_avail_free_len p);
          },
        )
        else (out_of_mem, p)))
      × (read_data p len ≡ (
          if can_read p len
          then (
            done len,
            copy_out p len (data_room p),
            record p { rear = rear_after p len (data_room p) },
          )
          else (out_of_range, [], p)))
unfolding write_data read_data can_write copy_in header_after can_read data_room copy_out rear_after
stages_calls p src len = (ground arith, ground arith)
