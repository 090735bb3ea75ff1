-- ===== src/Pipe/Writing.antt =====
-- `WriteData` against the queue.
use zephyr_server.Common.{
  ℕ, ◌+◌, ◌-◌, ◌≤◌, ◌<◌, ◌≡◌, refl, sym, ap₂, ◌∙◌, ◌⊎◌, inl, inr, List, ◌++◌, append-nil,
  append_assoc, length, take, drop, slice, blit, slice-blit_self, slice-blit_after,
  slice-blit_extend, take-append-drop, length-take, length-drop, length-blit, arith,
}
use native.Mathlib.Decide.{dec_le, dec_lt}
use zephyr_server.Pipe.{
  Pipe, Ret, done, out_of_mem, advance, write_data, get_free_len, get_avail_free_len,
}
use zephyr_server.Pipe.Invariant.{
  IsValid, contents, length-contents, get_data_len-contents, free_len-add-data_len,
}
use zephyr_server.Pipe.Fifo.{push_all, push_all_taken, push_all_refused}

-- The pipe after `src` has been put behind `header`, in one piece.
abbrev pub placed : Pipe → List ℕ → Pipe
placed p src = record p {
  mem_pool = blit p.mem_pool p.header src;
  header = advance p p.header (length src);
}

-- The piece up to the reader or the end of the pool takes all of `src`.
pub placed-contents :
    {p : Pipe} (src : List ℕ)
    → IsValid p
    → p.header + length src ≤ p.mem_pool_size
    → length (contents p) + length src < p.mem_pool_size
    → contents (placed p src) ≡ contents p ++ src
unfolding advance
placed-contents {p} src v fits free = elim (dec_le p.rear p.header) [
  | yes flat ↦ ground (
    arith,
    length-contents v,
    slice-blit_extend p.mem_pool p.rear (p.header - p.rear) p.header
        (p.header + length src - p.rear) src,
    slice-blit_extend p.mem_pool p.rear (p.header - p.rear) p.header (p.mem_pool_size - p.rear) src,
    append-nil (slice p.mem_pool p.rear (p.header - p.rear) ++ src),
  )
  | no split ↦ ground (
    arith,
    length-contents v,
    slice-blit_after p.mem_pool p.header src p.rear (p.mem_pool_size - p.rear),
    slice-blit_extend p.mem_pool 0 p.header p.header (p.header + length src) src,
    append_assoc (slice p.mem_pool p.rear (p.mem_pool_size - p.rear)) (slice p.mem_pool 0 p.header)
        src,
  )
]

pub placed-IsValid :
    {p : Pipe} (src : List ℕ)
    → IsValid p
    → p.header + length src ≤ p.mem_pool_size
    → IsValid (placed p src)
unfolding advance
placed-IsValid {p} src v fits = ground (arith, length-blit p.mem_pool p.header src)

-- The pipe after `src` has been put round the end of the pool, in two pieces.
abbrev placed_round : Pipe → ℕ → List ℕ → Pipe
placed_round p room src = record p {
  mem_pool = blit (blit p.mem_pool p.header (take room src)) 0 (drop room src);
  header = length src - room;
}

module _ {p : Pipe} (room : ℕ) (src : List ℕ) (v : IsValid p) (flat : p.rear ≤ p.header)
    (all : p.header + room ≡ p.mem_pool_size) (over : room < length src)
    (free : length (contents p) + length src < p.mem_pool_size) where
  placed_round-contents : contents (placed_round p room src) ≡ contents p ++ src
  placed_round-contents =
      let first = blit p.mem_pool p.header (take room src) in
      ground (
        arith,
        length-contents v,
        length-take room src,
        length-drop room src,
        length-blit p.mem_pool p.header (take room src),
        slice-blit_after first 0 (drop room src) p.rear (p.mem_pool_size - p.rear),
        slice-blit_self first 0 (drop room src) (length src - room),
        slice-blit_extend p.mem_pool p.rear (p.header - p.rear) p.header (p.mem_pool_size - p.rear)
            (take room src),
        take-append-drop room src,
        append_assoc (slice p.mem_pool p.rear (p.header - p.rear)) (take room src) (drop room src),
      )

  placed_round-IsValid : IsValid (placed_round p room src)
  placed_round-IsValid =
      let first = blit p.mem_pool p.header (take room src) in
      ground (
        arith,
        length-contents v,
        length-blit p.mem_pool p.header (take room src),
        length-blit first 0 (drop room src),
      )

-- How many bytes fit behind `header` in one piece.
avail_flat :
    {p : Pipe} → IsValid p → p.rear ≤ p.header → get_avail_free_len p ≡ p.mem_pool_size - p.header
unfolding get_avail_free_len
avail_flat v h = ground arith

avail_split : {p : Pipe} → IsValid p → p.header < p.rear → get_avail_free_len p ≡ p.rear - p.header
unfolding get_avail_free_len
avail_split v h = ground arith

-- Which of its three ways `WriteData` takes, by the number `n` of bytes held.
module _ {p : Pipe} (src : List ℕ) (n : ℕ) (v : IsValid p)
    (e : get_free_len p + n + 1 ≡ p.mem_pool_size) where
  write_data_refused :
      (p.mem_pool_size ≤ n + 1) ⊎ (p.mem_pool_size ≤ n + length src)
      → write_data p src ≡ (out_of_mem, p)
  unfolding write_data
  write_data_refused h = ground arith

  write_data_whole :
      n + 1 < p.mem_pool_size
      → n + length src < p.mem_pool_size
      → length src ≤ get_avail_free_len p
      → write_data p src ≡ (done (length src), placed p src)
  unfolding write_data
  write_data_whole h k w = ground arith

  write_data_round :
      n + 1 < p.mem_pool_size
      → n + length src < p.mem_pool_size
      → get_avail_free_len p < length src
      → write_data p src ≡ (done (length src), placed_round p (get_avail_free_len p) src)
  unfolding write_data
  write_data_round h k w = ground arith

-- A write that fits is appended.
write_data_accepted :
    {p : Pipe} (src : List ℕ)
    → IsValid p
    → length (contents p) + 1 < p.mem_pool_size
    → length (contents p) + length src < p.mem_pool_size
    → let (r, p') = write_data p src in
      (r ≡ done (length src)) × (contents p' ≡ contents p ++ src) × IsValid p'
write_data_accepted {p} src v h k =
    let n = length (contents p) in
    let e : get_free_len p + n + 1 ≡ p.mem_pool_size =
      omega (arith, get_data_len-contents v, free_len-add-data_len v) in
    elim (dec_le (length src) (get_avail_free_len p)) [
      | yes w ↦
          rw (write_data_whole src n v e h k w)
            (refl, placed-contents src v (whole_fits w) k, placed-IsValid src v (whole_fits w))
      | no w ↦ rw (write_data_round src n v e h k (omega arith)) (
        refl,
        placed_round-contents room src v (flat w) (all w) (omega arith) k,
        placed_round-IsValid room src v (flat w) (all w) (omega arith) k,
      )
    ]
  where
    room : ℕ
    room = get_avail_free_len p

    whole_fits : length src ≤ room → p.header + length src ≤ p.mem_pool_size
    whole_fits w = elim (dec_le p.rear p.header) [
      | yes f ↦ omega (arith, avail_flat v f)
      | no f ↦ omega (arith, avail_split v (omega arith))
    ]

    flat : ¬ (length src ≤ room) → p.rear ≤ p.header
    flat w = elim (dec_le p.rear p.header) [
      | yes f ↦ f
      | no f ↦ absurd (ground (arith, avail_split v, length-contents v))
    ]

    all : ¬ (length src ≤ room) → p.header + room ≡ p.mem_pool_size
    all w = omega (arith, avail_flat v (flat w))

pub write_data_refines :
    {p : Pipe} (src : List ℕ)
    → IsValid p
    → let (r, p') = write_data p src in
      ((r, contents p') ≡ push_all (p.mem_pool_size - 1) (contents p) src) × IsValid p'
write_data_refines {p} src v =
    let n = length (contents p) in
    let e : get_free_len p + n + 1 ≡ p.mem_pool_size =
      omega (arith, get_data_len-contents v, free_len-add-data_len v) in
    elim (dec_lt (n + 1) p.mem_pool_size) [
      | no h ↦
          rw (write_data_refused src n v e (inl (omega arith))) (refused (inl (omega arith)), v)
      | yes h ↦ elim (dec_lt (n + length src) p.mem_pool_size) [
        | no k ↦
            rw (write_data_refused src n v e (inr (omega arith))) (refused (inr (omega arith)), v)
        | yes k ↦
            let (r, c, v') = write_data_accepted src v h k in
            (ap₂ (λ x y. (x, y)) r c ∙ sym (taken h k), v')
      ]
    ]
  where
    q : List ℕ
    q = contents p

    taken :
        length q + 1 < p.mem_pool_size
        → length q + length src < p.mem_pool_size
        → push_all (p.mem_pool_size - 1) q src ≡ (done (length src), q ++ src)
    taken h k = push_all_taken (p.mem_pool_size - 1) q src (omega arith) (omega arith)

    refused :
        (p.mem_pool_size ≤ length q + 1) ⊎ (p.mem_pool_size ≤ length q + length src)
        → ◌≡◌ {A = Ret × List ℕ} (out_of_mem, q) (push_all (p.mem_pool_size - 1) q src)
    refused h = sym (push_all_refused (p.mem_pool_size - 1) q src (omega arith))
