-- ===== src/Pipe/Sessions.antt =====
-- Any sequence of writes and reads.
use zephyr_server.Common.{
  ℕ, ◌-◌, ◌≡◌, refl, sym, ap, ◌∙◌, List, [], ◌∷◌, ◌++◌, append-nil, append_assoc, take-append-drop,
  subst, arith,
}
use zephyr_server.Pipe.{Pipe, Ret, done, write_data, read_data}
use zephyr_server.Pipe.Invariant.{IsValid, contents}
use zephyr_server.Pipe.Fifo.{push_all, pop_all}
use zephyr_server.Pipe.Writing.{write_data_refines}
use zephyr_server.Pipe.Reading.{read_data_refines}

-- A call of the producer or of the consumer.
pub data Call : Type 0 where
  write : List ℕ → Call
  read : ℕ → Call

-- What a caller sees of each call: the result, and the bytes read.
abbrev pub Reply : Type 0
Reply = Ret × List ℕ

unfoldable pub run : Pipe → List Call → List Reply × Pipe
run p [] = ([], p)
run p (write src ∷ calls) =
    let (r, p') = write_data p src in let (replies, q) = run p' calls in ((r, []) ∷ replies, q)
run p (read n ∷ calls) =
    let (r, out, p') = read_data p n in let (replies, q) = run p' calls in ((r, out) ∷ replies, q)

-- The same calls on a queue with room for `cap` bytes.
unfoldable pub run_queue : ℕ → List ℕ → List Call → List Reply × List ℕ
run_queue cap q [] = ([], q)
run_queue cap q (write src ∷ calls) =
    let (r, q') = push_all cap q src in
    let (replies, end) = run_queue cap q' calls in ((r, []) ∷ replies, end)
run_queue cap q (read n ∷ calls) =
    let (r, out, q') = pop_all q n in
    let (replies, end) = run_queue cap q' calls in ((r, out) ∷ replies, end)

size-write : (p : Pipe) (src : List ℕ) → (write_data p src).1.mem_pool_size ≡ p.mem_pool_size
unfolding write_data
size-write p src = ground arith

size-read : (p : Pipe) (n : ℕ) → (read_data p n).2.mem_pool_size ≡ p.mem_pool_size
unfolding read_data
size-read p n = ground arith

-- No sequence of calls tells a valid pipe from the queue of the bytes that it holds: every reply is
-- that of the queue, and so are the bytes left at the end, where the pipe is valid again.
pub run_refines :
    (calls : List Call) {p : Pipe}
    → IsValid p
    → let (replies, p') = run p calls in
      ((replies, contents p') ≡ run_queue (p.mem_pool_size - 1) (contents p) calls) × IsValid p'
unfolding run run_queue
run_refines [] v = (refl, v)
run_refines (write src ∷ calls) {p} v =
    let (e, v') = write_data_refines src v in
    let (h, w) = run_refines calls v' in
    rw (← e) (
      ap (λ (t : List Reply × List ℕ). (((write_data p src).0, []) ∷ t.0, t.1))
          (h
            ∙ ap (λ k. run_queue (k - 1) (contents (write_data p src).1) calls) (size-write p src)),
      w,
    )
run_refines (read n ∷ calls) {p} v =
    let (e, v') = read_data_refines n v in
    let (h, w) = run_refines calls v' in
    rw (← e) (
      ap (λ (t : List Reply × List ℕ). (((read_data p n).0, (read_data p n).1) ∷ t.0, t.1))
          (h ∙ ap (λ k. run_queue (k - 1) (contents (read_data p n).2) calls) (size-read p n)),
      w,
    )

-- The bytes that went in by accepted writes.
abbrev pub accepted : List Call → List Reply → List ℕ
accepted (write src ∷ calls) ((done n, out) ∷ replies) = src ++ accepted calls replies
accepted (c ∷ calls) (r ∷ replies) = accepted calls replies
accepted calls replies = []

-- The bytes that came out.
abbrev pub delivered : List Reply → List ℕ
delivered [] = []
delivered ((r, out) ∷ replies) = out ++ delivered replies

push_all-accepted :
    (cap : ℕ) (q src : List ℕ) (calls : List Call) (replies : List Reply)
    → let (r, q') = push_all cap q src in
      q ++ accepted (write src ∷ calls) ((r, []) ∷ replies) ≡ q' ++ accepted calls replies
unfolding push_all
push_all-accepted cap q src calls replies =
    ground (arith, append_assoc q src (accepted calls replies))

pop_all-append : (q : List ℕ) (n : ℕ) → let (r, out, q') = pop_all q n in out ++ q' ≡ q
unfolding pop_all
pop_all-append q n = ground (arith, take-append-drop n q)

run_queue_conserves :
    (cap : ℕ) (calls : List Call) (q : List ℕ)
    → let (replies, end) = run_queue cap q calls in
      q ++ accepted calls replies ≡ delivered replies ++ end
unfolding run_queue
run_queue_conserves cap [] q = append-nil q
run_queue_conserves cap (write src ∷ calls) q =
    push_all-accepted cap q src calls _ ∙ run_queue_conserves cap calls (push_all cap q src).1
run_queue_conserves cap (read n ∷ calls) q =
    let (r, out, q') = pop_all q n in
    let (replies, end) = run_queue cap q' calls in
    ap (λ l. l ++ accepted calls replies) (sym (pop_all-append q n))
    ∙ append_assoc out q' (accepted calls replies)
    ∙ ap (λ l. out ++ l) (run_queue_conserves cap calls q')
    ∙ sym (append_assoc out (delivered replies) end)

-- Over any calls on a valid pipe, the bytes held at first followed by those of the accepted writes
-- are the bytes read followed by those held at the end: none is lost, doubled or reordered.
pub run_conserves :
    (calls : List Call) {p : Pipe}
    → IsValid p
    → let (replies, p') = run p calls in
      contents p ++ accepted calls replies ≡ delivered replies ++ contents p'
run_conserves calls {p} v =
    let (e, w) = run_refines calls v in
    subst (λ (t : List Reply × List ℕ). contents p ++ accepted calls t.0 ≡ delivered t.0 ++ t.1)
      (sym e) (run_queue_conserves (p.mem_pool_size - 1) calls (contents p))
