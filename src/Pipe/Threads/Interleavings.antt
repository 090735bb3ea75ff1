-- ===== src/Pipe/Threads/Interleavings.antt =====
-- Every interleaving of a writer and a reader.
use zephyr_server.Common.{
  ℕ, ◌≤◌, ◌<◌, ◌≡◌, refl, sym, ap, ◌∙◌, subst, List, ◌++◌, append_assoc, length, arith,
}
use zephyr_server.Pipe.{Pipe}
use zephyr_server.Pipe.Invariant.{IsValid, contents}
use zephyr_server.Pipe.Threads.{
  copy_in, Writer, idle, entered, planned, copied, Reader, waiting, accepted, aimed, taken, Threads,
  Step, refuse_write, enter_write, load_rear, fill_pool, store_header, refuse_read, enter_read,
  load_header, take_bytes, store_rear, started, Reach, here, later,
}
use zephyr_server.Pipe.Threads.Segments.{dist, between-append}
use zephyr_server.Pipe.Threads.Safety.{
  held, Fits, Room, Writing, Reading, Safe, can_write-Fits, get_avail_free_len-Room, can_read-held,
  data_room-Room, length-copy_in, between-copy_in, copy_in-between, header_after-held,
  rear_after-held, copy_out-between,
}

module _ (p : Pipe) (v : IsValid p) where
  -- What a writer knows outlives a store to `m_pRear`.
  Writing-rear :
      (w : Writer) (at : ℕ)
      → at < p.mem_pool_size
      → dist p.mem_pool_size p.rear at ≤ held p
      → Writing p w
      → Writing (record p { rear = at }) w
  unfolding Writing
  Writing-rear idle at h k w = w
  Writing-rear (entered src) at h k w = ground arith
  Writing-rear (planned src room) at h k (f, r) = (ground arith, r)
  Writing-rear (copied src to) at h k (i, d, e) = (i, ground arith, e)

  -- What a reader knows outlives a store to `m_pHeader` and the copying of a writer.
  Reading-header :
      (r : Reader) (at : ℕ)
      → at < p.mem_pool_size
      → held p ≤ dist p.mem_pool_size p.rear at
      → Reading p r
      → Reading (record p { header = at }) r
  unfolding Reading
  Reading-header waiting at h k r = r
  Reading-header (accepted len) at h k r = ground arith
  Reading-header (aimed len room) at h k (f, r) = (ground arith, r)
  Reading-header (taken out to) at h k (i, d, e) = (i, ground arith, e)

  Reading-copy_in :
      (r : Reader) (src : List ℕ) (room : ℕ)
      → Fits p src
      → Room p.mem_pool_size p.header (length src) room
      → Reading p r
      → Reading (record p { mem_pool = copy_in p src room }) r
  unfolding Reading
  Reading-copy_in waiting src room f g r = r
  Reading-copy_in (accepted len) src room f g r = r
  Reading-copy_in (aimed len rest) src room f g r = r
  Reading-copy_in (taken out to) src room f g (i, d, e) =
      (i, d, between-copy_in p v src room f g to i d ∙ e)

-- The stores: of the writer, whose bytes are then held, and of the reader, whose bytes are then gone.
contents-header :
    (p : Pipe) (src : List ℕ) (at : ℕ)
    → IsValid p
    → Writing p (copied src at)
    → contents (record p { header = at }) ≡ contents p ++ src
unfolding Writing
contents-header p src at v (i, d, e) =
    between-append p.mem_pool p.mem_pool_size p.rear p.header at v.rear_in v.header_in i d
    ∙ ap (λ z. contents p ++ z) e

contents-rear :
    (p : Pipe) (out : List ℕ) (at : ℕ)
    → IsValid p
    → Reading p (taken out at)
    → contents p ≡ out ++ contents (record p { rear = at })
unfolding Reading
contents-rear p out at v (i, d, e) =
    between-append p.mem_pool p.mem_pool_size p.rear at p.header v.rear_in i v.header_in d
    ∙ ap (λ z. z ++ contents (record p { rear = at })) e

-- Whatever step a thread takes, between any two steps the pipe is valid, and each thread knows what it
-- needs for its own next ones.
Step-Safe : {s t : Threads} → Safe s → Step s t → Safe t
unfolding Writing Reading
Step-Safe k (refuse_write src e c) = k
Step-Safe {s} k (enter_write src e c) = record {
  valid = k.valid;
  history = k.history;
  writing = can_write-Fits s.pipe k.valid src c;
  reading = k.reading;
}
Step-Safe {s} k (load_rear src e) =
    let f = subst (Writing s.pipe) e k.writing in
    record {
      valid = k.valid;
      history = k.history;
      writing = (f, get_avail_free_len-Room s.pipe k.valid src f);
      reading = k.reading;
    }
Step-Safe {s} k (fill_pool src room e) =
    let (f, r) = subst (Writing s.pipe) e k.writing in
    let (i, d) = header_after-held s.pipe k.valid src room f r in
    let same =
      between-copy_in s.pipe k.valid src room f r s.pipe.header k.valid.header_in (omega arith) in
    record {
      valid = record {
        storage = length-copy_in s.pipe k.valid src room f r ∙ k.valid.storage;
        small = k.valid.small;
        header_in = k.valid.header_in;
        rear_in = k.valid.rear_in;
      };
      history = k.history ∙ ap (λ z. s.got ++ z) (sym same);
      writing = (i, d, copy_in-between s.pipe k.valid src room f r);
      reading = Reading-copy_in s.pipe k.valid s.reader src room f r k.reading;
    }
Step-Safe {s} k (store_header src at e) =
    let w = subst (Writing s.pipe) e k.writing in
    let (i, d, _) = w in
    let grown = contents-header s.pipe src at k.valid w in
    record {
      valid = record {
        storage = k.valid.storage;
        small = k.valid.small;
        header_in = i;
        rear_in = k.valid.rear_in;
      };
      history =
          ap (λ z. z ++ src) k.history
          ∙ append_assoc s.got (contents s.pipe) src
          ∙ ap (λ z. s.got ++ z) (sym grown);
      writing = tt;
      reading = Reading-header s.pipe k.valid s.reader at i d k.reading;
    }
Step-Safe k (refuse_read len e c) = k
Step-Safe {s} k (enter_read len e c) = record {
  valid = k.valid;
  history = k.history;
  writing = k.writing;
  reading = can_read-held s.pipe k.valid len c;
}
Step-Safe {s} k (load_header len e) =
    let f = subst (Reading s.pipe) e k.reading in
    record {
      valid = k.valid;
      history = k.history;
      writing = k.writing;
      reading = (f, data_room-Room s.pipe k.valid len f);
    }
Step-Safe {s} k (take_bytes len room e) =
    let (f, r) = subst (Reading s.pipe) e k.reading in
    let (i, d) = rear_after-held s.pipe k.valid len room f r in
    record {
      valid = k.valid;
      history = k.history;
      writing = k.writing;
      reading = (i, d, copy_out-between s.pipe k.valid len room f r);
    }
Step-Safe {s} k (store_rear out at e) =
    let r = subst (Reading s.pipe) e k.reading in
    let (i, d, _) = r in
    let shrunk = contents-rear s.pipe out at k.valid r in
    record {
      valid = record {
        storage = k.valid.storage;
        small = k.valid.small;
        header_in = k.valid.header_in;
        rear_in = i;
      };
      history =
          k.history
          ∙ ap (λ z. s.got ++ z) shrunk
          ∙ sym (append_assoc s.got out (contents (record s.pipe { rear = at })));
      writing = Writing-rear s.pipe k.valid s.writer at i d k.writing;
      reading = tt;
    }

Reach-Safe : {s t : Threads} → Safe s → Reach s t → Safe t
Reach-Safe k here = k
Reach-Safe k (later path step) = Step-Safe (Reach-Safe k path) step

-- However the steps of one writer and one reader on a valid pipe interleave, with offsets that are
-- loaded twice and out of date, the pipe stays valid, and the bytes held at first and those of the
-- ended `WriteData` calls are, in order, those that the ended `ReadData` calls gave, followed by those
-- held: none is lost, doubled, reordered or torn.
pub interleavings_conserve :
    (p : Pipe)
    → IsValid p
    → (t : Threads) → Reach (started p (contents p)) t
    → IsValid t.pipe × (t.sent ≡ t.got ++ contents t.pipe)
unfolding Writing Reading
interleavings_conserve p v t path =
    let k = Reach-Safe (record { valid = v; history = refl; writing = tt; reading = tt }) path in
    (k.valid, k.history)
