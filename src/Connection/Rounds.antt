-- ===== src/Connection/Rounds.antt =====
-- A queue of bytes cut into messages, and what one round of `AppRoutine` does to the bytes of the pipe.
use zephyr_server.Common.{
  ℕ, zero, suc, ◌+◌, ◌≤◌, ◌≡◌, refl, ap, ap₂, ◌∙◌, inl, inr, Bool, true, false, ◌||◌, some, List,
  [], ◌∷◌, length, slice, take, drop, ltb, ◌==◌, if◌then◌else◌, Bool-cases, arith,
}
use zephyr_server.Pipe.{Pipe, get_data_len, get_data, read_data, return_msg_buff}
use zephyr_server.Pipe.Invariant.{IsValid, contents, get_data_len-contents}
use zephyr_server.Pipe.ZeroCopy.{peek_shows}
use zephyr_server.Pipe.Pieces.{get_data_there, get_data_oldest, read_data_there}
use zephyr_server.Connection.{
  Protocol, Outcome, ended, after, header_in, read_header, deliver_in, with_length, with_header,
  header_length, parse_loop,
}

-- A queue cut into messages by the lengths that the protocol tells, as many as `n` of them: the messages,
-- and what is left.
unfoldable pub cut : ℕ → Protocol → List ℕ → List (List ℕ) × List ℕ
cut zero c q = ([], q)
cut (suc n) c q =
    let len = c.on_recv (take (header_length c (length q)) q) (length q) in
    let later = cut n c (drop len q) in
    if ltb (length q) c.min_header_length
    then ([], q)
    else if len == 0 || ltb (length q) len
    then ([], q)
    else (take len q ∷ later.0, later.1)

-- The callback is never taken back.
abbrev pub Stays : Protocol → Type 0
Stays c = (m : List ℕ) → c.stays m ≡ true

read_header_lem :
    {p : Pipe} (n : ℕ)
    → IsValid p
    → n ≤ length (contents p)
    → read_header n p ≡ some (take n (contents p))
unfolding read_header header_in
read_header_lem {p} n v h =
    let (at, piece, got) = get_data_there n v h in
    elim (Bool-cases (ltb piece n)) [
      | inl e ↦ rw (got, e) (peek_shows n v h)
      | inr e ↦ rw (got, e) (ap some (get_data_oldest n n at piece v got (ground arith)).0)
    ]

-- A whole message is delivered, and the rest of the loop is left with the other bytes.
pub deliver_in_lem :
    {p : Pipe} (rest : Bool → Pipe → Outcome) (c : Protocol) (n : ℕ)
    → Stays c
    → IsValid p
    → n ≤ length (contents p)
    → (p' : Pipe) × (deliver_in rest c true (get_data p n) n p
        ≡ after true (take n (contents p)) (rest true p'))
      × (contents p' ≡ drop n (contents p))
      × IsValid p'
unfolding deliver_in
deliver_in_lem {p} rest c n s v h =
    let (at, piece, got) = get_data_there n v h in
    elim (Bool-cases (ltb piece n)) [
      | inl e ↦
          let (t, d, v') = read_data_there n v h in
          (
            _,
            rw (got, e)
                (ap₂ (λ m b. after true m (rest b (read_data p n).2)) t (s (read_data p n).1)),
            d,
            v',
          )
      | inr e ↦
          let (t, d, v', _) = get_data_oldest n n at piece v got (ground arith) in
          (
            _,
            rw (got, e)
                (ap₂ (λ m b. after true m (rest b (return_msg_buff p at n).1)) t
                  (s (slice p.mem_pool at n))),
            d,
            v',
          )
    ]

-- What the loop leaves of a pipe with the bytes `q`, by how they are to be cut.
abbrev pub Cut : List (List ℕ) × List ℕ → List ℕ → Outcome → Type 0
Cut parts q o =
    (ms : List (List ℕ)) × (sent : ℕ) × (p' : Pipe) × (o ≡ ended ms sent p')
    × ((ms, contents p') ≡ parts)
    × (sent + length (contents p') ≡ length q)
    × IsValid p'

header_fits : (c : Protocol) (len : ℕ) → c.min_header_length ≤ len → header_length c len ≤ len
unfolding header_length
header_fits c len h = ground arith

-- The length that the protocol tells of the first message.
abbrev pub told : Protocol → List ℕ → ℕ
told c q = c.on_recv (take (header_length c (length q)) q) (length q)

-- The cut after the length of the first message.
abbrev pub first_cut : ℕ → Protocol → ℕ → List ℕ → List (List ℕ) × List ℕ
first_cut fuel c n q =
    if n == 0 || ltb (length q) n
    then ([], q)
    else (take n q ∷ (cut fuel c (drop n q)).0, (cut fuel c (drop n q)).1)

pub cut_long :
    (fuel : ℕ) (c : Protocol) (q : List ℕ)
    → ltb (length q) c.min_header_length ≡ false
    → cut (suc fuel) c q ≡ first_cut fuel c (told c q) q
unfolding cut
cut_long fuel c q e = rw e refl

-- The ways of a round, in the pipe and in the queue.
module _ {p : Pipe} (fuel : ℕ) (c : Protocol) (v : IsValid p) where
  pub parse_short :
      ltb (length (contents p)) c.min_header_length ≡ true
      → (parse_loop (suc fuel) c true p ≡ ended [] 0 p)
        × (cut (suc fuel) c (contents p) ≡ ([], contents p))
  unfolding parse_loop cut
  parse_short e =
      let e' : ltb (get_data_len p) c.min_header_length ≡ true =
        ap (λ k. ltb k c.min_header_length) (get_data_len-contents v) ∙ e in
      (rw e' refl, rw e refl)

  pub parse_long :
      ltb (length (contents p)) c.min_header_length ≡ false
      → (parse_loop (suc fuel) c true p
          ≡ with_length (parse_loop fuel c) c true (told c (contents p)) p)
        × (cut (suc fuel) c (contents p) ≡ first_cut fuel c (told c (contents p)) (contents p))
  parse_long e =
      let size = get_data_len-contents v in
      let e' : ltb (get_data_len p) c.min_header_length ≡ false =
        ap (λ k. ltb k c.min_header_length) size ∙ e in
      let fits : header_length c (length (contents p)) ≤ length (contents p) =
        header_fits c (length (contents p)) (ground arith) in
      (
        long_round e'
            ∙ ap (λ k. with_header (parse_loop fuel c) c true (read_header (header_length c k) p) p)
                size
            ∙ ap (λ o. with_header (parse_loop fuel c) c true o p)
                (read_header_lem (header_length c (length (contents p))) v fits)
            ∙ told_length size,
        cut_long fuel c (contents p) e,
      )
    where
      long_round :
          ltb (get_data_len p) c.min_header_length ≡ false
          → parse_loop (suc fuel) c true p
            ≡ with_header
                (parse_loop fuel c)
                c
                true
                (read_header (header_length c (get_data_len p)) p)
                p
      long_round f = unfold parse_loop in rw f refl

      told_length :
          get_data_len p ≡ length (contents p)
          → with_header
              (parse_loop fuel c)
              c
              true
              (some (take (header_length c (length (contents p))) (contents p)))
              p
            ≡ with_length (parse_loop fuel c) c true (told c (contents p)) p
      told_length f =
          unfold with_header in
          ap
            (λ k.
              with_length (parse_loop fuel c) c true
                (c.on_recv (take (header_length c (length (contents p))) (contents p)) k) p)
            f
