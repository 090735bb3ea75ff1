-- ===== src/Connection/Framing.antt =====
-- `AppRoutine` against the list of bytes that the pipe holds: how it is cut into messages.
use zephyr_server.Common.{
  ℕ, zero, suc, ◌+◌, ◌≤◌, ◌<◌, ◌≡◌, refl, sym, ap, ◌∙◌, inl, inr, Bool, true, false, ◌||◌, List, [],
  ◌∷◌, length, slice, take, drop, length-take, length-drop, ltb, ◌==◌, Bool-cases, arith,
}
use zephyr_server.Pipe.{Pipe, get_data_len, get_data}
use zephyr_server.Pipe.Invariant.{IsValid, contents, get_data_len-contents}
use zephyr_server.Pipe.Pieces.{get_data_own}
use zephyr_server.Connection.{
  Protocol, Outcome, ended, still, after, deliver_in, with_length, parse_loop, raw_in, raw_loop,
  using, received, app_routine,
}
use zephyr_server.Connection.Rounds.{
  cut, Stays, Cut, told, first_cut, deliver_in_lem, parse_short, parse_long,
}

-- What a round takes and what is left of a queue.
first_cut-taken :
    (fuel : ℕ) (c : Protocol) (n : ℕ) (q r : List ℕ) (ms : List (List ℕ)) (last : List ℕ)
    → (n == 0 || ltb (length q) n) ≡ false
    → r ≡ drop n q
    → (ms, last) ≡ cut fuel c r
    → (take n q ∷ ms, last) ≡ first_cut fuel c n q
first_cut-taken fuel c n q r ms last go left cuts =
    rw go (ap (λ (z : List (List ℕ) × List ℕ). (take n q ∷ z.0, z.1)) (cuts ∙ ap (cut fuel c) left))

taken_bounds :
    (n : ℕ) (q : List ℕ) → (n == 0 || ltb (length q) n) ≡ false → (n ≤ length q) × (0 < n)
taken_bounds n q go = ground arith

length-taken :
    (n sent rest : ℕ) (q r : List ℕ)
    → n ≤ length q
    → r ≡ drop n q
    → sent + rest ≡ length r
    → length (take n q) + sent + rest ≡ length q
length-taken n sent rest q r fits left count =
    omega (arith, count, ap length left, length-drop n q, length-take n q)

shorter :
    (n fuel : ℕ) (q r : List ℕ)
    → n ≤ length q
    → 0 < n
    → length q < suc fuel
    → r ≡ drop n q
    → length r < fuel
shorter n fuel q r fits some_bytes enough left = omega (arith, ap length left, length-drop n q)

after_ended :
    (m : List ℕ) (ms : List (List ℕ)) (sent : ℕ) (r : Pipe)
    → after true m (ended ms sent r) ≡ ended (m ∷ ms) (length m + sent) r
after_ended m ms sent r = unfold after in refl

with_length_stops :
    (rest : Bool → Pipe → Outcome) (c : Protocol) (n : ℕ) (p : Pipe)
    → (n == 0 || ltb (get_data_len p) n) ≡ true
    → with_length rest c true n p ≡ ended [] 0 p
unfolding with_length
with_length_stops rest c n p e = rw e refl

with_length_goes :
    (rest : Bool → Pipe → Outcome) (c : Protocol) (n : ℕ) (p : Pipe)
    → (n == 0 || ltb (get_data_len p) n) ≡ false
    → with_length rest c true n p ≡ deliver_in rest c true (get_data p n) n p
unfolding with_length
with_length_goes rest c n p e = rw e refl

first_cut_stops :
    (fuel : ℕ) (c : Protocol) (n : ℕ) (q : List ℕ)
    → (n == 0 || ltb (length q) n) ≡ true
    → first_cut fuel c n q ≡ ([], q)
first_cut_stops fuel c n q e = rw e refl

-- What follows for the length of the first message, where the rest of the loop does what it should.
with_length_lem :
    {p : Pipe} (fuel : ℕ) (c : Protocol) (n : ℕ)
    → Stays c
    → IsValid p
    → length (contents p) < suc fuel
    → ((r : Pipe)
        → IsValid r
        → length (contents r) < fuel
        → Cut (cut fuel c (contents r)) (contents r) (parse_loop fuel c true r))
    → Cut
        (first_cut fuel c n (contents p))
        (contents p)
        (with_length (parse_loop fuel c) c true n p)
with_length_lem {p} fuel c n s v enough ih =
    let size = ap (λ k. n == 0 || ltb k n) (get_data_len-contents v) in
    elim (Bool-cases (n == 0 || ltb (length (contents p)) n)) [
      | inl stop ↦ (
        [],
        0,
        p,
        with_length_stops (parse_loop fuel c) c n p (size ∙ stop),
        sym (first_cut_stops fuel c n (contents p) stop),
        omega arith,
        v,
      )
      | inr go ↦
          let (fits, some_bytes) = taken_bounds n (contents p) go in
          let (p', given, left, v') = deliver_in_lem (parse_loop fuel c) c n s v fits in
          let less = shorter n fuel (contents p) (contents p') fits some_bytes enough left in
          let (ms, sent, p'', ran, cuts, count, v'') = ih p' v' less in
          (
            take n (contents p) ∷ ms,
            length (take n (contents p)) + sent,
            p'',
            with_length_goes (parse_loop fuel c) c n p (size ∙ go)
                ∙ given
                ∙ ap (after true (take n (contents p))) ran
                ∙ after_ended (take n (contents p)) ms sent p'',
            first_cut-taken fuel c n (contents p) (contents p') ms (contents p'') go left cuts,
            length-taken n sent (length (contents p'')) (contents p) (contents p') fits left count,
            v'',
          )
    ]

parse_loop-Cut :
    {p : Pipe} (fuel : ℕ) (c : Protocol)
    → Stays c
    → IsValid p
    → length (contents p) < fuel
    → Cut (cut fuel c (contents p)) (contents p) (parse_loop fuel c true p)
parse_loop-Cut zero c s v enough = absurd (omega arith)
parse_loop-Cut {p} (suc fuel) c s v enough =
    elim (Bool-cases (ltb (length (contents p)) c.min_header_length)) [
      | inl short ↦ let (a, b) = parse_short fuel c v short in ([], 0, p, a, sym b, omega arith, v)
      | inr long ↦
          let (a, b) = parse_long fuel c v long in
          let (ms, sent, p', ran, cuts, count, v') =
            with_length_lem fuel c (told c (contents p)) s v enough
              (λ r w h. parse_loop-Cut {p = r} fuel c s w h) in
          (ms, sent, p', a ∙ ran, cuts ∙ sym b, count, v')
    ]

-- In a connection that is in use, with a callback that stays and a parser, `AppRoutine` ends, and does to the
-- bytes in the incoming pipe what the parser's lengths say: it hands the whole messages that stand there to
-- the callback, in order and unbroken wherever they lie in the ring, leaves the bytes behind them, and
-- returns how many it took. The fuel is enough where it is more than the number of bytes.
pub app_routine-cut :
    {p : Pipe} (fuel : ℕ) (c : Protocol)
    → Stays c
    → IsValid p
    → length (contents p) < fuel
    → (ms : List (List ℕ)) × (sent : ℕ) × (p' : Pipe) × (app_routine fuel c using true true p
        ≡ received (ended ms sent p'))
      × ((ms, contents p') ≡ cut fuel c (contents p))
      × (sent + length (contents p') ≡ length (contents p))
      × IsValid p'
unfolding app_routine
app_routine-cut fuel c s v enough =
    let (ms, sent, p', ran, cuts, count, v') = parse_loop-Cut fuel c s v enough in
    (ms, sent, p', ap received ran, cuts, count, v')

raw_still :
    (fuel : ℕ) (c : Protocol) (called : Bool) (p : Pipe)
    → c.min_header_length ≡ 0
    → raw_loop fuel c called p ≡ still
unfolding raw_loop raw_in after
raw_still zero c called p z = refl
raw_still (suc fuel) c called p z =
    let go : ltb (get_data_len p) c.min_header_length ≡ false = ground (arith, z) in
    let (at, piece, got) = get_data_own p in
    rw (go, got) (ap (after called (slice p.mem_pool at piece)) (raw_still fuel c _ _ z))

-- Without a parser, when `OnConnected` sets the least header length to 0, the loop of `AppRoutine` never ends,
-- whatever the pipe holds and however much fuel is given.
pub app_routine_never_ends :
    (fuel : ℕ) (c : Protocol) (p : Pipe)
    → c.min_header_length ≡ 0
    → app_routine fuel c using true false p ≡ received still
unfolding app_routine
app_routine_never_ends fuel c p z = ap received (raw_still fuel c true p z)
