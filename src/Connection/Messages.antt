-- ===== src/Connection/Messages.antt =====
-- Messages that were written one after another come out of `AppRoutine` as they were; what is received without
-- a callback is thrown away.
use zephyr_server.Common.{
  ℕ, zero, suc, ◌+◌, ◌≤◌, ◌<◌, ◌≡◌, refl, ap, ◌∙◌, inl, inr, true, false, ◌||◌, List, [], ◌∷◌, ◌++◌,
  append_assoc, length, length-append, length-drop, Bool, take, drop, take-drop_of_append, ltb,
  ◌==◌, Bool-cases, arith,
}
use zephyr_server.Pipe.{Pipe, get_data_len, return_msg_buff}
use zephyr_server.Pipe.Invariant.{IsValid, contents, get_data_len-contents}
use zephyr_server.Pipe.Pieces.{get_data_oldest, get_data_own, get_data_nonempty}
use zephyr_server.Connection.{
  Protocol, ended, header_length, drain_in, drain, using, received, app_routine,
}
use zephyr_server.Connection.Rounds.{cut, cut_long, first_cut, Stays}
use zephyr_server.Connection.Framing.{app_routine-cut}

-- The parser tells this message's length, whatever stands behind it.
abbrev pub Framed : Protocol → List ℕ → Type 0
Framed c m =
    (c.min_header_length ≤ length m)
    × (0 < length m)
    × ((rest : List ℕ)
        → c.on_recv (take (header_length c (length (m ++ rest))) (m ++ rest)) (length (m ++ rest))
          ≡ length m)

abbrev pub AllFramed : Protocol → List (List ℕ) → Type 0
AllFramed c [] = Unit
AllFramed c (m ∷ ms) = Framed c m × AllFramed c ms

abbrev pub joined : List (List ℕ) → List ℕ
joined [] = []
joined (m ∷ ms) = m ++ joined ms

cut-joined :
    (fuel : ℕ) (c : Protocol) (ms : List (List ℕ)) (tail : List ℕ)
    → AllFramed c ms
    → length tail < c.min_header_length
    → length ms < fuel
    → cut fuel c (joined ms ++ tail) ≡ (ms, tail)
cut-joined zero c ms tail f t h = absurd (omega arith)
cut-joined (suc fuel) c [] tail f t h =
    let e : ltb (length tail) c.min_header_length ≡ true = ground arith in unfold cut in rw e refl
cut-joined (suc fuel) c (m ∷ ms) tail (f, fs) t h =
    let rest = joined ms ++ tail in
    let q = (m ++ joined ms) ++ tail in
    let split : q ≡ m ++ rest = append_assoc m (joined ms) tail in
    let (taken, dropped) = take-drop_of_append (length m) q m rest split refl in
    let told_m : c.on_recv (take (header_length c (length q)) q) (length q) ≡ length m =
      ap (λ z. c.on_recv (take (header_length c (length z)) z) (length z)) split ∙ f.2 rest in
    let size : length q ≡ length m + length rest = ap length split ∙ length-append m rest in
    let long : ltb (length q) c.min_header_length ≡ false = ground (arith, f.0, size) in
    let go : (length m == 0 || ltb (length q) (length m)) ≡ false = ground (arith, f.1, size) in
    cut_long fuel c q long
    ∙ ap (λ n. first_cut fuel c n q) told_m
    ∙ cut_first go
    ∙ ap (λ (z : List ℕ × List ℕ). (z.0 ∷ (cut fuel c z.1).0, (cut fuel c z.1).1))
        (λ i. (taken i, dropped i))
    ∙ ap (λ (z : List (List ℕ) × List ℕ). (m ∷ z.0, z.1))
        (cut-joined fuel c ms tail fs t (omega arith))
  where
    cut_first :
        (length m == 0 || ltb (length ((m ++ joined ms) ++ tail)) (length m)) ≡ false
        → first_cut fuel c (length m) ((m ++ joined ms) ++ tail) ≡ (
          take (length m) ((m ++ joined ms) ++ tail)
              ∷ (cut fuel c (drop (length m) ((m ++ joined ms) ++ tail))).0,
          (cut fuel c (drop (length m) ((m ++ joined ms) ++ tail))).1,
        )
    cut_first e = rw e refl

-- Whole messages that stand in the pipe one after another, with less than a header behind them, come out of
-- `AppRoutine` as they are, in order and none else, where the parser tells the length of each from what stands
-- at its start. What stands behind them is left.
pub app_routine-joined :
    {p : Pipe} (fuel : ℕ) (c : Protocol) (ms : List (List ℕ)) (tail : List ℕ)
    → Stays c
    → IsValid p
    → length (contents p) < fuel
    → length ms < fuel
    → AllFramed c ms
    → length tail < c.min_header_length
    → contents p ≡ joined ms ++ tail
    → (sent : ℕ) × (p' : Pipe) × (app_routine fuel c using true true p
        ≡ received (ended ms sent p'))
      × (contents p' ≡ tail)
      × (sent ≡ length (joined ms))
      × IsValid p'
app_routine-joined {p} fuel c ms tail s v enough few f t e =
    let (got, sent, p', ran, cuts, count, v') = app_routine-cut {p = p} fuel c s v enough in
    let same = cuts ∙ ap (cut fuel c) e ∙ cut-joined fuel c ms tail f t few in
    let left : contents p' ≡ tail = ap (λ (z : List (List ℕ) × List ℕ). z.1) same in
    (
      sent,
      p',
      ran ∙ ap (λ (z : List (List ℕ) × List ℕ). received (ended z.0 sent p')) same,
      left,
      omega (arith, count, ap length e, length-append (joined ms) tail, ap length left),
      v',
    )

drain-empty :
    {p : Pipe} (fuel : ℕ)
    → IsValid p
    → length (contents p) < fuel
    → (p' : Pipe) × (drain fuel p ≡ ended [] 0 p') × (contents p' ≡ []) × IsValid p'
unfolding drain drain_in
drain-empty zero v h = absurd (omega arith)
drain-empty {p} (suc fuel) v h =
    let size = get_data_len-contents v in
    elim (Bool-cases (get_data_len p == 0)) [
      | inl e ↦ rw e (p, refl, nothing (contents p) (ground (arith, size)), v)
      | inr e ↦
          let (at, piece, got) = get_data_own p in
          let (_, left, v', fits) =
            get_data_oldest (get_data_len p) piece at piece v got (omega arith) in
          let moved = get_data_nonempty (get_data_len p) at piece v got (ground (arith, size)) in
          let (p', ran, none_left, v'') =
            drain-empty {p = (return_msg_buff p at piece).1} fuel v'
              (omega (arith, ap length left, length-drop piece (contents p))) in
          rw (e, got) (p', ran, none_left, v'')
    ]
  where
    nothing : (q : List ℕ) → length q ≡ 0 → q ≡ []
    nothing [] z = refl
    nothing (x ∷ q) z = absurd (omega arith)

-- In a connection that is in use and has no callback, `AppRoutine` ends and leaves the incoming pipe empty.
pub app_routine-empty :
    {p : Pipe} (fuel : ℕ) (c : Protocol) (parser : Bool)
    → IsValid p
    → length (contents p) < fuel
    → (p' : Pipe) × (app_routine fuel c using false parser p ≡ received (ended [] 0 p'))
      × (contents p' ≡ [])
      × IsValid p'
unfolding app_routine
app_routine-empty {p} fuel c parser v h =
    let (p', ran, none_left, v') = drain-empty {p = p} fuel v h in
    (p', ap received ran, none_left, v')
