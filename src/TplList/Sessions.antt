-- ===== src/TplList/Sessions.antt =====
-- Any sequence of calls at the ends of a list.
use zephyr_server.Common.{
  ℕ, ◌+◌, ◌^◌, ◌≤◌, ◌<◌, ◌≡◌, refl, sym, ap, ap₂, ◌∙◌, subst, Option, none, some, List, [], ◌∷◌,
  ◌++◌, length, length-append, arith,
}
use zephyr_server.TplList.{
  Heap, CList, pop_front, pop_front_from, pop_back, pop_back_from, push_front, push_back,
}
use zephyr_server.TplList.Chains.{last_from, last_of, Away, Holds, Alone}
use zephyr_server.TplList.Whole.{
  Whole, push_front-Whole, push_back-Whole, pop_front-Whole, pop_back-Whole,
}

-- A call at one of the ends.
pub data Call : Type 0 where
  put_front put_back : ℕ → Call
  take_front take_back : Call

-- What it does to a list, with the node that it returns, and to what the list stands for.
perform : Call → CList → Heap → Option ℕ × CList × Heap
perform (put_front p) l h = let (l', h') = push_front p l h in (none, l', h')
perform (put_back p) l h = let (l', h') = push_back p l h in (none, l', h')
perform take_front l h = pop_front l h
perform take_back l h = pop_back l h

abbrev drop_last : List ℕ → List ℕ
drop_last [] = []
drop_last (x ∷ []) = []
drop_last (x ∷ y ∷ ys) = x ∷ drop_last (y ∷ ys)

abbrev perform_nodes : Call → List ℕ → Option ℕ × List ℕ
perform_nodes (put_front p) xs = (none, p ∷ xs)
perform_nodes (put_back p) xs = (none, xs ++ (p ∷ []))
perform_nodes take_front [] = (none, [])
perform_nodes take_front (x ∷ xs) = (some x, xs)
perform_nodes take_back xs = (last_of xs, drop_last xs)

pub run : List Call → CList → Heap → List (Option ℕ) × CList × Heap
unfolding perform
run [] l h = ([], l, h)
run (c ∷ cs) l h =
    let (o, l', h') = perform c l h in let (os, l'', h'') = run cs l' h' in (o ∷ os, l'', h'')

abbrev pub run_nodes : List Call → List ℕ → List (Option ℕ) × List ℕ
run_nodes [] xs = ([], xs)
run_nodes (c ∷ cs) xs =
    let (o, ys) = perform_nodes c xs in let (os, zs) = run_nodes cs ys in (o ∷ os, zs)

-- Only nodes that are not in the list are put in.
abbrev Puts : Call → List ℕ → Type 0
Puts (put_front p) xs = Away p xs
Puts (put_back p) xs = Away p xs
Puts take_front xs = Unit {0}
Puts take_back xs = Unit {0}

unfoldable pub Allowed : List Call → List ℕ → Type 0
Allowed [] xs = Unit {0}
Allowed (c ∷ cs) xs = Puts c xs × Allowed cs (perform_nodes c xs).1

drop_last-append : (x : ℕ) (xs : List ℕ) → drop_last (x ∷ xs) ++ (last_from x xs ∷ []) ≡ x ∷ xs
drop_last-append x [] = refl
drop_last-append x (y ∷ ys) = ap (λ zs. x ∷ zs) (drop_last-append y ys)

pub pop_front-none : (l : CList) (h : Heap) → l.header ≡ none → pop_front l h ≡ (none, l, h)
unfolding pop_front pop_front_from
pop_front-none l h e = rw e refl

pop_back-none : (l : CList) (h : Heap) → l.rear ≡ none → pop_back l h ≡ (none, l, h)
unfolding pop_back pop_back_from
pop_back-none l h e = rw e refl

perform-Whole :
    (c : Call) (l : CList) (h : Heap) (xs : List ℕ)
    → Whole l h xs
    → Puts c xs
    → length xs + 1 < 2 ^ 32
    → let (o, l', h') = perform c l h in
      let (o', xs') = perform_nodes c xs in
      (o ≡ o') × Whole l' h' xs' × (length xs' ≤ length xs + 1)
unfolding perform
perform-Whole (put_front p) l h xs w a n = (refl, push_front-Whole p l h xs w a n, omega arith)
perform-Whole (put_back p) l h xs w a n =
    (refl, push_back-Whole p l h xs w a n, omega (arith, length-append xs (p ∷ [])))
perform-Whole take_front l h [] w a n =
    rw (pop_front-none l h w.holds.header_first) (refl, w, omega arith)
perform-Whole take_front l h (x ∷ xs) w a n =
    let (o, w') = pop_front-Whole l h x xs w (omega arith) in (o, w', omega arith)
perform-Whole take_back l h [] w a n =
    rw (pop_back-none l h w.holds.rear_last) (refl, w, omega arith)
perform-Whole take_back l h (x ∷ xs) w a n =
    let e = drop_last-append x xs in
    let count = length-append (drop_last (x ∷ xs)) (last_from x xs ∷ []) ∙ refl in
    let size : length (drop_last (x ∷ xs)) + 1 ≡ length xs + 1 =
      omega (arith, count, ap length e) in
    let (o, w') =
      pop_back-Whole l h (drop_last (x ∷ xs)) (last_from x xs) (subst (Whole l h) (sym e) w)
        (omega arith) in
    (o, w', omega arith)

run-Whole :
    (cs : List Call) (l : CList) (h : Heap) (xs : List ℕ)
    → Whole l h xs
    → Allowed cs xs
    → length xs + length cs < 2 ^ 32
    → let (os, l', h') = run cs l h in
      let (os', ys) = run_nodes cs xs in (os ≡ os') × Whole l' h' ys
unfolding run Allowed
run-Whole [] l h xs w a n = (refl, w)
run-Whole (c ∷ cs) l h xs w (a, more) n =
    let (o, w', size) = perform-Whole c l h xs w a (omega arith) in
    let (os, w'') =
      run-Whole cs (perform c l h).1 (perform c l h).2 (perform_nodes c xs).1 w' more
        (omega arith) in
    (ap₂ (λ q qs. q ∷ qs) o os, w'')

-- Calls of `push_front`, `push_back`, `pop_front` and `pop_back` in any order, on a list that holds
-- the nodes xs while every other node has null links, and that put in only nodes that are not in the
-- list at that point, with fewer than 2^32 nodes counting those of xs and one for each call: every
-- call returns what the same call of a plain sequence of nodes does, which is null where a pop finds
-- it empty, and at the end the list holds the sequence that is left, with its links, header, rear and
-- size, and every node that is not in it has null links.
pub run-Holds :
    (cs : List Call) (l : CList) (h : Heap) (xs : List ℕ)
    → Holds l h xs
    → ((b : ℕ) → Away b xs → Alone h b)
    → Allowed cs xs
    → length xs + length cs < 2 ^ 32
    → let (os, l', h') = run cs l h in
      let (os', ys) = run_nodes cs xs in
      (os ≡ os') × Holds l' h' ys × ((b : ℕ) → Away b ys → Alone h' b)
run-Holds cs l h xs k others a n =
    let (os, w) = run-Whole cs l h xs (record { holds = k; others = others }) a n in
    (os, w.holds, w.others)
