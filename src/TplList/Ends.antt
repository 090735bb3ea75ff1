-- ===== src/TplList/Ends.antt =====
-- Putting nodes at the ends of a list and taking them off.
use zephyr_server.Common.{
  ℕ, ◌+◌, ◌^◌, ◌<◌, ◌≡◌, ◌≢◌, refl, sym, ap, true, false, Option, none, some, List, [], ◌∷◌, ◌++◌,
  ◌==◌, length, length-append, sub32, arith,
}
use zephyr_server.TplList.{
  Heap, set_prev, set_next, CList, detach, attach_list, pop_front, pop_front_from, push_front,
  push_front_at, push_back, push_back_at,
}
use zephyr_server.TplList.Chains.{
  last_from, Away, Distinct, Chain, Holds, Alone, Chain-set_prev, Chain-set_next, Chain-set_first,
  Away-last, last_from-append,
}

-- `push_front` of a node that is in no list puts it before the nodes of the list.
pub push_front-Holds :
    (p : ℕ) (l : CList) (h : Heap) (xs : List ℕ)
    → Holds l h xs
    → Alone h p
    → Away p xs
    → length xs + 1 < 2 ^ 32
    → let (l', h') = push_front p l h in Holds l' h' (p ∷ xs)
unfolding push_front push_front_at attach_list Chain Distinct Away
push_front-Holds p l h [] k (e, f) a n = rw k.header_first (record {
  header_first = refl;
  rear_last = refl;
  counted = ground (arith, k.counted);
  chained = (e, f, tt);
  distinct = (tt, tt);
})
push_front-Holds p l h (x ∷ xs) k (e, f) a n = rw k.header_first (record {
  header_first = refl;
  rear_last = k.rear_last;
  counted = ground (arith, k.counted);
  chained = (
    ground arith,
    ground arith,
    Chain-set_next p (some x) (set_prev x (some p) h) (some p) (x ∷ xs) a
        (Chain-set_first (some p) h none x xs k.distinct.0 k.chained),
  );
  distinct = (a, k.distinct);
})

-- The three ways of `pop_front`.
pub pop_front_one :
    (l : CList) (h : Heap) (x : ℕ)
    → l.header ≡ some x
    → l.rear ≡ some x
    → pop_front l h ≡ (some x, record { header = none; rear = none; size = sub32 l.size 1 }, h)
unfolding pop_front pop_front_from
pop_front_one l h x e f = let t : (x == x) ≡ true = ground arith in rw (e, f, t) refl

pub pop_front_more :
    (l : CList) (h : Heap) (x z : ℕ)
    → l.header ≡ some x
    → l.rear ≡ some z
    → x ≢ z
    → pop_front l h ≡ (some x, record l { header = (h x).next; size = sub32 l.size 1 }, detach x h)
unfolding pop_front pop_front_from
pop_front_more l h x z e f n = let t : (x == z) ≡ false = ground arith in rw (e, f, t) refl

pub detach_first :
    (h : Heap) (x y : ℕ)
    → (h x).prev ≡ none
    → (h x).next ≡ some y
    → detach x h ≡ set_prev x none (set_next x none (set_prev y none h))
unfolding detach
detach_first h x y e f = rw (e, f) (ap (λ v. set_prev x none (set_next x none (set_prev y v h))) e)

-- `pop_front` takes the first node off, and leaves it in no list.
pub pop_front-Holds :
    (l : CList) (h : Heap) (x : ℕ) (xs : List ℕ)
    → Holds l h (x ∷ xs)
    → length xs + 1 < 2 ^ 32
    → let (o, l', h') = pop_front l h in (o ≡ some x) × Holds l' h' xs × Alone h' x
unfolding Chain Distinct Away
pop_front-Holds l h x [] k n =
    let (e, f, c) = k.chained in
    rw (pop_front_one l h x k.header_first k.rear_last) (
      refl,
      record {
        header_first = refl;
        rear_last = refl;
        counted = ground (arith, k.counted);
        chained = tt;
        distinct = tt;
      },
      (e, f),
    )
pop_front-Holds l h x (y ∷ ys) k n =
    let (e, f, c) = k.chained in
    let (a, d) = k.distinct in
    rw
      (
        pop_front_more l h x (last_from y ys) k.header_first k.rear_last (Away-last x y ys a),
        detach_first h x y e f,
      )
      (
        refl,
        record {
          header_first = f;
          rear_last = k.rear_last;
          counted = ground (arith, k.counted);
          chained = Chain-set_prev x none (set_next x none (set_prev y none h)) none (y ∷ ys) a (
              Chain-set_next x none (set_prev y none h) none (y ∷ ys) a
                (Chain-set_first none h (some x) y ys d.0 c));
          distinct = d;
        },
        (ground arith, ground arith),
      )

-- A node behind the last one.
Chain-set_last :
    (p : ℕ) (h : Heap) (before : Option ℕ) (x : ℕ) (xs : List ℕ)
    → Chain h before (x ∷ xs)
    → Distinct (x ∷ xs)
    → Away p (x ∷ xs)
    → (h p).next ≡ none
    → let z = last_from x xs in
      Chain (set_next z (some p) (set_prev p (some z) h)) before (x ∷ (xs ++ (p ∷ [])))
unfolding Chain Distinct Away
Chain-set_last p h before x [] (e, f, c) d (n, a) u =
    (ground arith, ground arith, (ground arith, ground arith, tt))
Chain-set_last p h before x (y ∷ ys) (e, f, c) ((m, b), d) (n, a) u =
    let apart = Away-last x y ys (m, b) in
    (ground arith, ground arith, Chain-set_last p h (some x) y ys c d a u)

pub Away-append : (x p : ℕ) (xs : List ℕ) → x ≢ p → Away x xs → Away x (xs ++ (p ∷ []))
unfolding Away
Away-append x p [] n a = (n, tt)
Away-append x p (y ∷ ys) n (m, a) = (m, Away-append x p ys n a)

Distinct-append : (p : ℕ) (xs : List ℕ) → Distinct xs → Away p xs → Distinct (xs ++ (p ∷ []))
unfolding Distinct Away
Distinct-append p [] d a = (tt, tt)
Distinct-append p (x ∷ xs) (b, d) (n, a) =
    (Away-append x p xs (λ e. n (sym e)) b, Distinct-append p xs d a)

-- `push_back` of a node that is in no list puts it behind the nodes of the list.
pub push_back-Holds :
    (p : ℕ) (l : CList) (h : Heap) (xs : List ℕ)
    → Holds l h xs
    → Alone h p
    → Away p xs
    → length xs + 1 < 2 ^ 32
    → let (l', h') = push_back p l h in Holds l' h' (xs ++ (p ∷ []))
unfolding push_back push_back_at attach_list Chain Distinct Away
push_back-Holds p l h [] k (e, f) a n = rw k.rear_last (record {
  header_first = refl;
  rear_last = refl;
  counted = ground (arith, k.counted);
  chained = (e, f, tt);
  distinct = (tt, tt);
})
push_back-Holds p l h (x ∷ xs) k (e, f) a n = rw k.rear_last (record {
  header_first = k.header_first;
  rear_last = ap some (sym (last_from-append x p xs []));
  counted = ground (arith, k.counted, length-append xs (p ∷ []));
  chained = Chain-set_last p h none x xs k.chained k.distinct a f;
  distinct = Distinct-append p (x ∷ xs) k.distinct a;
})
