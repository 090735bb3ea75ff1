-- ===== src/TplList/Middle.antt =====
-- `CList::Detach`: of a node between two others, and of the first.
use zephyr_server.Common.{
  ℕ, ◌+◌, ◌^◌, ◌<◌, ◌≡◌, ◌≢◌, sym, ap, ◌∙◌, true, false, Option, none, some, List, [], ◌∷◌, ◌++◌,
  ◌==◌, length, length-append, sub32, arith,
}
use zephyr_server.TplList.{Heap, set_prev, set_next, CList, same, detach, detach_from}
use zephyr_server.TplList.Ends.{pop_front-Holds}
use zephyr_server.TplList.Chains.{
  first_of, last_from, last_of, Away, Distinct, Chain, Holds, Alone, Chain-set_prev, Chain-set_next,
  Chain-set_first, Away-last, Away-split, last_from-append, Distinct-remove,
}

detach_between :
    (h : Heap) (p x q : ℕ)
    → (h x).prev ≡ some p
    → (h x).next ≡ some q
    → p ≢ x
    → detach x h ≡ set_prev x none (set_next x none (set_prev q (some p) (set_next p (some q) h)))
unfolding detach
detach_between h p x q e f n =
    let t : (x == p) ≡ false = ground arith in
    rw (e, f, t)
      (ap (λ v. set_prev x none (set_next x none (set_prev q v (set_next p (some q) h)))) e)

Chain-unlink :
    (h : Heap) (before : Option ℕ) (w x y : ℕ) (ws ys : List ℕ)
    → Chain h before (w ∷ (ws ++ (x ∷ y ∷ ys)))
    → Distinct (w ∷ (ws ++ (x ∷ y ∷ ys)))
    → let z = last_from w ws in
      ((h x).prev ≡ some z)
      × ((h x).next ≡ some y)
      × (z ≢ x)
      × Chain (set_prev y (some z) (set_next z (some y) h)) before (w ∷ (ws ++ (y ∷ ys)))
unfolding Chain Distinct Away
Chain-unlink h before w x y [] ys (e, f, (g, i, c)) ((n, a), (b, d)) = (
  g,
  i,
  n,
  (
    ground arith,
    ground arith,
    Chain-set_first (some w) (set_next w (some y) h) (some x) y ys d.0
        (Chain-set_next w (some y) h (some x) (y ∷ ys) a c),
  ),
)
Chain-unlink h before w x y (v ∷ vs) ys (e, f, c) (a, d) =
    let (b, (m, (n, k))) = Away-split w (v ∷ vs) (x ∷ y ∷ ys) a in
    let apart = Away-last w v vs b in
    let (g, i, q, r) = Chain-unlink h (some w) v x y vs ys c d in
    (g, i, q, (ground arith, ground arith, r))

-- `CList::Detach` of a node between two others takes it out, leaves it in no list, and counts it down
-- once.
pub detach_from-Holds :
    (l : CList) (h : Heap) (w x y : ℕ) (ws ys : List ℕ)
    → Holds l h (w ∷ (ws ++ (x ∷ y ∷ ys)))
    → length (ws ++ (x ∷ y ∷ ys)) + 1 < 2 ^ 32
    → let (l', h') = detach_from l x h in Holds l' h' (w ∷ (ws ++ (y ∷ ys))) × Alone h' x
unfolding detach_from Distinct Away
detach_from-Holds l h w x y ws ys k n =
    let (e, f, m, c) = Chain-unlink h none w x y ws ys k.chained k.distinct in
    let (away, d) = Distinct-remove x (w ∷ ws) (y ∷ ys) k.distinct in
    let z = last_from w ws in
    let g = set_prev y (some z) (set_next z (some y) h) in
    let rear : l.rear ≡ some (last_from y ys) =
      k.rear_last ∙ ap some (last_from-append w x ws (y ∷ ys)) in
    let not_first : same (some x) l.header ≡ false = rw k.header_first (apart x w away.0) in
    let not_last : same (some x) l.rear ≡ false =
      rw rear
        (apart x (last_from y ys) (Away-last x y ys (Away-split x (w ∷ ws) (y ∷ ys) away).1)) in
    rw (not_first, not_last, detach_between h z x y e f m)
      (
        record {
          header_first = k.header_first;
          rear_last = rear ∙ ap some (sym (last_from-append w y ws ys));
          counted =
              ground (arith, k.counted, length-append ws (x ∷ y ∷ ys), length-append ws (y ∷ ys));
          chained =
              Chain-set_prev x none (set_next x none g) none (w ∷ (ws ++ (y ∷ ys))) away
                (Chain-set_next x none g none (w ∷ (ws ++ (y ∷ ys))) away c);
          distinct = d;
        },
        (ground arith, ground arith),
      )
  where
    apart : (a b : ℕ) → a ≢ b → same (some a) (some b) ≡ false
    apart a b q = ground arith

-- `CList::Detach` of the first node takes it out of the chain and leaves it in no list, but the size is
-- then one too small: `pop_front` has counted it down, and `Detach` counts it down again.
pub detach_from-miscounts :
    (l : CList) (h : Heap) (x : ℕ) (xs : List ℕ)
    → Holds l h (x ∷ xs)
    → length xs + 1 < 2 ^ 32
    → let (l', h') = detach_from l x h in
      Chain h' none xs
      × Alone h' x
      × (l'.header ≡ first_of xs)
      × (l'.rear ≡ last_of xs)
      × (l'.size ≡ sub32 (length xs) 1)
      × (l'.size ≢ length xs)
unfolding detach_from
detach_from-miscounts l h x xs k n =
    let (o, front, alone) = pop_front-Holds l h x xs k n in
    let hit : same (some x) l.header ≡ true = rw k.header_first (ground arith) in
    rw hit (
      front.chained,
      alone,
      front.header_first,
      front.rear_last,
      ap (λ z. sub32 z 1) front.counted,
      ground (arith, front.counted),
    )
