-- ===== src/TplList/Back.antt =====
-- Taking the last node off a list.
use zephyr_server.Common.{
  ℕ, ◌+◌, ◌^◌, ◌<◌, ◌≡◌, ◌≢◌, refl, sym, ap, ◌∙◌, subst, true, false, Option, none, some, List, [],
  ◌∷◌, ◌++◌, append-nil, ◌==◌, length, length-append, sub32, arith,
}
use zephyr_server.TplList.{Heap, set_prev, set_next, CList, detach, pop_back, pop_back_from}
use zephyr_server.TplList.Chains.{
  last_from, Away, Distinct, Chain, Holds, Alone, Chain-set_prev, Chain-set_next, Away-last,
  Away-split, last_from-append, Distinct-remove,
}

-- The two ways of `pop_back` on a list with nodes.
pub pop_back_one :
    (l : CList) (h : Heap) (x : ℕ)
    → l.header ≡ some x
    → l.rear ≡ some x
    → pop_back l h ≡ (some x, record { header = none; rear = none; size = sub32 l.size 1 }, h)
unfolding pop_back pop_back_from
pop_back_one l h x e f = let t : (x == x) ≡ true = ground arith in rw (f, e, t) refl

pub pop_back_more :
    (l : CList) (h : Heap) (x z : ℕ)
    → l.header ≡ some x
    → l.rear ≡ some z
    → x ≢ z
    → pop_back l h ≡ (some z, record l { rear = (h z).prev; size = sub32 l.size 1 }, detach z h)
unfolding pop_back pop_back_from
pop_back_more l h x z e f n = let t : (x == z) ≡ false = ground arith in rw (f, e, t) refl

pub detach_last :
    (h : Heap) (p x : ℕ)
    → (h x).prev ≡ some p
    → (h x).next ≡ none
    → p ≢ x
    → detach x h ≡ set_prev x none (set_next x none (set_next p none h))
unfolding detach
detach_last h p x e f n = let t : (x == p) ≡ false = ground arith in rw (e, f, t) refl

pub Chain-drop_last :
    (h : Heap) (before : Option ℕ) (w y : ℕ) (ws : List ℕ)
    → Chain h before (w ∷ (ws ++ (y ∷ [])))
    → Distinct (w ∷ (ws ++ (y ∷ [])))
    → let z = last_from w ws in
      ((h y).prev ≡ some z)
      × ((h y).next ≡ none)
      × (z ≢ y)
      × Chain (set_next z none h) before (w ∷ ws)
unfolding Chain Distinct Away
Chain-drop_last h before w y [] (e, f, (g, i, c)) ((n, a), d) =
    (g, i, n, (ground arith, ground arith, tt))
Chain-drop_last h before w y (v ∷ vs) (e, f, c) (a, d) =
    let (b, m) = Away-split w (v ∷ vs) (y ∷ []) a in
    let apart = Away-last w v vs b in
    let (g, i, q, r) = Chain-drop_last h (some w) v y vs c d in
    (g, i, q, (ground arith, ground arith, r))

-- `pop_back` takes the last node off, and leaves it in no list.
pub pop_back-Holds :
    (l : CList) (h : Heap) (xs : List ℕ) (y : ℕ)
    → Holds l h (xs ++ (y ∷ []))
    → length xs + 1 < 2 ^ 32
    → let (o, l', h') = pop_back l h in (o ≡ some y) × Holds l' h' xs × Alone h' y
unfolding Chain Distinct Away
pop_back-Holds l h [] y k n =
    let (e, f, c) = k.chained in
    rw (pop_back_one l h y k.header_first k.rear_last) (
      refl,
      record {
        header_first = refl;
        rear_last = refl;
        counted = ground (arith, k.counted);
        chained = tt;
        distinct = tt;
      },
      (e, f),
    )
pop_back-Holds l h (w ∷ ws) y k n =
    let (e, f, m, c) = Chain-drop_last h none w y ws k.chained k.distinct in
    let (away, d) = Distinct-remove y (w ∷ ws) [] k.distinct in
    let z = last_from w ws in
    let flat : ws ++ [] ≡ ws = append-nil ws in
    let away' : Away y (w ∷ ws) = subst (λ zs. Away y (w ∷ zs)) flat away in
    let rear : l.rear ≡ some y = k.rear_last ∙ ap some (last_from-append w y ws []) in
    rw (pop_back_more l h w y k.header_first rear (λ q. away'.0 (sym q)), detach_last h z y e f m)
      (
        refl,
        record {
          header_first = k.header_first;
          rear_last = e;
          counted = ground (arith, k.counted, length-append ws (y ∷ []));
          chained =
              Chain-set_prev y none (set_next y none (set_next z none h)) none (w ∷ ws) away'
                (Chain-set_next y none (set_next z none h) none (w ∷ ws) away' c);
          distinct = subst (λ zs. Distinct (w ∷ zs)) flat d;
        },
        (ground arith, ground arith),
      )
