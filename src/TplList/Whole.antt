-- ===== src/TplList/Whole.antt =====
-- The ends of a list among all the nodes of the heap.
use zephyr_server.Common.{
  ℕ, ◌+◌, ◌^◌, ◌<◌, ◌≡◌, ◌≢◌, sym, ap, ◌∙◌, subst, inl, inr, none, some, List, [], ◌∷◌, ◌++◌, ◌==◌,
  ==_iff, length, Bool-cases, arith,
}
use zephyr_server.TplList.{
  Heap, CList, attach_list, pop_front, pop_back, push_front, push_front_at, push_back, push_back_at,
}
use zephyr_server.TplList.Chains.{
  last_from, Away, Distinct, Chain, Holds, Alone, Away-last, Away-split, last_from-append,
}
use zephyr_server.TplList.Ends.{
  Away-append, push_front-Holds, push_back-Holds, pop_front-Holds, pop_front_one, pop_front_more,
  detach_first,
}
use zephyr_server.TplList.Back.{
  pop_back-Holds, pop_back_one, pop_back_more, detach_last, Chain-drop_last,
}

-- The list holds `xs`, and every other node is in no list.
pub record Whole (l : CList) (h : Heap) (xs : List ℕ) : Type 0 where
  pub holds : Holds l h xs
  pub others : (b : ℕ) → Away b xs → Alone h b

pub push_front-Whole :
    (p : ℕ) (l : CList) (h : Heap) (xs : List ℕ)
    → Whole l h xs
    → Away p xs
    → length xs + 1 < 2 ^ 32
    → let (l', h') = push_front p l h in Whole l' h' (p ∷ xs)
unfolding push_front push_front_at attach_list Away
push_front-Whole p l h [] w a n =
    let k = push_front-Holds p l h [] w.holds (w.others p a) a n in
    record { holds = k; others = λ b away. rw w.holds.header_first (w.others b tt) }
push_front-Whole p l h (x ∷ xs) w a n =
    let k = push_front-Holds p l h (x ∷ xs) w.holds (w.others p a) a n in
    record {
      holds = k;
      others = λ b (c, d).
          (let (e, f) = w.others b d in rw w.holds.header_first (ground arith, ground arith));
    }

pub push_back-Whole :
    (p : ℕ) (l : CList) (h : Heap) (xs : List ℕ)
    → Whole l h xs
    → Away p xs
    → length xs + 1 < 2 ^ 32
    → let (l', h') = push_back p l h in Whole l' h' (xs ++ (p ∷ []))
unfolding push_back push_back_at attach_list Away
push_back-Whole p l h [] w a n =
    let k = push_back-Holds p l h [] w.holds (w.others p a) a n in
    record { holds = k; others = λ b away. rw w.holds.rear_last (w.others b tt) }
push_back-Whole p l h (x ∷ xs) w a n =
    let k = push_back-Holds p l h (x ∷ xs) w.holds (w.others p a) a n in
    record {
      holds = k;
      others = λ b away.
          (let (d, (c, _)) = Away-split b (x ∷ xs) (p ∷ []) away in
            let last = Away-last b x xs d in
            let (e, f) = w.others b d in rw w.holds.rear_last (ground arith, ground arith));
    }

pub pop_front-Whole :
    (l : CList) (h : Heap) (x : ℕ) (xs : List ℕ)
    → Whole l h (x ∷ xs)
    → length xs + 1 < 2 ^ 32
    → let (o, l', h') = pop_front l h in (o ≡ some x) × Whole l' h' xs
unfolding Away Chain Distinct
pop_front-Whole l h x xs w n =
    let (o, k, alone) = pop_front-Holds l h x xs w.holds n in
    (
      o,
      record {
        holds = k;
        others = λ b a. elim (Bool-cases (b == x)) [
          | inl e ↦ subst (Alone (pop_front l h).2) (sym ((==_iff b x).0 e)) alone
          | inr e ↦ other xs w b a (λ q. ground arith)
        ];
      },
    )
  where
    other :
        (zs : List ℕ) → Whole l h (x ∷ zs) → (b : ℕ) → Away b zs → b ≢ x → Alone (pop_front l h).2 b
    other [] v b a n' =
        rw (pop_front_one l h x v.holds.header_first v.holds.rear_last) (v.others b (n', a))
    other (y ∷ ys) v b (m, a) n' =
        let (e, f, c) = v.holds.chained in
        let (d, _) = v.holds.distinct in
        let (g, i) = v.others b (n', (m, a)) in
        rw
          (
            pop_front_more l h x (last_from y ys) v.holds.header_first v.holds.rear_last
                (Away-last x y ys d),
            detach_first h x y e f,
          )
          (ground arith, ground arith)

pub pop_back-Whole :
    (l : CList) (h : Heap) (xs : List ℕ) (y : ℕ)
    → Whole l h (xs ++ (y ∷ []))
    → length xs + 1 < 2 ^ 32
    → let (o, l', h') = pop_back l h in (o ≡ some y) × Whole l' h' xs
unfolding Away Chain Distinct
pop_back-Whole l h xs y w n =
    let (o, k, alone) = pop_back-Holds l h xs y w.holds n in
    (
      o,
      record {
        holds = k;
        others = λ b a. elim (Bool-cases (b == y)) [
          | inl e ↦ subst (Alone (pop_back l h).2) (sym ((==_iff b y).0 e)) alone
          | inr e ↦ other xs w b a (λ q. ground arith)
        ];
      },
    )
  where
    other :
        (zs : List ℕ)
        → Whole l h (zs ++ (y ∷ []))
        → (b : ℕ) → Away b zs
        → b ≢ y
        → Alone (pop_back l h).2 b
    other [] v b a n' =
        rw (pop_back_one l h y v.holds.header_first v.holds.rear_last) (v.others b (n', tt))
    other (z ∷ zs) v b a n' =
        let (e, f, m, c) = Chain-drop_last h none z y zs v.holds.chained v.holds.distinct in
        let apart = Away-last b z zs a in
        let (_, (z_y, _)) = Away-split z zs (y ∷ []) (v.holds.distinct.0) in
        let (g, i) = v.others b (Away-append b y (z ∷ zs) n' a) in
        let rear : l.rear ≡ some y = v.holds.rear_last ∙ ap some (last_from-append z y zs []) in
        rw
          (
            pop_back_more l h z y v.holds.header_first rear z_y,
            detach_last h (last_from z zs) y e f m,
          )
          (ground arith, ground arith)
