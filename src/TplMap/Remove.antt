-- ===== src/TplMap/Remove.antt =====
-- `ReleaseNode` against the list of items in the order of their keys.
use zephyr_server.Common.{
  ℕ, zero, suc, ◌+◌, ◌≤◌, ◌<◌, ◌≡◌, ◌≢◌, refl, sym, ap, ◌∙◌, subst, inl, inr, true, false, Option,
  none, List, [], ◌∷◌, ◌++◌, le_trans, ltb, ltb→lt, ◌==◌, Bool-cases, arith,
}
use zephyr_server.TplMap.{Item, Tree, null, node, need_rearrange}
use zephyr_server.TplMap.Update.{release_here, release_left, release_right, release_node}
use zephyr_server.TplMap.Order.{to_list, count, Sized, count_of_to_list}
use zephyr_server.TplMap.Lists.{
  Sorted, find_item, erase_item, find_item_left, find_item_right, erase_item_left, erase_item_right,
  Below, Above,
}
use zephyr_server.TplMap.Migrate.{
  need_rearrange-IsNode, migrate_left2right-Raised, migrate_right2left-Raised,
}
use zephyr_server.TplMap.Budget.{budget, budget_mono, budget-ge}
use zephyr_server.TplMap.RemoveHere.{
  Keeps, Present, Released, other, Releases, release_child, Keeps-Around, count-Released,
  release_here-Released,
}

module _ {ℓ} {A : Type ℓ} where
  Keeps-same : (t u : Tree A) → to_list u ≡ to_list t → Sized u → Keeps t → Keeps u
  Keeps-same t u e z k = record { sized = z; sorted = subst Sorted (sym e) k.sorted }

  Present-same : (key : ℕ) (t u : Tree A) → to_list u ≡ to_list t → Present key t → Present key u
  Present-same key t u e p q = p (ap (λ z. find_item z key) (sym e) ∙ q)

  Below-append :
      (xs : List (Item A)) (x : Item A) (ys : List (Item A)) (k : ℕ)
      → Below k (xs ++ (x ∷ ys))
      → x.key < k
  Below-append [] x ys k b = b.0
  Below-append (z ∷ xs) x ys k b = Below-append xs x ys k b.1

  Above-append :
      (xs : List (Item A)) (x : Item A) (ys : List (Item A)) (k : ℕ)
      → Above k (xs ++ (x ∷ ys))
      → k < x.key
  Above-append [] x ys k b = b.0
  Above-append (z ∷ xs) x ys k b = Above-append xs x ys k b.1

  -- After a migration the other side has fewer nodes.
  enough_left :
      (key : ℕ) (l : Tree A) (x : Item A) (r : Tree A) (total before fuel : ℕ)
      → count l + count r ≡ total
      → key < x.key
      → count r < before
      → budget total + before ≤ fuel
      → budget (count l + count r) + 1 + other key l x r ≤ fuel
  enough_left key l x r total before fuel s h c b = rw s (ground arith)

  enough_right :
      (key : ℕ) (l : Tree A) (x : Item A) (r : Tree A) (total before fuel : ℕ)
      → count l + count r ≡ total
      → x.key < key
      → count l < before
      → budget total + before ≤ fuel
      → budget (count l + count r) + 1 + other key l x r ≤ fuel
  enough_right key l x r total before fuel s h c b = rw s (ground arith)

  release_left-Released :
      (fuel key : ℕ) (f : ℕ → Tree A → Option (Tree A)) (l : Tree A) (x : Item A) (n : ℕ)
      (r : Tree A)
      → Releases fuel f
      → Keeps (node l x n r)
      → Present key (node l x n r)
      → key < x.key
      → budget (count l + count r) + count r ≤ fuel
      → Released key (node l x n r) (release_left fuel (f key) l x n r)
  unfolding release_left
  release_left-Released fuel key f l x n r g k p h c =
      let (kl, kr, a) = Keeps-Around l x n r k in
      let b = budget-ge (count l + count r) in
      let in_left : find_item (to_list l) key ≢ none =
        λ q. p (find_item_left key (to_list l) x (to_list r) h a.above ∙ q) in
      elim (Bool-cases (need_rearrange true l r)) [
        | inl e ↦
            let m =
              migrate_right2left-Raised fuel l x n r ((need_rearrange-IsNode l r).1 e) k.sized
                (omega arith) in
            let l' = node l x m.old_size m.middle in
            let t' = node l' m.root m.size m.right in
            let kt = Keeps-same (node l x n r) t' m.same m.sized k in
            let (_, _, a') = Keeps-Around l' m.root m.size m.right kt in
            let below = Below-append (to_list l) x (to_list m.middle) m.root.key a'.below in
            let c' : count t' ≡ count l + count r + 1 = count_of_to_list t' (node l x n r) m.same in
            let s : count l' + count m.right ≡ count l + count r = omega (arith, c') in
            let (u, made, list, sized) =
              g key l' m.root m.size m.right kt (Present-same key (node l x n r) t' m.same p) (
                enough_left key l' m.root m.right (count l + count r) (count r) fuel s (omega arith)
                  (omega arith) c) in
            rw (e, m.made) (u, made, list ∙ ap (erase_item key) m.same, sized)
        | inr e ↦
            let (u, made, list, sized) =
              release_child fuel f key l g kl in_left (
                le_trans (budget_mono (count l) (count l + count r) (omega arith)) (omega arith)) in
            rw (e, made)
              (
                _,
                refl,
                ap (λ z. z ++ (x ∷ to_list r)) list
                    ∙ sym (erase_item_left key (to_list l) x (to_list r) h in_left),
                ground (arith, k.sized, count-Released key l u in_left list),
              )
      ]

  release_right-Released :
      (fuel key : ℕ) (f : ℕ → Tree A → Option (Tree A)) (l : Tree A) (x : Item A) (n : ℕ)
      (r : Tree A)
      → Releases fuel f
      → Keeps (node l x n r)
      → Present key (node l x n r)
      → x.key < key
      → budget (count l + count r) + count l ≤ fuel
      → Released key (node l x n r) (release_right fuel (f key) l x n r)
  unfolding release_right find_item
  release_right-Released fuel key f l x n null g k p h c =
      let (_, _, a) = Keeps-Around l x n null k in
      absurd (p (find_item_right key (to_list l) x [] h a.below))
  release_right-Released fuel key f l x n (node rl rx rn rr) g k p h c =
      let r = node rl rx rn rr in
      let (kl, kr, a) = Keeps-Around l x n r k in
      let b = budget-ge (count l + count r) in
      let in_right : find_item (to_list r) key ≢ none =
        λ q. p (find_item_right key (to_list l) x (to_list r) h a.below ∙ q) in
      elim (Bool-cases (need_rearrange false l r)) [
        | inl e ↦
            let m =
              migrate_left2right-Raised fuel l x n r ((need_rearrange-IsNode l r).0 e) k.sized
                (omega arith) in
            let r' = node m.middle x m.old_size r in
            let t' = node m.left m.root m.size r' in
            let kt = Keeps-same (node l x n r) t' m.same m.sized k in
            let (_, _, a') = Keeps-Around m.left m.root m.size r' kt in
            let above = Above-append (to_list m.middle) x (to_list r) m.root.key a'.above in
            let c' : count t' ≡ count l + count r + 1 = count_of_to_list t' (node l x n r) m.same in
            let s : count m.left + count r' ≡ count l + count r = omega (arith, c') in
            let (u, made, list, sized) =
              g key m.left m.root m.size r' kt (Present-same key (node l x n r) t' m.same p) (
                enough_right key m.left m.root r' (count l + count r) (count l) fuel s (omega arith)
                  (omega arith) c) in
            rw (e, m.made) (u, made, list ∙ ap (erase_item key) m.same, sized)
        | inr e ↦
            let (u, made, list, sized) =
              release_child fuel f key r g kr in_right (
                le_trans (budget_mono (count r) (count l + count r) (omega arith)) (omega arith)) in
            rw (e, made)
              (
                _,
                refl,
                ap (λ z. to_list l ++ (x ∷ z)) list
                    ∙ sym (erase_item_right key (to_list l) x (to_list r) h a.below),
                ground (arith, k.sized, count-Released key r u in_right list),
              )
      ]

  release_node-Releases : (fuel : ℕ) → Releases {A = A} fuel (release_node fuel)
  unfolding release_node
  release_node-Releases zero key l x n r k p h = absurd (omega arith)
  release_node-Releases (suc fuel) key l x n r k p h =
      let g = release_node-Releases fuel in
      let g' : Releases fuel (release_node fuel) = λ q a y m b i j w. g q a y m b i j w in
      elim (Bool-cases (x.key == key)) [
        | inl e ↦
            let e' : x.key ≡ key = ground arith in
            rw e (
              subst (λ q. Released q (node l x n r) (release_here (release_node fuel) l n r)) e'
                (release_here-Released fuel (release_node fuel) l x n r g' k (omega arith)))
        | inr e ↦ elim (Bool-cases (ltb key x.key)) [
          | inl lo ↦
              rw (e, lo)
                (release_left-Released fuel key (release_node fuel) l x n r g' k p (ltb→lt _ _ lo)
                  (ground arith))
          | inr hi ↦
              rw (e, hi)
                (release_right-Released fuel key (release_node fuel) l x n r g' k p (ground arith)
                  (ground arith))
        ]
      ]

  -- With fuel by `budget` `ReleaseNode` does not fault on a key of the tree: the new tree has the other
  -- items in order, and its sizes are right.
  pub release_node-Released :
      (fuel key : ℕ) (t : Tree A)
      → Keeps t
      → Present key t
      → budget (count t) ≤ fuel
      → Released key t (release_node fuel key t)
  release_node-Released fuel key t k p h =
      release_child fuel (release_node fuel) key t (release_node-Releases fuel) k p h
