-- ===== src/TplMap/Insert.antt =====
-- `AddNode` against the list of items in the order of their keys.
use zephyr_server.Common.{
  ℕ, zero, suc, ◌+◌, ◌≤◌, ◌<◌, ◌≡◌, ◌≢◌, refl, sym, ap, ◌∙◌, subst, inl, inr, true, false, Option,
  some, ◌>>=◌, ◌∷◌, ◌++◌, length, ltb, ltb→lt, ◌==◌, Bool-cases, arith,
}
use zephyr_server.TplMap.{Item, Tree, null, node, need_rearrange}
use zephyr_server.TplMap.Update.{
  add_child, add_below_right, add_below_left, add_left, add_right, add_node,
}
use zephyr_server.TplMap.Order.{to_list, count, Sized, IsNode, count_of_to_list, count-to_list}
use zephyr_server.TplMap.Lists.{
  Sorted, Around, Sorted-Around, insert_item, insert_item_left, insert_item_right, Foreign,
  Foreign-append, length-insert_item,
}
use zephyr_server.TplMap.Migrate.{
  need_rearrange-IsNode, migrate_left2right-Raised, migrate_right2left-Raised,
}

module _ {ℓ} {A : Type ℓ} (new : Item A) where
  -- `o` is `t` with the new item in its place, and right sizes.
  abbrev pub Added : Tree A → Option (Tree A) → Type ℓ
  Added t o = (u : Tree A) × (o ≡ some u) × (to_list u ≡ insert_item new (to_list t)) × Sized u

  -- A tree that the new item can be added to.
  pub record Takes (t : Tree A) : Type 0 where
    pub sized : Sized t
    pub sorted : Sorted (to_list t)
    pub foreign : Foreign new.addr (to_list t)

  -- `f` adds the new item to every tree of at most `k` nodes.
  abbrev Adds : ℕ → (Tree A → Option (Tree A)) → Type ℓ
  Adds k f = (t : Tree A) → IsNode t → Takes t → count t ≤ k → Added t (f t)

  -- The parts of a tree.
  Takes-Around :
      (l : Tree A) (x : Item A) (n : ℕ) (r : Tree A)
      → Takes (node l x n r)
      → Takes l × Takes r × Around (to_list l) x.key (to_list r) × (x.addr ≢ new.addr)
  Takes-Around l x n r s =
      let a = Sorted-Around (to_list l) x (to_list r) s.sorted in
      let (fl, fr) = Foreign-append new.addr (to_list l) (x ∷ to_list r) s.foreign in
      (
        record { sized = s.sized.1; sorted = a.sorted_left; foreign = fl },
        record { sized = s.sized.2; sorted = a.sorted_right; foreign = fr.1 },
        a,
        fr.0,
      )

  -- What a migration leaves takes the new item too.
  Takes-same : (t u : Tree A) → to_list u ≡ to_list t → Sized u → Takes t → Takes u
  Takes-same t u e z s = record {
    sized = z;
    sorted = subst Sorted (sym e) s.sorted;
    foreign = subst (Foreign new.addr) (sym e) s.foreign;
  }

  count-Added : (t u : Tree A) → to_list u ≡ insert_item new (to_list t) → count u ≡ count t + 1
  count-Added t u e =
      omega
        (arith, ap length e, length-insert_item new (to_list t), count-to_list t, count-to_list u)

  -- The new item goes into the left part.
  into_left :
      (l : Tree A) (x : Item A) (n : ℕ) (r : Tree A) (o : Option (Tree A))
      → Takes (node l x n r)
      → new.key < x.key
      → Added l o
      → Added (node l x n r) (o >>= λ l'. some (node l' x (n + 1) r))
  into_left l x n r o s h (l', made, list, sized) = rw made (
    _,
    refl,
    ap (λ z. z ++ (x ∷ to_list r)) list ∙ sym (insert_item_left new (to_list l) x (to_list r) h),
    ground (arith, s.sized, count-Added l l' list),
  )

  into_right :
      (l : Tree A) (x : Item A) (n : ℕ) (r : Tree A) (o : Option (Tree A))
      → Takes (node l x n r)
      → x.key ≤ new.key
      → Added r o
      → Added (node l x n r) (o >>= λ r'. some (node l x (n + 1) r'))
  into_right l x n r o s h (r', made, list, sized) =
      let (_, _, a, _) = Takes-Around l x n r s in
      rw made (
        _,
        refl,
        ap (λ z. to_list l ++ (x ∷ z)) list
            ∙ sym (insert_item_right new (to_list l) x (to_list r) a.below h),
        ground (arith, s.sized, count-Added r r' list),
      )

  add_child-Added :
      (k : ℕ) (f : Tree A → Option (Tree A)) (t : Tree A)
      → Adds k f
      → Takes t
      → count t ≤ k
      → Added t (add_child f t new)
  unfolding add_child insert_item
  add_child-Added k f null g s h = (_, refl, refl, (refl, tt, tt))
  add_child-Added k f (node l x n r) g s h = g (node l x n r) tt s h

  -- A migration to the right leaves a right child, one to the left a left child.
  add_below_right-Added :
      (k : ℕ) (f : Tree A → Option (Tree A)) (l : Tree A) (x : Item A) (n : ℕ) (r : Tree A)
      → Adds k f
      → Takes (node l x n r)
      → IsNode r
      → count l + count r ≤ k
      → Added (node l x n r) (add_below_right f new (node l x n r))
  unfolding add_below_right
  add_below_right-Added k f l x n r g s i h =
      let (sl, sr, _, _) = Takes-Around l x n r s in
      elim (Bool-cases (ltb new.key x.key)) [
        | inl e ↦ rw e (
            into_left l x n r (add_child f l new) s (ltb→lt _ _ e)
              (add_child-Added k f l g sl (omega arith)))
        | inr e ↦ rw e (into_right l x n r (f r) s (ground arith) (g r i sr (omega arith)))
      ]

  add_below_left-Added :
      (k : ℕ) (f : Tree A → Option (Tree A)) (l : Tree A) (x : Item A) (n : ℕ) (r : Tree A)
      → Adds k f
      → Takes (node l x n r)
      → IsNode l
      → count l + count r ≤ k
      → Added (node l x n r) (add_below_left f new (node l x n r))
  unfolding add_below_left
  add_below_left-Added k f l x n r g s i h =
      let (sl, sr, _, _) = Takes-Around l x n r s in
      elim (Bool-cases (ltb new.key x.key)) [
        | inl e ↦ rw e (into_left l x n r (f l) s (ltb→lt _ _ e) (g l i sl (omega arith)))
        | inr e ↦ rw e (
            into_right l x n r (add_child f r new) s (ground arith)
              (add_child-Added k f r g sr (omega arith)))
      ]

  add_left-Added :
      (k : ℕ) (f : Tree A → Option (Tree A)) (l : Tree A) (x : Item A) (n : ℕ) (r : Tree A)
      → Adds k f
      → Takes (node l x n r)
      → new.key < x.key
      → count l + count r ≤ k
      → Added (node l x n r) (add_left k f new l x n r)
  unfolding add_left
  add_left-Added k f l x n r g s h c =
      let (sl, sr, _, _) = Takes-Around l x n r s in
      elim (Bool-cases (need_rearrange false l r)) [
        | inl e ↦
            let m =
              migrate_left2right-Raised k l x n r ((need_rearrange-IsNode l r).0 e) s.sized
                (omega arith) in
            let t' = node m.left m.root m.size (node m.middle x m.old_size r) in
            let c' : count t' ≡ count l + count r + 1 = count_of_to_list t' (node l x n r) m.same in
            let (u, made, list, sized) =
              add_below_right-Added k f m.left m.root m.size (node m.middle x m.old_size r) g
                (Takes-same (node l x n r) t' m.same m.sized s) tt (omega arith) in
            rw (e, m.made) (u, made, list ∙ ap (insert_item new) m.same, sized)
        | inr e ↦
            rw e
              (into_left l x n r (add_child f l new) s h (add_child-Added k f l g sl (omega arith)))
      ]

  add_right-Added :
      (k : ℕ) (f : Tree A → Option (Tree A)) (l : Tree A) (x : Item A) (n : ℕ) (r : Tree A)
      → Adds k f
      → Takes (node l x n r)
      → x.key ≤ new.key
      → count l + count r ≤ k
      → Added (node l x n r) (add_right k f new l x n r)
  unfolding add_right
  add_right-Added k f l x n r g s h c =
      let (sl, sr, _, _) = Takes-Around l x n r s in
      elim (Bool-cases (need_rearrange true l r)) [
        | inl e ↦
            let m =
              migrate_right2left-Raised k l x n r ((need_rearrange-IsNode l r).1 e) s.sized
                (omega arith) in
            let t' = node (node l x m.old_size m.middle) m.root m.size m.right in
            let c' : count t' ≡ count l + count r + 1 = count_of_to_list t' (node l x n r) m.same in
            let (u, made, list, sized) =
              add_below_left-Added k f (node l x m.old_size m.middle) m.root m.size m.right g
                (Takes-same (node l x n r) t' m.same m.sized s) tt (omega arith) in
            rw (e, m.made) (u, made, list ∙ ap (insert_item new) m.same, sized)
        | inr e ↦
            rw e (
              into_right l x n r (add_child f r new) s h (add_child-Added k f r g sr (omega arith)))
      ]

  -- With fuel for all its nodes `AddNode` does not fault: the new tree has the old items and the new
  -- one in the order of the keys, and its sizes are right.
  pub add_node-Added :
      (fuel : ℕ) (t : Tree A) → IsNode t → Takes t → count t ≤ fuel → Added t (add_node fuel new t)
  unfolding add_node
  add_node-Added zero null i s h = absurd i
  add_node-Added zero (node l x n r) i s h = absurd (omega arith)
  add_node-Added (suc fuel) null i s h = absurd i
  add_node-Added (suc fuel) (node l x n r) i s h =
      let (_, _, _, other) = Takes-Around l x n r s in
      let different : (x.addr == new.addr) ≡ false = ground arith in
      let g = add_node-Added fuel in
      elim (Bool-cases (ltb new.key x.key)) [
        | inl e ↦
            rw (different, e)
              (add_left-Added fuel (add_node fuel new) l x n r (λ t j z k. g t j z k) s
                (ltb→lt _ _ e) (omega arith))
        | inr e ↦
            rw (different, e)
              (add_right-Added fuel (add_node fuel new) l x n r (λ t j z k. g t j z k) s
                (ground arith) (omega arith))
      ]
