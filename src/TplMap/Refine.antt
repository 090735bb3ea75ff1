-- ===== src/TplMap/Refine.antt =====
-- The operations of `TplMap` against the list of items in the order of their keys.
use zephyr_server.Common.{
  ℕ, ◌<◌, ◌≡◌, refl, sym, ap, ◌∙◌, subst, inl, inr, true, false, Option, none, some, some≢none,
  List, ◌∷◌, ◌++◌, length, ltb, ltb→lt, ◌==◌, Bool-cases, ==_iff, Option-cases, arith,
}
use mathlib.Core.List.{head?, reverse, reverse-append}
use mathlib.Core.Option.{some-injective}
use zephyr_server.TplMap.{Item, Tree, null, node, get_tree_size, find_node, root_item}
use zephyr_server.TplMap.Update.{add_node}
use zephyr_server.TplMap.Facade.{
  Code, success, fail, safe_add_node, safe_release_node, add_in_tree, remove_from_tree,
  get_item_by_key, first, last, get_actived_size,
}
use zephyr_server.TplMap.Order.{to_list, count, Sized, IsNode, count-to_list, get_tree_size-Sized}
use zephyr_server.TplMap.Lists.{
  Sorted, Sorted-Around, find_item, insert_item, erase_item, find_item_left, find_item_right,
  find_item_here, insert_item-Sorted, erase_item-Sorted,
}
use zephyr_server.TplMap.Insert.{Takes, add_node-Added}
use zephyr_server.TplMap.Budget.{budget, budget_mono}
use zephyr_server.TplMap.RemoveHere.{Keeps, get_smallest_first, get_bigest_last}
use zephyr_server.TplMap.Remove.{release_node-Released}

eq_of_test : (a b : ℕ) → (a == b) ≡ true → a ≡ b
eq_of_test a b e = ground arith

lt_of_tests : (a b : ℕ) → (a == b) ≡ false → ltb b a ≡ false → a < b
lt_of_tests a b e h = ground arith

module _ {ℓ} {A : Type ℓ} where
  pub found_item :
      (t : Tree A) (key : ℕ)
      → Sorted (to_list t)
      → root_item (find_node t key) ≡ find_item (to_list t) key
  unfolding root_item find_node find_item
  found_item null key s = refl
  found_item (node l x n r) key s =
      let a = Sorted-Around (to_list l) x (to_list r) s in
      elim (Bool-cases (x.key == key)) [
        | inl e ↦ rw e (
            subst (λ q. some x ≡ find_item (to_list l ++ (x ∷ to_list r)) q)
              (eq_of_test x.key key e) (sym (find_item_here (to_list l) x (to_list r) a.below)))
        | inr e ↦ elim (Bool-cases (ltb key x.key)) [
          | inl lo ↦
              rw (e, lo)
                (found_item l key a.sorted_left
                  ∙ sym (find_item_left key (to_list l) x (to_list r) (ltb→lt _ _ lo) a.above))
          | inr hi ↦
              rw (e, hi)
                (found_item r key a.sorted_right
                  ∙ sym (
                      find_item_right key (to_list l) x (to_list r) (lt_of_tests x.key key e hi)
                        a.below))
        ]
      ]

  -- The sizes are right and the keys in order, and no address stands twice for the new item's.
  pub add_node_lem :
      (new : Item A) (t : Tree A)
      → IsNode t
      → Takes new t
      → (u : Tree A) × (add_node (get_tree_size t) new t ≡ some u)
        × (to_list u ≡ insert_item new (to_list t))
        × Sized u
  add_node_lem new t i s =
      add_node-Added new (get_tree_size t) t i s (omega (arith, get_tree_size-Sized t s.sized))

  -- `GetItemByKey` finds in a tree in order what a search of the list of its items finds.
  pub get_item_by_key_lem :
      (t : Tree A) (key : ℕ)
      → Sorted (to_list t)
      → get_item_by_key t key ≡ find_item (to_list t) key
  unfolding get_item_by_key
  get_item_by_key_lem t key s = found_item t key s

  -- What `AddInTree` does to the list of the items, with its result.
  abbrev pub add_unless_item : Option (Item A) → Item A → List (Item A) → Code × List (Item A)
  add_unless_item (some x) new xs = (fail, xs)
  add_unless_item none new xs = (success, insert_item new xs)

  abbrev pub add_item : Item A → List (Item A) → Code × List (Item A)
  add_item new xs = add_unless_item (find_item xs new.key) new xs

  -- `AddInTree` of an item whose address is not in the tree does not fault: a key that the tree has is
  -- refused and the tree is as before; else the item is put in its place and the sizes are right.
  pub add_in_tree_refines :
      (new : Item A) (t : Tree A)
      → Takes new t
      → (c : Code) × (u : Tree A) × (add_in_tree (some new) t ≡ some (c, u))
        × ((c, to_list u) ≡ add_item new (to_list t))
        × Sized u
  unfolding add_in_tree safe_add_node find_item insert_item
  add_in_tree_refines new null s = (_, _, refl, refl, (refl, tt, tt))
  add_in_tree_refines new (node l x n r) s =
      let t = node l x n r in
      let look = found_item t new.key s.sorted in
      elim (Option-cases (find_item (to_list t) new.key)) [
        | inl e ↦
            let (u, made, list, sized) = add_node_lem new t tt s in
            rw (e, look ∙ e, made) (_, _, refl, ap (λ z. (success, z)) list, sized)
        | inr (y, e) ↦ rw (e, look ∙ e) (_, _, refl, refl, s.sized)
      ]

  -- `AddInTree` leaves a tree with right sizes and keys in order.
  add_unless-Keeps :
      (new : Item A) (xs : List (Item A)) (c : Code) (u : Tree A)
      → Sorted xs
      → (c, to_list u) ≡ add_item new xs
      → Sorted (to_list u)
  add_unless-Keeps new xs c u s e = elim (Option-cases (find_item xs new.key)) [
    | inl f ↦
        subst Sorted
          (sym (ap (λ (z : Code × List (Item A)). z.1) (e ∙ ap (λ o. add_unless_item o new xs) f)))
          (insert_item-Sorted new xs f s)
    | inr (y, f) ↦
        subst Sorted
          (sym (ap (λ (z : Code × List (Item A)). z.1) (e ∙ ap (λ o. add_unless_item o new xs) f)))
          s
  ]

  -- A tree in order with right sizes stays one under `AddInTree` of an item whose address is not in it,
  -- whether the key is taken or refused, so calls can follow each other.
  pub add_in_tree-Keeps :
      (new : Item A) (t : Tree A)
      → Takes new t
      → (c : Code) × (u : Tree A) × (add_in_tree (some new) t ≡ some (c, u)) × Keeps u
  add_in_tree-Keeps new t s =
      let (c, u, made, list, sized) = add_in_tree_refines new t s in
      (
        c,
        u,
        made,
        record { sized = sized; sorted = add_unless-Keeps new (to_list t) c u s.sorted list },
      )

  -- A pointer to an item's node.
  pub node_of_root :
      (u : Tree A) (y : Item A)
      → root_item u ≡ some y
      → (l : Tree A) × (n : ℕ) × (r : Tree A) × (u ≡ node l y n r)
  unfolding root_item
  node_of_root null y h = absurd (some≢none (sym h))
  node_of_root (node l z n r) y h = (l, n, r, ap (λ w. node l w n r) (some-injective z y h))

  null_of_root : (u : Tree A) → root_item u ≡ none → u ≡ null
  unfolding root_item
  null_of_root null h = refl
  null_of_root (node l z n r) h = absurd (some≢none h)

  -- `RemoveFromTree` of an item that stands in the tree does not fault: it succeeds, the other items stay
  -- in order, and the sizes are right.
  pub remove_from_tree_refines :
      (x y : Item A) (t : Tree A)
      → Keeps t
      → find_item (to_list t) x.key ≡ some y
      → y.addr ≡ x.addr
      → (u : Tree A) × (remove_from_tree (some x) t ≡ some (success, u))
        × (to_list u ≡ erase_item x.key (to_list t))
        × Keeps u
  unfolding remove_from_tree safe_release_node find_item
  remove_from_tree_refines x y null k f e = absurd (some≢none (sym f))
  remove_from_tree_refines x y (node l z n r) k f e =
      let t = node l z n r in
      let (l', n', r', found) =
        node_of_root (find_node t x.key) y (found_item t x.key k.sorted ∙ f) in
      let fuel = budget (get_tree_size t) in
      let (u, made, list, sized) =
        release_node-Released fuel x.key t k (λ q. some≢none (sym f ∙ q))
          (budget_mono (count t) (get_tree_size t)
            (omega (arith, get_tree_size-Sized t k.sized))) in
      rw (found, (==_iff y.addr x.addr).1 e, made)
        (
          _,
          refl,
          list,
          record {
            sized = sized;
            sorted = subst Sorted (sym list) (erase_item-Sorted x.key (to_list t) k.sorted);
          },
        )

  -- `RemoveFromTree` of an item whose key a tree that is not empty does not have fails, and loses the
  -- whole tree: `SafeReleaseNode` returns the null pointer that its search found, and that is assigned
  -- to `m_pTree` before the result is tested.
  pub remove_absent_loses_tree :
      (x : Item A) (t : Tree A)
      → IsNode t
      → Sorted (to_list t)
      → find_item (to_list t) x.key ≡ none
      → remove_from_tree (some x) t ≡ some (fail, null)
  unfolding remove_from_tree safe_release_node
  remove_absent_loses_tree x null i s f = absurd i
  remove_absent_loses_tree x (node l z n r) i s f =
      let t = node l z n r in rw (null_of_root (find_node t x.key) (found_item t x.key s ∙ f))

  -- `First`, `Last` and `GetActivedSize` give the first and the last item and their number.
  pub first-last-size :
      (t : Tree A)
      → Sized t
      → (first t ≡ head? (to_list t))
        × (last t ≡ head? (reverse (to_list t)))
        × (get_actived_size t ≡ length (to_list t))
  unfolding first last get_actived_size
  first-last-size null s = (refl, refl, refl)
  first-last-size (node l x n r) s =
      let t = node l x n r in
      let (rest, e) = get_smallest_first l x n r in
      let (before, h) = get_bigest_last l x n r in
      (
        sym (ap head? e),
        sym (ap (λ z. head? (reverse z)) h ∙ ap head? (reverse-append before _)),
        omega (arith, get_tree_size-Sized t s, count-to_list t),
      )
