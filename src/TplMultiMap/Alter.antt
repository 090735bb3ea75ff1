-- ===== src/TplMultiMap/Alter.antt =====
-- What is written through the pointer of `FindNode`, in the list of the nodes.
use zephyr_server.Common.{
  ℕ, ◌<◌, ◌≡◌, refl, sym, ap, ◌∙◌, inl, inr, List, [], ◌∷◌, ◌++◌, ltb, ltb→lt, ◌==◌, Bool-cases,
  arith,
}
use zephyr_server.TplMap.{Item, Tree, null, node}
use zephyr_server.TplMap.Order.{to_list, count, Sized}
use zephyr_server.TplMap.Lists.{Below, Above, Sorted, Sorted-Around}
use zephyr_server.TplMap.RemoveHere.{Keeps}
use zephyr_server.TplMultiMap.{Group, alter}
use zephyr_server.TplMultiMap.Entries.{alter_item}

module _ {ℓ} {A : Type ℓ} (key : ℕ) (f : Item (Group A) → Item (Group A)) where
  alter_item_left :
      (l : List (Item (Group A))) (x : Item (Group A)) (r : List (Item (Group A)))
      → key < x.key
      → Above x.key r
      → alter_item key f (l ++ (x ∷ r)) ≡ alter_item key f l ++ (x ∷ r)
  unfolding alter_item
  alter_item_left [] x r h a = rw (absent r x.key h a) (ground arith)
    where
      absent :
          (xs : List (Item (Group A))) (k : ℕ) → key < k → Above k xs → alter_item key f xs ≡ xs
      absent [] k lt b = refl
      absent (y ∷ ys) k lt b = ground (arith, absent ys k lt b.1)
  alter_item_left (y ∷ l) x r h a = ground (arith, alter_item_left l x r h a)

  alter_item_right :
      (l : List (Item (Group A))) (x : Item (Group A)) (r : List (Item (Group A)))
      → x.key < key
      → Below x.key l
      → alter_item key f (l ++ (x ∷ r)) ≡ l ++ (x ∷ alter_item key f r)
  unfolding alter_item
  alter_item_right [] x r h b = ground arith
  alter_item_right (y ∷ l) x r h b = ground (arith, b.0, alter_item_right l x r h b.1)

  alter_item_here :
      (l : List (Item (Group A))) (x : Item (Group A)) (r : List (Item (Group A)))
      → x.key ≡ key
      → Below x.key l
      → alter_item key f (l ++ (x ∷ r)) ≡ l ++ (f x ∷ r)
  unfolding alter_item
  alter_item_here [] x r h b = ground arith
  alter_item_here (y ∷ l) x r h b = ground (arith, b.0, alter_item_here l x r h b.1)

  -- The tree is written where its list is.
  pub to_list-alter :
      (t : Tree (Group A))
      → Sorted (to_list t)
      → to_list (alter key f t) ≡ alter_item key f (to_list t)
  unfolding alter
  to_list-alter null s = unfold alter_item in refl
  to_list-alter (node l x n r) s =
      let a = Sorted-Around (to_list l) x (to_list r) s in
      elim (Bool-cases (x.key == key)) [
        | inl e ↦ rw e (sym (alter_item_here (to_list l) x (to_list r) (ground arith) a.below))
        | inr e ↦ elim (Bool-cases (ltb key x.key)) [
          | inl lo ↦
              rw (e, lo)
                (ap (λ z. z ++ (x ∷ to_list r)) (to_list-alter l a.sorted_left)
                  ∙ sym (alter_item_left (to_list l) x (to_list r) (ltb→lt _ _ lo) a.above))
          | inr hi ↦
              rw (e, hi)
                (ap (λ z. to_list l ++ (x ∷ z)) (to_list-alter r a.sorted_right)
                  ∙ sym (alter_item_right (to_list l) x (to_list r) (ground arith) a.below))
        ]
      ]

  count-alter : (t : Tree (Group A)) → count (alter key f t) ≡ count t
  unfolding alter
  count-alter null = refl
  count-alter (node l x n r) = ground (arith, count-alter l, count-alter r)

  alter-Sized : (t : Tree (Group A)) → Sized t → Sized (alter key f t)
  unfolding alter
  alter-Sized null s = tt
  alter-Sized (node l x n r) s =
      ground (arith, alter-Sized l s.1, alter-Sized r s.2, count-alter l, count-alter r)

  module _ (same : (x : Item (Group A)) → x.key ≡ key → (f x).key ≡ x.key) where
    alter_item-Above :
        (k : ℕ) (xs : List (Item (Group A))) → Above k xs → Above k (alter_item key f xs)
    unfolding alter_item
    alter_item-Above k [] a = tt
    alter_item-Above k (x ∷ xs) a = ground (arith, same x, alter_item-Above k xs a.1)

    alter_item-Sorted : (xs : List (Item (Group A))) → Sorted xs → Sorted (alter_item key f xs)
    unfolding alter_item
    alter_item-Sorted [] s = tt
    alter_item-Sorted (x ∷ xs) s = elim (Bool-cases (x.key == key)) [
      | inl e ↦ rw (e, same x (ground arith)) s
      | inr e ↦ rw e (alter_item-Above x.key xs s.0, alter_item-Sorted xs s.1)
    ]

    -- Sizes and order are left as they are.
    pub alter-Keeps : (t : Tree (Group A)) → Keeps t → Keeps (alter key f t)
    alter-Keeps t k = record {
      sized = alter-Sized t k.sized;
      sorted = rw (to_list-alter t k.sorted) (alter_item-Sorted (to_list t) k.sorted);
    }
