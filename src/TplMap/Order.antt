-- ===== src/TplMap/Order.antt =====
-- What a tree holds in the order of its keys, and when its size fields are right.
use zephyr_server.Common.{ℕ, ◌+◌, ◌≡◌, refl, ap, List, [], ◌∷◌, ◌++◌, length, length-append, arith}
use zephyr_server.TplMap.{Item, Tree, null, node, get_tree_size}

module _ {ℓ} {A : Type ℓ} where
  -- The items from left to right.
  abbrev pub to_list : Tree A → List (Item A)
  to_list null = []
  to_list (node l x n r) = to_list l ++ (x ∷ to_list r)

  abbrev pub count : Tree A → ℕ
  count null = 0
  count (node l x n r) = count l + count r + 1

  -- Every `m_nodeSize` is the number of nodes below.
  abbrev pub Sized : Tree A → Type 0
  Sized null = Unit
  Sized (node l x n r) = (n ≡ count l + count r) × Sized l × Sized r

  abbrev pub IsNode : Tree A → Type 0
  IsNode null = ⊥
  IsNode (node l x n r) = Unit

  pub count-to_list : (t : Tree A) → length (to_list t) ≡ count t
  count-to_list null = refl
  count-to_list (node l x n r) =
      omega (arith, length-append (to_list l) (x ∷ to_list r), count-to_list l, count-to_list r)

  pub count_of_to_list : (t u : Tree A) → to_list t ≡ to_list u → count t ≡ count u
  count_of_to_list t u e = omega (arith, count-to_list t, count-to_list u, ap length e)

  pub get_tree_size-Sized : (t : Tree A) → Sized t → get_tree_size t ≡ count t
  unfolding get_tree_size
  get_tree_size-Sized null s = refl
  get_tree_size-Sized (node l x n r) s = omega arith
