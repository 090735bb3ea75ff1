-- ===== src/TplMultiMap/Queue.antt =====
-- The tree with siblings as a queue: `First` and `RemoveFromTreeItem` of what it gives.
use zephyr_server.Common.{
  ℕ, ◌≤◌, ◌≡◌, refl, sym, ap, ◌∙◌, subst, inl, some, some≢none, List, [], ◌∷◌, ◌++◌, arith,
}
use mathlib.Core.List.{head?}
use mathlib.Core.Option.{some-injective}
use zephyr_server.TplMap.{Item, Tree, null, node, get_smallest}
use zephyr_server.TplMap.Order.{to_list}
use zephyr_server.TplMap.Lists.{Above, Sorted, find_item}
use zephyr_server.TplMap.RemoveHere.{get_smallest_first}
use zephyr_server.TplMultiMap.{
  Group, success, MultiMap, remove_from_tree_item, hold, head_of, first_in, first,
}
use zephyr_server.TplMultiMap.Entries.{selves, entries, erase_entry, Keyed, Proper}
use zephyr_server.TplMultiMap.Add.{items, Valid}
use zephyr_server.TplMultiMap.Remove.{items-remove_from_tree_item}

module _ {ℓ} {A : Type ℓ} where
  -- No key is less than this one.
  abbrev pub AtLeast : ℕ → List (Item A) → Type 0
  AtLeast k [] = Unit
  AtLeast k (x ∷ xs) = (k ≤ x.key) × AtLeast k xs

  -- The keys do not fall.
  abbrev pub Ascending : List (Item A) → Type 0
  Ascending [] = Unit
  Ascending (x ∷ xs) = AtLeast x.key xs × Ascending xs

  AtLeast-append :
      (k : ℕ) (xs ys : List (Item A)) → AtLeast k xs → AtLeast k ys → AtLeast k (xs ++ ys)
  AtLeast-append k [] ys a b = b
  AtLeast-append k (x ∷ xs) ys a b = (a.0, AtLeast-append k xs ys a.1 b)

  Keyed-AtLeast : (j k : ℕ) (xs : List (Item A)) → j ≤ k → Keyed k xs → AtLeast j xs
  Keyed-AtLeast j k [] h a = tt
  Keyed-AtLeast j k (x ∷ xs) h a = (omega (arith, a.0), Keyed-AtLeast j k xs h a.1)

  entries-AtLeast :
      (k : ℕ) (xs : List (Item (Group A))) → Above k xs → Proper xs → AtLeast k (entries xs)
  unfolding head_of
  entries-AtLeast k [] a h = tt
  entries-AtLeast k (x ∷ xs) a h = (
    omega (arith, a.0),
    AtLeast-append k (selves x.item.siblings) (entries xs)
        (Keyed-AtLeast k x.key (selves x.item.siblings) (omega (arith, a.0)) h.0)
        (entries-AtLeast k xs a.1 h.1),
  )

  Keyed-Ascending :
      (k : ℕ) (xs ys : List (Item A))
      → Keyed k xs
      → AtLeast k ys
      → Ascending ys
      → Ascending (xs ++ ys)
  Keyed-Ascending k [] ys a b s = s
  Keyed-Ascending k (x ∷ xs) ys a b s = (
    subst (λ z. AtLeast z (xs ++ ys)) (sym a.0)
        (AtLeast-append k xs ys (Keyed-AtLeast k k xs (omega arith) a.1) b),
    Keyed-Ascending k xs ys a.1 b s,
  )

  pub entries-Ascending :
      (xs : List (Item (Group A))) → Sorted xs → Proper xs → Ascending (entries xs)
  unfolding head_of
  entries-Ascending [] s h = tt
  entries-Ascending (x ∷ xs) s h =
      Keyed-Ascending x.key (head_of x ∷ selves x.item.siblings) (entries xs) (refl, h.0)
        (entries-AtLeast x.key xs s.0 h.1) (entries-Ascending xs s.1 h.1)

  pub Valid-Ascending : (m : MultiMap A) → Valid m → Ascending (items m)
  Valid-Ascending m v = entries-Ascending (to_list m.tree) v.keeps.sorted v.proper

  -- The first node of the tree.
  pub first_node :
      (t : Tree (Group A)) (e : Item A) (rest : List (Item A))
      → entries (to_list t) ≡ e ∷ rest
      → (y : Item (Group A)) × (first_in t ≡ some e)
        × (head_of y ≡ e)
        × (find_item (to_list t) e.key ≡ some y)
  unfolding first_in find_item head_of
  first_node null e rest h = absurd (some≢none (ap head? (sym h)))
  first_node (node l x n r) e rest h =
      let y = get_smallest l x in
      let (others, q) = get_smallest_first l x n r in
      let same : some (head_of y) ≡ some e = ap (λ z. head? (entries z)) (sym q) ∙ ap head? h in
      let same' : head_of y ≡ e = some-injective (head_of y) e same in
      (
        y,
        same,
        same',
        subst (λ z. find_item (to_list (node l x n r)) z.key ≡ some y) same'
            (subst (λ z. find_item z y.key ≡ some y) (sym q) (ground arith)),
      )

  pub erase_first : (e : Item A) (rest : List (Item A)) → erase_entry e (e ∷ rest) ≡ rest
  unfolding erase_entry
  erase_first e rest = ground arith

  -- `First` gives the first of the items of a valid map, and no item where there is none.
  pub first-items : (m : MultiMap A) → first m ≡ head? (items m)
  unfolding first
  first-items m = first_of m.tree
    where
      first_of : (t : Tree (Group A)) → first_in t ≡ head? (entries (to_list t))
      first_of null = unfold first_in in refl
      first_of (node l x n r) =
          let (others, q) = get_smallest_first l x n r in
          unfold first_in in ap (λ z. head? (entries z)) (sym q)

  -- In a valid map `First` gives the first of the items, whose key is the least, and `RemoveFromTreeItem`
  -- of it succeeds: the other items are left in their order, no map holds its node, and the map is valid.
  pub first-remove :
      (m : MultiMap A) (e : Item A) (rest : List (Item A))
      → Valid m
      → items m ≡ e ∷ rest
      → (first m ≡ some e)
        × AtLeast e.key rest
        × (m' : MultiMap A) × (remove_from_tree_item e m ≡ some (success, m'))
        × (items m' ≡ rest)
        × (m'.this ≡ m.this)
        × (m'.holder ≡ hold e.addr 0 m.holder)
        × Valid m'
  unfolding first head_of
  first-remove m e rest v h =
      let (y, is_first, same, found) = first_node m.tree e rest h in
      let (m', made, list, this, holder, v') =
        items-remove_from_tree_item e m y v found (inl (ap (λ z. z.addr) same)) in
      (
        is_first,
        (subst Ascending h (Valid-Ascending m v)).0,
        m',
        made,
        list ∙ ap (erase_entry e) h ∙ erase_first e rest,
        this,
        holder,
        v',
      )
