-- ===== src/TplMultiMap/Remove.antt =====
-- `RemoveFromTreeItem` against the list of the items.
use zephyr_server.Common.{
  ℕ, ◌≡◌, ◌≢◌, ◌⊎◌, refl, sym, ap, ◌∙◌, subst, inl, inr, false, Option, some, some≢none, List, [],
  ◌∷◌, ◌++◌, ◌==◌, ==_iff, arith,
}
use zephyr_server.TplMap.{Item, Tree, null, node, get_tree_size, find_node}
use zephyr_server.TplMap.Order.{to_list, count, get_tree_size-Sized}
use zephyr_server.TplMap.Lists.{Sorted, find_item, erase_item-Sorted}
use zephyr_server.TplMap.Budget.{budget, budget_mono}
use zephyr_server.TplMap.RemoveHere.{Keeps}
use zephyr_server.TplMap.Remove.{release_node-Released}
use zephyr_server.TplMap.Refine.{found_item, node_of_root}
use zephyr_server.TplMultiMap.{
  Sibling, Group, Code, success, MultiMap, promote, find_sibling, without, alter, hold,
  release_tree_node, release_sibling, release_found, safe_release_node, remove_in,
  remove_from_tree_item, head_of, dec,
}
use zephyr_server.TplMultiMap.Entries.{
  selves, entries, erase_entry, Keyed, Proper, erase_entry-selves, selves-resize,
  selves-drop_sibling,
}
use zephyr_server.TplMultiMap.Alter.{to_list-alter, alter-Keeps}
use zephyr_server.TplMultiMap.Add.{Held, Distinct, items, Valid}
use zephyr_server.TplMultiMap.Erase.{
  group, entries-alter_item, entries-erase_item, key-find_item, alter_item-Proper,
  erase_item-Proper, unlink-Keyed, Has, Has-entries, Has-selves, Has-Held, erase_entry-Distinct,
  erase_entry-Held_others,
}

module _ {ℓ} {A : Type ℓ} where
  -- The item can be reached from the tree's node of its key: it is that node, or a sibling whose
  -- `m_pParent` is that node.
  abbrev pub Reachable : Item A → Item (Group A) → Type ℓ
  Reachable p x =
      (x.addr ≡ p.addr)
      ⊎ ((x.addr ≢ p.addr)
          × (s : Sibling A) × (find_sibling p.addr x.item.siblings ≡ some s)
          × (s.parent ≡ x.addr))

  -- What the tree is after the item has been taken out.
  abbrev Shrunk : Item A → Tree (Group A) → Option (Code × Tree (Group A)) → Type ℓ
  Shrunk p t o =
      (u : Tree (Group A)) × (o ≡ some (success, u))
      × (entries (to_list u) ≡ erase_entry p (entries (to_list t)))
      × Keeps u
      × Proper (to_list u)

  erase_head :
      (p : Item A) (x : Item (Group A)) (xs : List (Item A))
      → x.key ≡ p.key
      → x.addr ≡ p.addr
      → erase_entry p (head_of x ∷ xs) ≡ xs
  unfolding erase_entry head_of
  erase_head p x xs k a = ground (arith, k, a)

  -- Writing to the node of the item's key.
  alter-Shrunk :
      (p : Item A) (f : Item (Group A) → Item (Group A)) (t : Tree (Group A)) (x : Item (Group A))
      → Keeps t
      → Proper (to_list t)
      → find_item (to_list t) p.key ≡ some x
      → ((rest : List (Item A)) → erase_entry p (group x ++ rest) ≡ group (f x) ++ rest)
      → Keyed (f x).key (selves (f x).item.siblings)
      → ((y : Item (Group A)) → y.key ≡ p.key → (f y).key ≡ y.key)
      → Shrunk p t (some (success, alter p.key f t))
  alter-Shrunk p f t x k h e g w same =
      let list = to_list-alter p.key f t k.sorted in
      (
        _,
        refl,
        ap entries list ∙ entries-alter_item p f (to_list t) x k.sorted h e g,
        alter-Keeps p.key f same t k,
        subst Proper (sym list) (alter_item-Proper p.key f (to_list t) x h e w),
      )

  -- A node of the tree, by its siblings.
  release_tree_node-Shrunk :
      (p : Item A) (t : Tree (Group A)) (x : Item (Group A)) (n : ℕ) (ss : List (Sibling A))
      → Keeps t
      → Proper (to_list t)
      → find_item (to_list t) p.key ≡ some x
      → x.addr ≡ p.addr
      → selves x.item.siblings ≡ selves ss
      → Shrunk p t (release_tree_node p.key ss n t)
  unfolding release_tree_node promote head_of
  release_tree_node-Shrunk p t x n [] k h e a same =
      let (kx, _) = key-find_item p.key (to_list t) x h e in
      let (u, made, list, sized) =
        release_node-Released (budget (get_tree_size t)) p.key t k (λ q. some≢none (sym e ∙ q))
          (budget_mono (count t) (get_tree_size t)
            (omega (arith, get_tree_size-Sized t k.sized))) in
      rw made (
        u,
        refl,
        ap entries list
            ∙ entries-erase_item p (to_list t) x k.sorted h e (λ rest.
              erase_head p x (selves x.item.siblings ++ rest) kx a ∙ ap (λ z. z ++ rest) same),
        record {
          sized = sized;
          sorted = subst Sorted (sym list) (erase_item-Sorted p.key (to_list t) k.sorted);
        },
        subst Proper (sym list) (erase_item-Proper p.key (to_list t) h),
      )
  release_tree_node-Shrunk p t x n (s ∷ ss) k h e a same =
      let (kx, keyed) = key-find_item p.key (to_list t) x h e in
      let keyed' : Keyed x.key (s.self ∷ selves ss) = subst (Keyed x.key) same keyed in
      let f : Item (Group A) → Item (Group A) = λ y. promote s ss n in
      let tail = selves-resize (dec n) ss in
      alter-Shrunk p f t x k h e
        (λ rest.
          erase_head p x (selves x.item.siblings ++ rest) kx a
          ∙ ap (λ z. z ++ rest) (same ∙ ap (λ z. s.self ∷ z) (sym tail)))
        (subst (Keyed s.self.key) (sym tail)
          (subst (λ z. Keyed z (selves ss)) (sym keyed'.0) keyed'.1))
        (λ y q. keyed'.0 ∙ kx ∙ sym q)

  -- A sibling whose `m_pParent` is right.
  release_sibling-Shrunk :
      (p : Item A) (t : Tree (Group A)) (x : Item (Group A)) (s : Sibling A)
      → Keeps t
      → Proper (to_list t)
      → find_item (to_list t) p.key ≡ some x
      → x.addr ≢ p.addr
      → find_sibling p.addr x.item.siblings ≡ some s
      → Shrunk p t (some (success, alter p.key (without p.addr) t))
  unfolding without head_of
  release_sibling-Shrunk p t x s k h e a f =
      let (kx, keyed) = key-find_item p.key (to_list t) x h e in
      let tail = selves-drop_sibling p.addr x.item.siblings in
      alter-Shrunk p (without p.addr) t x k h e
        (λ rest.
          erase_behind (selves x.item.siblings ++ rest) kx
          ∙ ap (λ z. head_of x ∷ z)
              (erase_entry-selves p x.item.siblings rest s
                  (subst (λ z. Keyed z (selves x.item.siblings)) kx keyed) f
                ∙ ap (λ z. z ++ rest) (sym tail)))
        (subst (Keyed x.key) (sym tail) (unlink-Keyed x.key p.addr x.item.siblings keyed))
        (λ y q. refl)
    where
      erase_behind :
          (xs : List (Item A))
          → x.key ≡ p.key
          → erase_entry p (head_of x ∷ xs) ≡ head_of x ∷ erase_entry p xs
      erase_behind xs kx = unfold erase_entry in ground (arith, kx, a)

  safe_release_node-Shrunk :
      (p : Item A) (t : Tree (Group A)) (x : Item (Group A))
      → Keeps t
      → Proper (to_list t)
      → find_item (to_list t) p.key ≡ some x
      → Reachable p x
      → Shrunk p t (safe_release_node p t)
  unfolding safe_release_node release_found release_sibling
  safe_release_node-Shrunk p t x k h e way =
      let (l, n, r, found) = node_of_root (find_node t p.key) x (found_item t p.key k.sorted ∙ e) in
      elim way [
        | inl a ↦
            rw (found, (==_iff x.addr p.addr).1 a)
              (release_tree_node-Shrunk p t x n x.item.siblings k h e a refl)
        | inr (a, s, f, q) ↦
            let different : (x.addr == p.addr) ≡ false = ground arith in
            rw (found, different, f, (==_iff s.parent x.addr).1 q)
              (release_sibling-Shrunk p t x s k h e a f)
      ]

  pub Reachable-Has :
      (p : Item A) (t : Tree (Group A)) (x : Item (Group A))
      → Proper (to_list t)
      → find_item (to_list t) p.key ≡ some x
      → Reachable p x
      → Has p (entries (to_list t))
  unfolding head_of
  Reachable-Has p t x h e way =
      let (kx, keyed) = key-find_item p.key (to_list t) x h e in
      Has-entries p (to_list t) x e (elim way [
        | inl a ↦ inl (kx, a)
        | inr (a, s, f, q) ↦ inr (
            Has-selves p x.item.siblings s (subst (λ z. Keyed z (selves x.item.siblings)) kx keyed)
              f)
      ])

  -- The answer of the class to an item that its tree holds.
  pub remove_in_held :
      (p : Item A) (m : MultiMap A) (t u : Tree (Group A)) (x : Item (Group A)) (c : Code)
      → find_item (to_list t) p.key ≡ some x
      → m.holder p.addr ≡ m.this
      → safe_release_node p t ≡ some (c, u)
      → remove_in t p m
        ≡ some (c, record { this = m.this; tree = u; holder = hold p.addr 0 m.holder })
  unfolding remove_in find_item
  remove_in_held p m null u x c e q made = absurd (some≢none (sym e))
  remove_in_held p m (node l y n r) u x c e q made =
      rw ((==_iff (m.holder p.addr) m.this).1 q, made) refl

  -- In a valid map `RemoveFromTreeItem` of an item that can be reached from the tree's node of its key
  -- succeeds: that item is taken out of the list, the others stay in order, no map holds its node, and the
  -- map is valid again.
  pub items-remove_from_tree_item :
      (p : Item A) (m : MultiMap A) (x : Item (Group A))
      → Valid m
      → find_item (to_list m.tree) p.key ≡ some x
      → Reachable p x
      → (m' : MultiMap A) × (remove_from_tree_item p m ≡ some (success, m'))
        × (items m' ≡ erase_entry p (items m))
        × (m'.this ≡ m.this)
        × (m'.holder ≡ hold p.addr 0 m.holder)
        × Valid m'
  unfolding remove_from_tree_item
  items-remove_from_tree_item p m x v e way =
      let (u, made, list, k, h) = safe_release_node-Shrunk p m.tree x v.keeps v.proper e way in
      let n = Reachable-Has p m.tree x v.proper e way in
      (
        _,
        remove_in_held p m m.tree u x success e (Has-Held p m.this m.holder (items m) n v.held)
            made,
        list,
        refl,
        refl,
        record {
          keeps = k;
          proper = h;
          held =
              subst (Held m.this (hold p.addr 0 m.holder)) (sym list)
                (erase_entry-Held_others p m.this m.holder (items m) v.distinct n v.held);
          distinct = subst Distinct (sym list) (erase_entry-Distinct p (items m) v.distinct);
          here = v.here;
        },
      )
