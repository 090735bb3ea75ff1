-- ===== src/TplMultiMap/Add.antt =====
-- `AddInTree` against the list of the items.
use zephyr_server.Common.{
  ℕ, ◌≡◌, ◌≢◌, refl, sym, ap, ◌∙◌, subst, inl, inr, Option, some, some≢none, List, [], ◌∷◌, ◌++◌,
  ◌==◌, if◌then◌else◌, Bool-cases, Option-cases, arith,
}
use zephyr_server.TplMap.{Item, Tree, null, node}
use zephyr_server.TplMap.Order.{to_list}
use zephyr_server.TplMap.Lists.{Sorted, Foreign, find_item, insert_item, insert_item-Sorted}
use zephyr_server.TplMap.RemoveHere.{Keeps}
use zephyr_server.TplMap.Refine.{found_item, add_node_lem}
use zephyr_server.TplMultiMap.{
  Group, Code, success, already_in_tree, MultiMap, add_siblings, alone, add_at, safe_add_node, hold,
  add_somewhere, add_in_tree, head_of,
}
use zephyr_server.TplMultiMap.Entries.{
  selves, entries, insert_entry, Keyed, Proper, selves-link, alter_item, entries-insert_item,
  entries-add_siblings,
}
use zephyr_server.TplMultiMap.Alter.{to_list-alter, alter-Keeps}

module _ {ℓ} {A : Type ℓ} where
  -- The nodes of all items say that this map holds them.
  abbrev pub Held : ℕ → (ℕ → ℕ) → List (Item A) → Type 0
  Held this h [] = Unit
  Held this h (x ∷ xs) = (h x.addr ≡ this) × Held this h xs

  -- No address stands twice.
  abbrev pub Distinct : List (Item A) → Type 0
  Distinct [] = Unit
  Distinct (x ∷ xs) = Foreign x.addr xs × Distinct xs

  -- The items of a map, in order.
  abbrev pub items : MultiMap A → List (Item A)
  items m = entries (to_list m.tree)

  pub record Valid (m : MultiMap A) : Type 0 where
    pub keeps : Keeps m.tree
    pub proper : Proper (to_list m.tree)
    pub held : Held m.this m.holder (items m)
    pub distinct : Distinct (items m)
    pub here : m.this ≢ 0

  -- A node that no map holds is not in the list.
  Held-Foreign :
      (this a : ℕ) (h : ℕ → ℕ) (xs : List (Item A)) → Held this h xs → h a ≢ this → Foreign a xs
  Held-Foreign this a h [] k f = tt
  Held-Foreign this a h (x ∷ xs) k f = (λ e. f (ap h (sym e) ∙ k.0), Held-Foreign this a h xs k.1 f)

  Foreign-selves : (a : ℕ) (ys xs : List (Item A)) → Foreign a (ys ++ xs) → Foreign a xs
  Foreign-selves a [] xs f = f
  Foreign-selves a (y ∷ ys) xs f = Foreign-selves a ys xs f.1

  Foreign-nodes : (a : ℕ) (xs : List (Item (Group A))) → Foreign a (entries xs) → Foreign a xs
  unfolding head_of
  Foreign-nodes a [] f = tt
  Foreign-nodes a (x ∷ xs) f =
      (f.0, Foreign-nodes a xs (Foreign-selves a (selves x.item.siblings) (entries xs) f.1))

  insert_entry-Foreign :
      (new : Item A) (a : ℕ) (xs : List (Item A))
      → new.addr ≢ a
      → Foreign a xs
      → Foreign a (insert_entry new xs)
  unfolding insert_entry
  insert_entry-Foreign new a [] n f = (n, tt)
  insert_entry-Foreign new a (x ∷ xs) n f = ground (arith, insert_entry-Foreign new a xs n f.1)

  insert_entry-Distinct :
      (new : Item A) (xs : List (Item A))
      → Foreign new.addr xs
      → Distinct xs
      → Distinct (insert_entry new xs)
  unfolding insert_entry
  insert_entry-Distinct new [] f d = (tt, tt)
  insert_entry-Distinct new (x ∷ xs) f d = ground (
    arith,
    insert_entry-Distinct new xs f.1 d.1,
    insert_entry-Foreign new x.addr xs (λ e. f.0 (sym e)) d.0,
  )

  insert_entry-Held :
      (new : Item A) (this : ℕ) (h : ℕ → ℕ) (xs : List (Item A))
      → Foreign new.addr xs
      → Held this h xs
      → Held this (hold new.addr this h) (insert_entry new xs)
  unfolding insert_entry hold
  insert_entry-Held new this h [] f k = (ground arith, tt)
  insert_entry-Held new this h (x ∷ xs) f k =
      let rest = insert_entry-Held new this h xs f.1 k.1 in
      let kept = others xs f.1 k.1 in ground (arith, rest, kept, f.0)
    where
      others :
          (ys : List (Item A))
          → Foreign new.addr ys
          → Held this h ys
          → Held this (hold new.addr this h) ys
      others [] g j = tt
      others (y ∷ ys) g j = (ground arith, others ys g.1 j.1)

  insert_item-Proper :
      (new : Item A) (xs : List (Item (Group A))) → Proper xs → Proper (insert_item (alone new) xs)
  unfolding insert_item alone
  insert_item-Proper new [] p = (tt, tt)
  insert_item-Proper new (x ∷ xs) p = ground (arith, insert_item-Proper new xs p.1)

  add_siblings-Proper :
      (new : Item A) (xs : List (Item (Group A)))
      → Proper xs
      → Proper (alter_item new.key (add_siblings new) xs)
  unfolding alter_item add_siblings
  add_siblings-Proper new [] p = tt
  add_siblings-Proper new (x ∷ xs) p = elim (Bool-cases (x.key == new.key)) [
    | inl e ↦ rw e (
      subst (Keyed x.key) (sym (selves-link new x.addr x.item.siblings)) (ground arith, p.0),
      p.1,
    )
    | inr e ↦ rw e (p.0, add_siblings-Proper new xs p.1)
  ]

  -- What the tree is after the new item has been added.
  abbrev Grown : Item A → Tree (Group A) → Option (Tree (Group A)) → Type ℓ
  Grown new t o =
      (u : Tree (Group A)) × (o ≡ some u)
      × (entries (to_list u) ≡ insert_entry new (entries (to_list t)))
      × Keeps u
      × Proper (to_list u)

  safe_add_node-Grown :
      (new : Item A) (l : Tree (Group A)) (x : Item (Group A)) (n : ℕ) (r : Tree (Group A))
      → Keeps (node l x n r)
      → Proper (to_list (node l x n r))
      → Foreign new.addr (to_list (node l x n r))
      → Grown new (node l x n r) (safe_add_node new (node l x n r))
  unfolding safe_add_node add_at add_siblings alone
  safe_add_node-Grown new l x n r k p f =
      let t = node l x n r in
      let look = found_item t new.key k.sorted in
      elim (Option-cases (find_item (to_list t) new.key)) [
        | inl e ↦
            let (u, made, list, sized) =
              add_node_lem (alone new) t tt
                (record { sized = k.sized; sorted = k.sorted; foreign = f }) in
            rw (look ∙ e) (
              u,
              made,
              ap entries list ∙ entries-insert_item new (to_list t) k.sorted p e,
              record {
                sized = sized;
                sorted =
                    subst Sorted (sym list) (insert_item-Sorted (alone new) (to_list t) e k.sorted);
              },
              subst Proper (sym list) (insert_item-Proper new (to_list t) p),
            )
        | inr (y, e) ↦
            let list = to_list-alter new.key (add_siblings new) t k.sorted in
            rw (look ∙ e) (
              _,
              refl,
              ap entries list
                  ∙ entries-add_siblings new (to_list t) k.sorted p (λ q. some≢none (sym e ∙ q)),
              alter-Keeps new.key (add_siblings new) (λ z q. refl) t k,
              subst Proper (sym list) (add_siblings-Proper new (to_list t) p),
            )
      ]

  add_somewhere-Grown :
      (new : Item A) (t : Tree (Group A))
      → Keeps t
      → Proper (to_list t)
      → Foreign new.addr (to_list t)
      → Grown new t (add_somewhere new t)
  unfolding add_somewhere insert_entry alone head_of
  add_somewhere-Grown new null k p f =
      (_, refl, refl, record { sized = (refl, tt, tt); sorted = (tt, tt) }, (tt, tt))
  add_somewhere-Grown new (node l x n r) k p f = safe_add_node-Grown new l x n r k p f

  -- What `AddInTree` does to the list of the items, with its result.
  abbrev pub add_item : Item A → MultiMap A → Code × List (Item A)
  add_item new m =
      if m.holder new.addr == 0
      then (success, insert_entry new (items m))
      else (already_in_tree, items m)

  abbrev pub held_after : Item A → MultiMap A → ℕ → ℕ
  held_after new m = if m.holder new.addr == 0 then hold new.addr m.this m.holder else m.holder

  -- In a valid map `AddInTree` does not fault: a node that a map holds already is refused, and nothing is
  -- changed; any other is added, before the first item with a greater key, but second among the items of
  -- its own key, and its node says that this map holds it. The map is valid again.
  pub items-add_in_tree :
      (new : Item A) (m : MultiMap A)
      → Valid m
      → (c : Code) × (m' : MultiMap A) × (add_in_tree (some new) m ≡ some (c, m'))
        × ((c, items m') ≡ add_item new m)
        × (m'.this ≡ m.this)
        × (m'.holder ≡ held_after new m)
        × Valid m'
  unfolding add_in_tree
  items-add_in_tree new m v = elim (Bool-cases (m.holder new.addr == 0)) [
    | inl e ↦
        let free : m.holder new.addr ≡ 0 = ground arith in
        let f =
          Held-Foreign m.this new.addr m.holder (items m) v.held (λ q. v.here (sym q ∙ free)) in
        let (u, made, list, k, p) =
          add_somewhere-Grown new m.tree v.keeps v.proper
            (Foreign-nodes new.addr (to_list m.tree) f) in
        rw (e, made)
          (
            success,
            _,
            refl,
            ap (λ z. (success, z)) list,
            refl,
            refl,
            record {
              keeps = k;
              proper = p;
              held =
                  subst (Held m.this (hold new.addr m.this m.holder)) (sym list)
                    (insert_entry-Held new m.this m.holder (items m) f v.held);
              distinct =
                  subst Distinct (sym list) (insert_entry-Distinct new (items m) f v.distinct);
              here = v.here;
            },
          )
    | inr e ↦ rw e (already_in_tree, m, refl, refl, refl, refl, v)
  ]

  -- A map after `Init` is valid.
  pub empty-Valid :
      (this : ℕ) (h : ℕ → ℕ) → this ≢ 0 → Valid (record { this = this; tree = null; holder = h })
  empty-Valid this h n = record {
    keeps = record { sized = tt; sorted = tt };
    proper = tt;
    held = tt;
    distinct = tt;
    here = n;
  }
