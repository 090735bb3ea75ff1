-- ===== src/TplMultiMap/Orphans.antt =====
-- `RemoveFromTreeItem` of a node of the tree that has siblings, and what becomes of the siblings.
use zephyr_server.Common.{
  ℕ, ◌≡◌, ◌≢◌, refl, sym, ap, ◌∙◌, subst, inl, inr, true, false, some, some≢none, List, [], ◌∷◌,
  ◌++◌, ◌==◌, Bool-cases, ==_iff, arith,
}
use mathlib.Core.Option.{some-injective}
use zephyr_server.TplMap.{Item, find_node}
use zephyr_server.TplMap.Order.{to_list}
use zephyr_server.TplMap.Lists.{Foreign, find_item}
use zephyr_server.TplMap.RemoveHere.{Keeps}
use zephyr_server.TplMap.Refine.{found_item, node_of_root}
use zephyr_server.TplMultiMap.{
  Sibling, Group, success, fail, MultiMap, promote, find_sibling, alter, hold, release_tree_node,
  release_sibling, release_found, safe_release_node, remove_from_tree_item, resize, dec, head_of,
}
use zephyr_server.TplMultiMap.Entries.{selves, entries, Keyed, alter_item, selves-resize}
use zephyr_server.TplMultiMap.Alter.{to_list-alter, alter-Keeps}
use zephyr_server.TplMultiMap.Add.{Distinct, items, Valid}
use zephyr_server.TplMultiMap.Erase.{group, key-find_item, Has, Has-entries, Has-selves, Has-Held}
use zephyr_server.TplMultiMap.Remove.{remove_in_held}

module _ {ℓ} {A : Type ℓ} where
  find-alter_item :
      (key : ℕ) (f : Item (Group A) → Item (Group A)) (xs : List (Item (Group A)))
      (x : Item (Group A))
      → find_item xs key ≡ some x
      → (f x).key ≡ key
      → find_item (alter_item key f xs) key ≡ some (f x)
  unfolding find_item alter_item
  find-alter_item key f [] x e w = absurd (some≢none (sym e))
  find-alter_item key f (y ∷ xs) x e w = elim (Bool-cases (y.key == key)) [
    | inl q ↦
        let same : y ≡ x = some-injective y x (rw q at e) in
        let here : ((f y).key == key) ≡ true = (==_iff _ key).1 (ap (λ z. (f z).key) same ∙ w) in
        rw (q, here) (ap (λ z. some (f z)) same)
    | inr q ↦ rw (q, q) (find-alter_item key f xs x (rw q at e) w)
  ]

  Distinct-front : (ys xs : List (Item A)) → Distinct (ys ++ xs) → Distinct ys
  Distinct-front [] xs d = tt
  Distinct-front (y ∷ ys) xs d = (front ys d.0, Distinct-front ys xs d.1)
    where
      front : (zs : List (Item A)) → Foreign y.addr (zs ++ xs) → Foreign y.addr zs
      front [] f = tt
      front (z ∷ zs) f = (f.0, front zs f.1)

  Distinct-back : (ys xs : List (Item A)) → Distinct (ys ++ xs) → Distinct xs
  Distinct-back [] xs d = d
  Distinct-back (y ∷ ys) xs d = Distinct-back ys xs d.1

  group-Distinct :
      (key : ℕ) (xs : List (Item (Group A))) (x : Item (Group A))
      → find_item xs key ≡ some x
      → Distinct (entries xs)
      → Distinct (group x)
  unfolding find_item
  group-Distinct key [] x e d = absurd (some≢none (sym e))
  group-Distinct key (y ∷ xs) x e d = elim (Bool-cases (y.key == key)) [
    | inl q ↦
        let same : y ≡ x = some-injective y x (rw q at e) in
        subst (λ z. Distinct (group z)) same (Distinct-front (group y) (entries xs) d)
    | inr q ↦ group-Distinct key xs x (rw q at e) (Distinct-back (group y) (entries xs) d)
  ]

  -- A sibling whose `m_pParent` is not the tree's node of its key is refused.
  remove_stale :
      (q : Item A) (m : MultiMap A) (x : Item (Group A)) (s : Sibling A)
      → Keeps m.tree
      → find_item (to_list m.tree) q.key ≡ some x
      → x.addr ≢ q.addr
      → find_sibling q.addr x.item.siblings ≡ some s
      → s.parent ≢ x.addr
      → m.holder q.addr ≡ m.this
      → remove_from_tree_item q m
        ≡ some (fail, record { this = m.this; tree = m.tree; holder = hold q.addr 0 m.holder })
  unfolding remove_from_tree_item safe_release_node release_found release_sibling
  remove_stale q m x s k e a f stale h =
      let (l, n, r, found) =
        node_of_root (find_node m.tree q.key) x (found_item m.tree q.key k.sorted ∙ e) in
      let different : (x.addr == q.addr) ≡ false = ground arith in
      let other : (s.parent == x.addr) ≡ false = ground arith in
      remove_in_held q m m.tree m.tree x fail e h (rw (found, different, f, other) refl)

  -- The first sibling takes the place of the node that is taken out.
  remove_tree_node :
      (p : Item A) (m : MultiMap A) (x : Item (Group A)) (s : Sibling A) (ss : List (Sibling A))
      → Keeps m.tree
      → find_item (to_list m.tree) p.key ≡ some x
      → x.addr ≡ p.addr
      → x.item.siblings ≡ s ∷ ss
      → m.holder p.addr ≡ m.this
      → (n : ℕ) × (remove_from_tree_item p m
          ≡ some (
            success,
            record {
              this = m.this;
              tree = alter p.key (λ y. promote s ss n) m.tree;
              holder = hold p.addr 0 m.holder;
            },
          ))
  unfolding remove_from_tree_item safe_release_node release_found release_tree_node
  remove_tree_node p m x s ss k e a has h =
      let (l, n, r, found) =
        node_of_root (find_node m.tree p.key) x (found_item m.tree p.key k.sorted ∙ e) in
      (
        n,
        remove_in_held p m m.tree (alter p.key (λ y. promote s ss n) m.tree) x success e h
            (rw (found, (==_iff x.addr p.addr).1 a, has) refl),
      )

  find_sibling-resize :
      (a k : ℕ) (ss : List (Sibling A)) (u : Sibling A)
      → find_sibling a ss ≡ some u
      → (w : Sibling A) × (find_sibling a (resize k ss) ≡ some w) × (w.parent ≡ u.parent)
  unfolding find_sibling resize
  find_sibling-resize a k [] u f = absurd (some≢none (sym f))
  find_sibling-resize a k (s ∷ ss) u f = elim (Bool-cases (s.self.addr == a)) [
    | inl q ↦
        let same : s ≡ u = some-injective s u (rw q at f) in rw q (_, refl, ap (λ z. z.parent) same)
    | inr q ↦ rw q (u, (rw q at f), refl)
  ]

  Has-other : (q : Item A) (a : ℕ) (xs : List (Item A)) → Foreign a xs → Has q xs → q.addr ≢ a
  Has-other q a [] f h = absurd h
  Has-other q a (x ∷ xs) f (inl e) = λ z. f.0 (e.1 ∙ z)
  Has-other q a (x ∷ xs) f (inr h) = Has-other q a xs f.1 h

  -- The second item is refused once the first sibling has taken the node's place.
  orphan_refused :
      (u : Sibling A) (m : MultiMap A) (s : Sibling A) (ss : List (Sibling A)) (n : ℕ)
      → Keeps m.tree
      → find_item (to_list m.tree) u.self.key ≡ some (promote s ss n)
      → find_sibling u.self.addr ss ≡ some u
      → s.self.addr ≢ u.self.addr
      → u.parent ≢ s.self.addr
      → m.holder u.self.addr ≡ m.this
      → remove_from_tree_item u.self m
        ≡ some (fail, record { this = m.this; tree = m.tree; holder = hold u.self.addr 0 m.holder })
  unfolding promote
  orphan_refused u m s ss n k e f other stale h =
      let (w, g, q) = find_sibling-resize u.self.addr (dec n) ss u f in
      remove_stale u.self m _ w k e other g (λ z. stale (sym q ∙ z)) h

  -- Where a node of the tree has two or more siblings that point to it, taking it out succeeds, but the
  -- second and later siblings point to a node that is gone: each of them, `u` say, is still in the list,
  -- `RemoveFromTreeItem` of it fails and leaves the tree as it is, and yet no map holds it any more.
  pub remove_tree_node-orphans :
      (p : Item A) (m : MultiMap A) (x : Item (Group A)) (s u : Sibling A) (ss : List (Sibling A))
      → Valid m
      → find_item (to_list m.tree) p.key ≡ some x
      → x.addr ≡ p.addr
      → x.item.siblings ≡ s ∷ ss
      → find_sibling u.self.addr ss ≡ some u
      → u.self.key ≡ p.key
      → u.parent ≡ x.addr
      → (m' m'' : MultiMap A) × (remove_from_tree_item p m ≡ some (success, m'))
        × (remove_from_tree_item u.self m' ≡ some (fail, m''))
        × (m''.tree ≡ m'.tree)
        × Has u.self (items m'')
        × (m''.holder u.self.addr ≡ 0)
  unfolding promote head_of
  remove_tree_node-orphans p m x s u ss v e a has f ku pu =
      let (kx, keyed) = key-find_item p.key (to_list m.tree) x v.proper e in
      let keyed' : Keyed x.key (s.self ∷ selves ss) =
        subst (λ z. Keyed x.key (selves z)) has keyed in
      let d = group-Distinct p.key (to_list m.tree) x e v.distinct in
      let d' : Foreign x.addr (s.self ∷ selves ss)
          × (Foreign s.self.addr (selves ss) × Distinct (selves ss)) =
        subst (λ z. Foreign x.addr (selves z) × Distinct (selves z)) has d in
      let has_u =
        Has-selves u.self ss u (subst (λ z. Keyed z (selves ss)) (kx ∙ sym ku) keyed'.1) f in
      let not_x = Has-other u.self x.addr (selves ss) d'.0.1 has_u in
      let not_s = Has-other u.self s.self.addr (selves ss) d'.1.0 has_u in
      let has_m =
        Has-entries u.self (to_list m.tree) x (ap (find_item (to_list m.tree)) ku ∙ e)
          (subst (λ z. Has u.self (head_of x ∷ selves z)) (sym has) (inr (inr has_u))) in
      let has_p = Has-entries p (to_list m.tree) x e (inl (kx, a)) in
      let (n, taken) =
        remove_tree_node p m x s ss v.keeps e a has
          (Has-Held p m.this m.holder (items m) has_p v.held) in
      let f' : Item (Group A) → Item (Group A) = λ y. promote s ss n in
      let t' = alter p.key f' m.tree in
      let h' = hold p.addr 0 m.holder in
      let held : h' u.self.addr ≡ m.this =
        still m.holder p.addr u.self.addr m.this (λ z. not_x (z ∙ sym a))
          (Has-Held u.self m.this m.holder (items m) has_m v.held) in
      let here : find_item (to_list t') u.self.key ≡ some (promote s ss n) =
        subst (λ z. find_item z u.self.key ≡ some (promote s ss n))
          (sym (to_list-alter p.key f' m.tree v.keeps.sorted))
          (subst (λ z. find_item (alter_item p.key f' (to_list m.tree)) z ≡ some (promote s ss n))
            (sym ku) (find-alter_item p.key f' (to_list m.tree) x e (keyed'.0 ∙ kx))) in
      let after : MultiMap A = record { this = m.this; tree = t'; holder = h' } in
      (
        _,
        _,
        taken,
        orphan_refused u after s ss n
            (alter-Keeps p.key f' (λ y q. keyed'.0 ∙ kx ∙ sym q) m.tree v.keeps) here f
            (λ z. not_s (sym z)) (λ z. d'.0.0 (sym z ∙ pu)) held,
        refl,
        Has-entries u.self (to_list t') _ here
            (inr (subst (Has u.self) (sym (selves-resize (dec n) ss)) has_u)),
        gone h' u.self.addr,
      )
    where
      still : (h : ℕ → ℕ) (b c this : ℕ) → c ≢ b → h c ≡ this → hold b 0 h c ≡ this
      still h b c this n e = unfold hold in ground (arith, n, e)

      gone : (h : ℕ → ℕ) (b : ℕ) → hold b 0 h b ≡ 0
      gone h b = unfold hold in ground arith
