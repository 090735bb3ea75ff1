-- ===== src/TplMultiMap/Walk.antt =====
-- `TplMultiKeyMapNode::Iterator`: `++` over the nodes of the tree and their siblings.
use mathlib.Core.Option
use zephyr_server.Common.{
  ℕ, zero, suc, ◌≤◌, ◌≡◌, refl, sym, ap, ◌∙◌, subst, Option, none, some, List, [], ◌∷◌, ◌++◌,
  length, ◌==◌, ==_iff, if◌then◌else◌, arith,
}
use zephyr_server.TplMap.{Item, Tree}
use zephyr_server.TplMap.Order.{to_list}
use zephyr_server.TplMap.Walk.{Position, ahead, after, next-prev, ahead-start}
use zephyr_server.TplMap.Walk
use zephyr_server.TplMultiMap.{Sibling, Group, head_of}
use zephyr_server.TplMultiMap.Entries.{selves, entries}

-- Where an iterator stands: at a node of the tree, or at a sibling, with those behind it, of the node at a
-- position of the tree.
pub data Place {ℓ} (A : Type ℓ) : Type ℓ where
  at_node : Position (Group A) → Place A
  at_sibling : Sibling A → List (Sibling A) → Position (Group A) → Place A

module _ {ℓ} {A : Type ℓ} where
  -- The loop of `++` from a node of the tree.
  unfoldable pub next_node : Position (Group A) → Option (Place A)
  next_node p = Option.map at_node (Walk.next p)

  -- `operator ++`. From the last sibling it goes on at `m_pParent`; where that is not the node, it is one
  -- that was taken out of the tree, whose links are null since `UnInit`, and the walk ends.
  unfoldable pub next_behind : List (Sibling A) → Position (Group A) → Option (Place A)
  unfolding next_node
  next_behind [] p = next_node p
  next_behind (s ∷ ss) p = some (at_sibling s ss p)

  unfoldable pub next : Place A → Option (Place A)
  unfolding next_behind next_node
  next (at_node p) = next_behind p.item.item.siblings p
  next (at_sibling s [] p) = if s.parent == p.item.addr then next_node p else none
  next (at_sibling s (u ∷ us) p) = some (at_sibling u us p)

  -- `GetItem`
  unfoldable pub current : Place A → Item A
  current (at_node p) = head_of p.item
  current (at_sibling s ss p) = s.self

  -- A loop `for (it = First(); it; ++it)` of at most so many rounds, with the items that it meets.
  unfoldable pub walk : ℕ → Option (Place A) → List (Item A)
  unfolding next current
  walk zero o = []
  walk (suc rounds) none = []
  walk (suc rounds) (some x) = current x ∷ walk rounds (next x)

  -- The siblings' `m_pParent` is this address.
  abbrev pub Parents : ℕ → List (Sibling A) → Type 0
  Parents a [] = Unit
  Parents a (s ∷ ss) = (s.parent ≡ a) × Parents a ss

  -- All siblings point to their node.
  abbrev pub Linked : List (Item (Group A)) → Type 0
  Linked [] = Unit
  Linked (x ∷ xs) = Parents x.addr x.item.siblings × Linked xs

  -- The items from a place on.
  abbrev coming : Option (Place A) → List (Item A)
  coming none = []
  coming (some (at_node p)) = entries (p.item ∷ after p)
  coming (some (at_sibling s ss p)) = s.self ∷ (selves ss ++ entries (after p))

  -- The links are right from a place on.
  abbrev Right : Option (Place A) → Type 0
  Right none = Unit
  Right (some (at_node p)) = Linked (p.item ∷ after p)
  Right (some (at_sibling s ss p)) = Parents p.item.addr (s ∷ ss) × Linked (after p)

  coming-map : (o : Option (Position (Group A))) → coming (Option.map at_node o) ≡ entries (ahead o)
  coming-map none = refl
  coming-map (some p) = refl

  Right-map : (o : Option (Position (Group A))) → Linked (ahead o) → Right (Option.map at_node o)
  Right-map none h = tt
  Right-map (some p) h = h

  next_node-coming :
      (p : Position (Group A))
      → Linked (after p)
      → (coming (next_node p) ≡ entries (after p)) × Right (next_node p)
  unfolding next_node
  next_node-coming p h =
      let e = (next-prev p).0 in
      (coming-map (Walk.next p) ∙ ap entries e, Right-map (Walk.next p) (subst Linked (sym e) h))

  next_behind-coming :
      (ss : List (Sibling A)) (p : Position (Group A))
      → Parents p.item.addr ss
      → Linked (after p)
      → (coming (next_behind ss p) ≡ selves ss ++ entries (after p)) × Right (next_behind ss p)
  unfolding next_behind
  next_behind-coming [] p h l = next_node-coming p l
  next_behind-coming (s ∷ ss) p h l = (refl, (h, l))

  -- `++` moves to the next item.
  next-coming :
      (x : Place A)
      → Right (some x)
      → (current x ∷ coming (next x) ≡ coming (some x)) × Right (next x)
  unfolding next current
  next-coming (at_node p) r =
      let (c, right) = next_behind-coming p.item.item.siblings p r.0 r.1 in
      (ap (λ z. head_of p.item ∷ z) c, right)
  next-coming (at_sibling s [] p) r =
      let (c, right) = next_node-coming p r.1 in
      rw ((==_iff s.parent p.item.addr).1 r.0.0) (ap (λ z. s.self ∷ z) c, right)
  next-coming (at_sibling s (u ∷ us) p) r = (refl, (r.0.1, r.1))

  walk-coming :
      (rounds : ℕ) (o : Option (Place A))
      → Right o
      → length (coming o) ≤ rounds
      → walk rounds o ≡ coming o
  unfolding walk
  walk-coming zero none r h = refl
  walk-coming zero (some x) r h =
      let (c, _) = next-coming x r in absurd (omega (arith, h, ap length c))
  walk-coming (suc rounds) none r h = refl
  walk-coming (suc rounds) (some x) r h =
      let (c, right) = next-coming x r in
      ap (λ z. current x ∷ z) (walk-coming rounds (next x) right (omega (arith, ap length c))) ∙ c

  -- The loop from `First` by `++` meets every item of the map once, in order, the siblings of a node right
  -- after it, and ends after as many rounds as there are items, where all siblings point to their node.
  pub walk-entries :
      (t : Tree (Group A)) (rounds : ℕ)
      → Linked (to_list t)
      → length (entries (to_list t)) ≤ rounds
      → walk rounds (Option.map at_node (Walk.start t)) ≡ entries (to_list t)
  walk-entries t rounds l h =
      let e = ahead-start t in
      let c = coming-map (Walk.start t) ∙ ap entries e in
      walk-coming rounds (Option.map at_node (Walk.start t))
        (Right-map (Walk.start t) (subst Linked (sym e) l)) (omega (arith, h, ap length c))
      ∙ c
