-- ===== src/Timer/Writes.antt =====
-- Writes to the node at an address, in the list of the nodes.
use zephyr_server.Common.{
  ℕ, ◌≡◌, ◌≢◌, refl, sym, ap, ap₂, ◌∙◌, subst, inl, inr, false, List, [], ◌∷◌, ◌++◌, map, ◌==◌,
  if◌then◌else◌, Bool-cases, arith,
}
use mathlib.Core.List.{map-append}
use zephyr_server.TplMap.{Item, Tree, null, node}
use zephyr_server.TplMap.Order.{to_list, count, Sized}
use zephyr_server.TplMap.Lists.{Above, Sorted, Foreign}
use zephyr_server.TplMultiMap.{Sibling, Group, MultiMap, head_of}
use zephyr_server.TplMultiMap.Entries.{selves, entries, Keyed, Proper}
use zephyr_server.TplMultiMap.Add.{Held, Distinct, items, Valid}
use zephyr_server.Timer.{Scheduler, write_siblings, write_item, write_node, write_at}

module _ (a : ℕ) (f : Item Scheduler → Item Scheduler) where
  -- The node at the address is written, any other is as it was.
  abbrev pub written : Item Scheduler → Item Scheduler
  written x = if x.addr == a then f x else x

  to_list-write_node :
      (t : Tree (Group Scheduler)) → to_list (write_node a f t) ≡ map (write_item a f) (to_list t)
  unfolding write_node
  to_list-write_node null = refl
  to_list-write_node (node l x n r) =
      ap₂ (λ u v. u ++ (write_item a f x ∷ v)) (to_list-write_node l) (to_list-write_node r)
      ∙ sym (map-append (write_item a f) (to_list l) (x ∷ to_list r))

  selves-write_siblings :
      (ss : List (Sibling Scheduler)) → selves (write_siblings a f ss) ≡ map written (selves ss)
  unfolding write_siblings
  selves-write_siblings [] = refl
  selves-write_siblings (s ∷ ss) = ap (λ z. written s.self ∷ z) (selves-write_siblings ss)

  entries-write :
      (xs : List (Item (Group Scheduler)))
      → entries (map (write_item a f) xs) ≡ map written (entries xs)
  unfolding write_item head_of
  entries-write [] = refl
  entries-write (x ∷ xs) =
      ap (λ z. written (head_of x) ∷ z)
        (ap₂ ◌++◌ (selves-write_siblings x.item.siblings) (entries-write xs)
          ∙ sym (map-append written (selves x.item.siblings) (entries xs)))

  -- The items after a write.
  pub items-write_at : (m : MultiMap Scheduler) → items (write_at a f m) ≡ map written (items m)
  unfolding write_at
  items-write_at m = ap entries (to_list-write_node m.tree) ∙ entries-write (to_list m.tree)

  write_siblings-Foreign :
      (ss : List (Sibling Scheduler)) → Foreign a (selves ss) → write_siblings a f ss ≡ ss
  unfolding write_siblings
  write_siblings-Foreign [] h = refl
  write_siblings-Foreign (s ∷ ss) h =
      let other : (s.self.addr == a) ≡ false = ground (arith, h.0) in
      rw other (ap (λ z. s ∷ z) (write_siblings-Foreign ss h.1))

  write_item-Foreign :
      (x : Item (Group Scheduler))
      → x.addr ≢ a
      → Foreign a (selves x.item.siblings)
      → write_item a f x ≡ x
  unfolding write_item
  write_item-Foreign x h g =
      let other : (x.addr == a) ≡ false = ground (arith, h) in
      rw other (
        ap
          (λ ss. record {
            addr = x.addr;
            key = x.key;
            item = record { payload = x.item.payload; siblings = ss };
          })
          (write_siblings-Foreign x.item.siblings g))

  Foreign-parts :
      (ys zs : List (Item Scheduler)) → Foreign a (ys ++ zs) → Foreign a ys × Foreign a zs
  Foreign-parts [] zs h = (tt, h)
  Foreign-parts (y ∷ ys) zs h = let (l, r) = Foreign-parts ys zs h.1 in ((h.0, l), r)

  entries-parts :
      (xs ys : List (Item (Group Scheduler)))
      → Foreign a (entries (xs ++ ys))
      → Foreign a (entries xs) × Foreign a (entries ys)
  entries-parts [] ys h = (tt, h)
  entries-parts (x ∷ xs) ys h =
      let (g, r) = Foreign-parts (selves x.item.siblings) (entries (xs ++ ys)) h.1 in
      let (l, r') = entries-parts xs ys r in
      ((h.0, append (selves x.item.siblings) (entries xs) g l), r')
    where
      append : (ps qs : List (Item Scheduler)) → Foreign a ps → Foreign a qs → Foreign a (ps ++ qs)
      append [] qs u v = v
      append (p ∷ ps) qs u v = (u.0, append ps qs u.1 v)

  -- Where no node has the address, nothing is written.
  pub write_node-Foreign :
      (t : Tree (Group Scheduler)) → Foreign a (entries (to_list t)) → write_node a f t ≡ t
  unfolding write_node head_of
  write_node-Foreign null h = refl
  write_node-Foreign (node l x n r) h =
      let (hl, hr) = entries-parts (to_list l) (x ∷ to_list r) h in
      let (g, hr') = Foreign-parts (selves x.item.siblings) (entries (to_list r)) hr.1 in
      λ i.
        node (write_node-Foreign l hl i) (write_item-Foreign x hr.0 g i) n
          (write_node-Foreign r hr' i)

  count-write_node : (t : Tree (Group Scheduler)) → count (write_node a f t) ≡ count t
  unfolding write_node
  count-write_node null = refl
  count-write_node (node l x n r) = ground (arith, count-write_node l, count-write_node r)

  write_node-Sized : (t : Tree (Group Scheduler)) → Sized t → Sized (write_node a f t)
  unfolding write_node
  write_node-Sized null s = tt
  write_node-Sized (node l x n r) s = ground (
    arith,
    write_node-Sized l s.1,
    write_node-Sized r s.2,
    count-write_node l,
    count-write_node r,
  )

  -- A write that keeps keys and addresses keeps a map valid.
  module _ (same : (x : Item Scheduler) → ((f x).key ≡ x.key) × ((f x).addr ≡ x.addr)) where
    written-same : (x : Item Scheduler) → ((written x).key ≡ x.key) × ((written x).addr ≡ x.addr)
    written-same x = elim (Bool-cases (x.addr == a)) [
      | inl e ↦ rw e (same x)
      | inr e ↦ rw e (refl, refl)
    ]

    key-write_item : (x : Item (Group Scheduler)) → (write_item a f x).key ≡ x.key
    unfolding write_item
    key-write_item x =
        (written-same (record { addr = x.addr; key = x.key; item = x.item.payload })).0

    addr-write_item : (x : Item (Group Scheduler)) → (write_item a f x).addr ≡ x.addr
    unfolding write_item
    addr-write_item x =
        (written-same (record { addr = x.addr; key = x.key; item = x.item.payload })).1

    map-Above :
        (k : ℕ) (xs : List (Item (Group Scheduler)))
        → Above k xs
        → Above k (map (write_item a f) xs)
    map-Above k [] h = tt
    map-Above k (x ∷ xs) h = (omega (arith, h.0, key-write_item x), map-Above k xs h.1)

    map-Sorted : (xs : List (Item (Group Scheduler))) → Sorted xs → Sorted (map (write_item a f) xs)
    map-Sorted [] s = tt
    map-Sorted (x ∷ xs) s = (
      subst (λ k. Above k (map (write_item a f) xs)) (sym (key-write_item x))
          (map-Above x.key xs s.0),
      map-Sorted xs s.1,
    )

    map-Keyed : (k : ℕ) (xs : List (Item Scheduler)) → Keyed k xs → Keyed k (map written xs)
    map-Keyed k [] h = tt
    map-Keyed k (x ∷ xs) h = ((written-same x).0 ∙ h.0, map-Keyed k xs h.1)

    map-Proper : (xs : List (Item (Group Scheduler))) → Proper xs → Proper (map (write_item a f) xs)
    map-Proper [] h = tt
    map-Proper (x ∷ xs) h = (
      subst (λ z. Keyed (write_item a f x).key z) (sym (siblings x))
          (subst (λ k. Keyed k (map written (selves x.item.siblings))) (sym (key-write_item x))
            (map-Keyed x.key (selves x.item.siblings) h.0)),
      map-Proper xs h.1,
    )
      where
        siblings :
            (y : Item (Group Scheduler))
            → selves (write_item a f y).item.siblings ≡ map written (selves y.item.siblings)
        siblings y = unfold write_item in selves-write_siblings y.item.siblings

    map-Held :
        (this : ℕ) (h : ℕ → ℕ) (xs : List (Item Scheduler))
        → Held this h xs
        → Held this h (map written xs)
    map-Held this h [] k = tt
    map-Held this h (x ∷ xs) k = (ap h (written-same x).1 ∙ k.0, map-Held this h xs k.1)

    map-Foreign : (b : ℕ) (xs : List (Item Scheduler)) → Foreign b xs → Foreign b (map written xs)
    map-Foreign b [] k = tt
    map-Foreign b (x ∷ xs) k = (λ e. k.0 (sym (written-same x).1 ∙ e), map-Foreign b xs k.1)

    map-Distinct : (xs : List (Item Scheduler)) → Distinct xs → Distinct (map written xs)
    map-Distinct [] d = tt
    map-Distinct (x ∷ xs) d = (
      subst (λ b. Foreign b (map written xs)) (sym (written-same x).1) (map-Foreign x.addr xs d.0),
      map-Distinct xs d.1,
    )

    pub write_at-Valid : (m : MultiMap Scheduler) → Valid m → Valid (write_at a f m)
    unfolding write_at
    write_at-Valid m v =
        let list = to_list-write_node m.tree in
        let all = items-write_at m in
        record {
          keeps = record {
            sized = write_node-Sized m.tree v.keeps.sized;
            sorted = subst Sorted (sym list) (map-Sorted (to_list m.tree) v.keeps.sorted);
          };
          proper = subst Proper (sym list) (map-Proper (to_list m.tree) v.proper);
          held = subst (Held m.this m.holder) (sym all) (map-Held m.this m.holder (items m) v.held);
          distinct = subst Distinct (sym all) (map-Distinct (items m) v.distinct);
          here = v.here;
        }
