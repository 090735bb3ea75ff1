-- ===== src/TplMultiMap/Entries.antt =====
-- What a tree with siblings holds, as its user sees it: a list of items in the order of their keys, in
-- which those of one key stand together, the node of the tree first.
use zephyr_server.Common.{
  ℕ, ◌<◌, ◌≡◌, ◌≢◌, refl, sym, ap, inl, inr, none, some, some≢none, List, [], ◌∷◌, ◌++◌, ltb, ◌==◌,
  if◌then◌else◌, Bool-cases, arith,
}
use zephyr_server.TplMap.{Item}
use zephyr_server.TplMap.Lists.{Above, Sorted, find_item, insert_item}
use zephyr_server.TplMultiMap.{
  Sibling, Group, link, add_siblings, resize, find_sibling, unlink, drop_sibling, alone, head_of,
  dec,
}

module _ {ℓ} {B : Type ℓ} where
  -- A key that is found in a list above another is greater.
  pub before_found :
      (k key : ℕ) (xs : List (Item B)) → Above k xs → find_item xs key ≢ none → k < key
  unfolding find_item
  before_found k key [] a f = absurd (f refl)
  before_found k key (x ∷ xs) a f = ground (arith, before_found k key xs a.1)

module _ {ℓ} {A : Type ℓ} where
  abbrev pub selves : List (Sibling A) → List (Item A)
  selves [] = []
  selves (s ∷ ss) = s.self ∷ selves ss

  abbrev pub entries : List (Item (Group A)) → List (Item A)
  entries [] = []
  entries (x ∷ xs) = head_of x ∷ (selves x.item.siblings ++ entries xs)

  -- A new item goes before the first with a greater key, but second among those of its own key.
  unfoldable pub insert_entry : Item A → List (Item A) → List (Item A)
  insert_entry new [] = new ∷ []
  insert_entry new (x ∷ xs) =
      if ltb new.key x.key
      then new ∷ x ∷ xs
      else if x.key == new.key
      then x ∷ new ∷ xs
      else x ∷ insert_entry new xs

  -- The first item with this item's key and address is taken out.
  unfoldable pub erase_entry : Item A → List (Item A) → List (Item A)
  erase_entry p [] = []
  erase_entry p (x ∷ xs) =
      if x.key == p.key
      then (if x.addr == p.addr then xs else x ∷ erase_entry p xs)
      else x ∷ erase_entry p xs

  -- All items of the list have this key.
  abbrev pub Keyed : ℕ → List (Item A) → Type 0
  Keyed k [] = Unit
  Keyed k (x ∷ xs) = (x.key ≡ k) × Keyed k xs

  -- Siblings have the key of their node.
  abbrev pub Proper : List (Item (Group A)) → Type 0
  Proper [] = Unit
  Proper (x ∷ xs) = Keyed x.key (selves x.item.siblings) × Proper xs

  pub insert_entry-skip :
      (new : Item A) (k : ℕ) (g rest : List (Item A))
      → Keyed k g
      → k < new.key
      → insert_entry new (g ++ rest) ≡ g ++ insert_entry new rest
  unfolding insert_entry
  insert_entry-skip new k [] rest h lt = refl
  insert_entry-skip new k (x ∷ g) rest h lt =
      ground (arith, h.0, insert_entry-skip new k g rest h.1 lt)

  pub erase_entry-skip :
      (p : Item A) (k : ℕ) (g rest : List (Item A))
      → Keyed k g
      → k < p.key
      → erase_entry p (g ++ rest) ≡ g ++ erase_entry p rest
  unfolding erase_entry
  erase_entry-skip p k [] rest h lt = refl
  erase_entry-skip p k (x ∷ g) rest h lt = ground (arith, h.0, erase_entry-skip p k g rest h.1 lt)

  -- A sibling of this address is found among them, and is what `unlink` takes out.
  pub erase_entry-selves :
      (p : Item A) (ss : List (Sibling A)) (rest : List (Item A)) (s : Sibling A)
      → Keyed p.key (selves ss)
      → find_sibling p.addr ss ≡ some s
      → erase_entry p (selves ss ++ rest) ≡ selves (unlink p.addr ss) ++ rest
  unfolding erase_entry find_sibling unlink
  erase_entry-selves p [] rest s h f = absurd (some≢none (sym f))
  erase_entry-selves p (u ∷ ss) rest s h f = ground (arith, h.0, erase_entry-selves p ss rest s h.1)

  pub selves-resize : (n : ℕ) (ss : List (Sibling A)) → selves (resize n ss) ≡ selves ss
  unfolding resize
  selves-resize n [] = refl
  selves-resize n (s ∷ ss) = refl

  pub selves-drop_sibling :
      (a : ℕ) (ss : List (Sibling A)) → selves (drop_sibling a ss) ≡ selves (unlink a ss)
  unfolding drop_sibling unlink
  selves-drop_sibling a [] = refl
  selves-drop_sibling a (s ∷ ss) = ground (arith, selves-resize (dec s.node_size) ss)

  pub selves-link :
      (new : Item A) (at : ℕ) (ss : List (Sibling A)) → selves (link new at ss) ≡ new ∷ selves ss
  unfolding link
  selves-link new at [] = refl
  selves-link new at (s ∷ ss) = refl

  -- What is written to the node of a key, in the list of the nodes.
  unfoldable pub alter_item :
      ℕ → (Item (Group A) → Item (Group A)) → List (Item (Group A)) → List (Item (Group A))
  alter_item key f [] = []
  alter_item key f (x ∷ xs) = if x.key == key then f x ∷ xs else x ∷ alter_item key f xs

  -- Without the key, a node by itself is put where the new item goes.
  pub entries-insert_item :
      (new : Item A) (xs : List (Item (Group A)))
      → Sorted xs
      → Proper xs
      → find_item xs new.key ≡ none
      → entries (insert_item (alone new) xs) ≡ insert_entry new (entries xs)
  unfolding insert_item insert_entry find_item alone head_of
  entries-insert_item new [] s h f = refl
  entries-insert_item new (x ∷ xs) s h f = ground (
    arith,
    entries-insert_item new xs s.1 h.1,
    insert_entry-skip new x.key (selves x.item.siblings) (entries xs) h.0,
  )

  -- With the key, `AddSiblings` puts it there.
  pub entries-add_siblings :
      (new : Item A) (xs : List (Item (Group A)))
      → Sorted xs
      → Proper xs
      → find_item xs new.key ≢ none
      → entries (alter_item new.key (add_siblings new) xs) ≡ insert_entry new (entries xs)
  unfolding alter_item insert_entry find_item add_siblings head_of
  entries-add_siblings new [] s h f = absurd (f refl)
  entries-add_siblings new (x ∷ xs) s h f =
      let skip = insert_entry-skip new x.key (selves x.item.siblings) (entries xs) h.0 in
      elim (Bool-cases (x.key == new.key)) [
        | inl e ↦
            rw e
              (ground (arith, ap (λ z. z ++ entries xs) (selves-link new x.addr x.item.siblings)))
        | inr e ↦
            let later : find_item xs new.key ≢ none = ground arith in
            let lt : x.key < new.key = before_found x.key new.key xs s.0 later in
            rw e (ground (arith, entries-add_siblings new xs s.1 h.1 later, skip lt))
      ]
