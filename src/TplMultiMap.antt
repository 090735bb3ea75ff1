-- ===== src/TplMultiMap.antt =====
-- The search tree of Public/TPL/include/TplMultiMap.h, whose keys may stand more than once:
-- `TplMultiKeyMapNode` and `TplMultiKeyMap`. A node whose key the tree has is linked to the tree's node as a
-- sibling. The tree's own routines (`AddNode`, `ReleaseNode`, `FindNode`, the migrations) are the same text as
-- in tplmap.h, so they are the ones of TplMap, with the siblings as what a node adds. `none` is a fault.
pub mod Entries
pub mod Alter
pub mod Add
pub mod Erase
pub mod Remove
pub mod Orphans
pub mod Queue
pub mod Numbers
pub mod Walk
mod Tests
use zephyr_server.Common.{
  ℕ, ◌+◌, ◌-◌, ◌%◌, ◌^◌, Option, none, some, ◌>>=◌, List, [], ◌∷◌, ltb, ◌==◌, if◌then◌else◌,
}
use zephyr_server.TplMap.{Item, Tree, null, node, get_tree_size, find_node, root_item, get_smallest}
use zephyr_server.TplMap.Update.{single, add_node, release_node}
use zephyr_server.TplMap.Budget.{budget}

-- The result codes of the class.
pub data Code : Type 0 where
  success fail null_pointer already_in_tree not_belong : Code

-- A node in a list of siblings: the item, `m_pParent` and `m_nodeSize`. The list is `m_pRightNode`.
pub record Sibling {ℓ} (A : Type ℓ) : Type ℓ where
  pub self : Item A
  pub parent : ℕ
  pub node_size : ℕ

-- What a node of the tree adds to its key: the user's `CItem`, and `m_pSiblings`.
pub record Group {ℓ} (A : Type ℓ) : Type ℓ where
  pub payload : A
  pub siblings : List (Sibling A)

-- `m_nodeSize - 1` of a `TUInt32`
unfoldable pub dec : ℕ → ℕ
dec n = (n + (2 ^ 32 - 1)) % 2 ^ 32

module _ {ℓ} {A : Type ℓ} where
  -- `GetSiblingsNr`
  unfoldable pub get_siblings_nr : List (Sibling A) → ℕ
  get_siblings_nr [] = 0
  get_siblings_nr (s ∷ ss) = s.node_size

  -- `AddSiblings`: the new sibling is linked before the others, and takes over their number.
  unfoldable pub link : Item A → ℕ → List (Sibling A) → List (Sibling A)
  link new at [] = record { self = new; parent = at; node_size = 1 } ∷ []
  link new at (s ∷ ss) =
      record { self = new; parent = at; node_size = (s.node_size + 1) % 2 ^ 32 }
      ∷ record { self = s.self; parent = s.parent; node_size = 0 }
      ∷ ss

  unfoldable pub add_siblings : Item A → Item (Group A) → Item (Group A)
  unfolding link
  add_siblings new x = record {
    addr = x.addr;
    key = x.key;
    item = record { payload = x.item.payload; siblings = link new x.addr x.item.siblings };
  }

  -- What is written through the pointer that `FindNode` returns.
  unfoldable pub alter : ℕ → (Item (Group A) → Item (Group A)) → Tree (Group A) → Tree (Group A)
  alter key f null = null
  alter key f (node l x n r) =
      if x.key == key
      then node l (f x) n r
      else if ltb key x.key
      then node (alter key f l) x n r
      else node l x n (alter key f r)

  -- A node by itself, after `Init` and `m_pSiblings = NULL`.
  unfoldable pub alone : Item A → Item (Group A)
  alone new = record {
    addr = new.addr;
    key = new.key;
    item = record { payload = new.item; siblings = [] };
  }

  -- `SafeAddNode` by what `FindNode` finds.
  unfoldable pub add_at :
      Option (Item (Group A)) → Item A → Tree (Group A) → Option (Tree (Group A))
  unfolding alone
  add_at (some x) new t = some (alter new.key (add_siblings new) t)
  add_at none new t = add_node (get_tree_size t) (alone new) t

  unfoldable pub safe_add_node : Item A → Tree (Group A) → Option (Tree (Group A))
  unfolding add_at
  safe_add_node new t = add_at (root_item (find_node t new.key)) new t

  -- The first sibling's `m_nodeSize` is assigned, where there is one.
  unfoldable pub resize : ℕ → List (Sibling A) → List (Sibling A)
  resize n [] = []
  resize n (s ∷ ss) = record { self = s.self; parent = s.parent; node_size = n } ∷ ss

  -- The first sibling `s` takes the place of a node of the tree whose `m_nodeSize` is `n`.
  unfoldable pub promote : Sibling A → List (Sibling A) → ℕ → Item (Group A)
  unfolding resize
  promote s ss n = record {
    addr = s.self.addr;
    key = s.self.key;
    item = record { payload = s.self.item; siblings = resize (dec n) ss };
  }

  -- The sibling of this address, if the list has it.
  unfoldable pub find_sibling : ℕ → List (Sibling A) → Option (Sibling A)
  find_sibling a [] = none
  find_sibling a (s ∷ ss) = if s.self.addr == a then some s else find_sibling a ss

  -- `m_pLeftNode->m_pRightNode = m_pRightNode`
  unfoldable pub unlink : ℕ → List (Sibling A) → List (Sibling A)
  unlink a [] = []
  unlink a (s ∷ ss) = if s.self.addr == a then ss else s ∷ unlink a ss

  -- The end of `SafeReleaseNode` for a sibling: the first hands its number on, else the first's is
  -- decreased.
  unfoldable pub drop_sibling : ℕ → List (Sibling A) → List (Sibling A)
  unfolding resize
  drop_sibling a [] = []
  drop_sibling a (s ∷ ss) =
      if s.self.addr == a
      then resize (dec s.node_size) ss
      else record { self = s.self; parent = s.parent; node_size = dec s.node_size } ∷ unlink a ss

  unfoldable pub without : ℕ → Item (Group A) → Item (Group A)
  unfolding drop_sibling
  without a x = record {
    addr = x.addr;
    key = x.key;
    item = record { payload = x.item.payload; siblings = drop_sibling a x.item.siblings };
  }

  -- `SafeReleaseNode` of a node of the tree, by its siblings and its `m_nodeSize`.
  unfoldable pub release_tree_node :
      ℕ → List (Sibling A) → ℕ → Tree (Group A) → Option (Code × Tree (Group A))
  unfolding promote
  release_tree_node key [] n t =
      release_node (budget (get_tree_size t)) key t >>= λ u. some (success, u)
  release_tree_node key (s ∷ ss) n t = some (success, alter key (λ x. promote s ss n) t)

  -- `SafeReleaseNode` of a sibling; `at` is the address of the tree's node of its key.
  unfoldable pub release_sibling :
      Option (Sibling A) → ℕ → Item A → Tree (Group A) → Code × Tree (Group A)
  unfolding without
  release_sibling none at p t = (fail, t)
  release_sibling (some s) at p t =
      if s.parent == at then (success, alter p.key (without p.addr) t) else (fail, t)

  -- `SafeReleaseNode` by what `FindNode` finds. A node that is in no list of siblings has `m_pParent`
  -- null since `UnInit`, or is no sibling, so the tests before `m_pSiblings` is read fail.
  unfoldable pub release_found :
      Tree (Group A) → Item A → Tree (Group A) → Option (Code × Tree (Group A))
  unfolding find_sibling
  release_found null p t = some (fail, t)
  release_found (node l x n r) p t =
      if x.addr == p.addr
      then release_tree_node p.key x.item.siblings n t
      else some (release_sibling (find_sibling p.addr x.item.siblings) x.addr p t)

  unfoldable pub safe_release_node : Item A → Tree (Group A) → Option (Code × Tree (Group A))
  unfolding release_found
  safe_release_node p t = release_found (find_node t p.key) p t

-- The class: its own address, `m_pTree`, and `m_tTree.m_pTree` of the nodes by their addresses (0 is null).
pub record MultiMap {ℓ} (A : Type ℓ) : Type ℓ where
  pub this : ℕ
  pub tree : Tree (Group A)
  pub holder : ℕ → ℕ

-- `m_tTree.m_pTree = h` of the node at `a`
unfoldable pub hold : ℕ → ℕ → (ℕ → ℕ) → ℕ → ℕ
hold a h f b = if a == b then h else f b

module _ {ℓ} {A : Type ℓ} where
  abbrev pub with_tree : Tree (Group A) → (ℕ → ℕ) → MultiMap A → MultiMap A
  with_tree t h m = record { this = m.this; tree = t; holder = h }

  -- `AddInTree` into an empty tree and into another.
  unfoldable pub add_somewhere : Item A → Tree (Group A) → Option (Tree (Group A))
  unfolding safe_add_node alone
  add_somewhere new null = some (single (alone new))
  add_somewhere new (node l x n r) = safe_add_node new (node l x n r)

  -- `AddInTree`, with `none` for a null `pItem`.
  unfoldable pub add_in_tree : Option (Item A) → MultiMap A → Option (Code × MultiMap A)
  unfolding add_somewhere hold
  add_in_tree none m = some (null_pointer, m)
  add_in_tree (some new) m =
      if m.holder new.addr == 0
      then (add_somewhere new m.tree >>= λ u.
          some (success, with_tree u (hold new.addr m.this m.holder) m))
      else some (already_in_tree, m)

  -- `RemoveFromTreeItem`: `m_tTree` is cleared whatever `SafeReleaseNode` answers.
  unfoldable pub remove_in : Tree (Group A) → Item A → MultiMap A → Option (Code × MultiMap A)
  unfolding safe_release_node hold
  remove_in null p m = some (not_belong, m)
  remove_in (node l x n r) p m =
      if m.holder p.addr == m.this
      then (safe_release_node p (node l x n r) >>= λ o.
          some (o.0, with_tree o.1 (hold p.addr 0 m.holder) m))
      else some (not_belong, m)

  unfoldable pub remove_from_tree_item : Item A → MultiMap A → Option (Code × MultiMap A)
  unfolding remove_in
  remove_from_tree_item p m = remove_in m.tree p m

  -- The item of a node of the tree.
  unfoldable pub head_of : Item (Group A) → Item A
  head_of x = record { addr = x.addr; key = x.key; item = x.item.payload }

  -- `First` and `GetItemByKey`
  unfoldable pub first_in : Tree (Group A) → Option (Item A)
  unfolding head_of
  first_in null = none
  first_in (node l x n r) = some (head_of (get_smallest l x))

  unfoldable pub first : MultiMap A → Option (Item A)
  unfolding first_in
  first m = first_in m.tree

  unfoldable pub get_item_by_key : ℕ → MultiMap A → Option (Item A)
  unfolding head_of
  get_item_by_key key m = root_item (find_node m.tree key) >>= λ x. some (head_of x)

  -- `GetActivedSize`
  unfoldable pub get_actived_size : MultiMap A → ℕ
  get_actived_size m = get_tree_size m.tree
