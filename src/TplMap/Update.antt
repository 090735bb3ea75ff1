-- ===== src/TplMap/Update.antt =====
-- `AddNode`, `ReleaseNode` and their checked forms, and the operations of `TplMap`.
use zephyr_server.Common.{
  ℕ, zero, suc, ◌+◌, ◌-◌, true, false, Option, none, some, ◌>>=◌, ltb, ◌==◌, if◌then◌else◌,
}
use zephyr_server.TplMap.{
  Item, Tree, null, node, need_rearrange, migrate_left2right, migrate_right2left, get_smallest,
  get_bigest,
}

module _ {ℓ} {A : Type ℓ} where
  -- A node after `PrepareItem`: no children.
  abbrev pub single : Item A → Tree A
  single x = node null x 0 null

  -- `m_pLeftNode = m_pLeftNode ? m_pLeftNode->AddNode(pNode) : pNode`
  unfoldable pub add_child : (Tree A → Option (Tree A)) → Tree A → Item A → Option (Tree A)
  add_child add null new = some (single new)
  add_child add (node l x n r) new = add (node l x n r)

  -- The new node goes below the root `pNewRoot` that a migration to the right has left: only the
  -- left child is checked for null.
  unfoldable pub add_below_right : (Tree A → Option (Tree A)) → Item A → Tree A → Option (Tree A)
  add_below_right add new null = none
  add_below_right add new (node l x n r) =
      if ltb new.key x.key
      then (add_child add l new >>= λ l'. some (node l' x (n + 1) r))
      else (add r >>= λ r'. some (node l x (n + 1) r'))

  -- Likewise after a migration to the left: only the right child is checked for null.
  unfoldable pub add_below_left : (Tree A → Option (Tree A)) → Item A → Tree A → Option (Tree A)
  add_below_left add new null = none
  add_below_left add new (node l x n r) =
      if ltb new.key x.key
      then (add l >>= λ l'. some (node l' x (n + 1) r))
      else (add_child add r new >>= λ r'. some (node l x (n + 1) r'))

  -- `AddNode` into the left part: `key > pNode->GetKey()`.
  unfoldable pub add_left :
      ℕ → (Tree A → Option (Tree A)) → Item A → Tree A → Item A → ℕ → Tree A → Option (Tree A)
  add_left fuel add new l x n r =
      if need_rearrange false l r
      then (migrate_left2right fuel (node l x n r) >>= add_below_right add new)
      else (add_child add l new >>= λ l'. some (node l' x (n + 1) r))

  unfoldable pub add_right :
      ℕ → (Tree A → Option (Tree A)) → Item A → Tree A → Item A → ℕ → Tree A → Option (Tree A)
  add_right fuel add new l x n r =
      if need_rearrange true l r
      then (migrate_right2left fuel (node l x n r) >>= add_below_left add new)
      else (add_child add r new >>= λ r'. some (node l x (n + 1) r'))

  -- `AddNode`; the result is the new root of the subtree.
  unfoldable pub add_node : ℕ → Item A → Tree A → Option (Tree A)
  add_node zero new t = none
  add_node (suc fuel) new null = none
  add_node (suc fuel) new (node l x n r) =
      if x.addr == new.addr
      then some (node l x n r)
      else if ltb new.key x.key
      then add_left fuel (add_node fuel new) new l x n r
      else add_right fuel (add_node fuel new) new l x n r

  -- `ReleaseNode` of the node itself, by its children.
  unfoldable pub release_here :
      (ℕ → Tree A → Option (Tree A)) → Tree A → ℕ → Tree A → Option (Tree A)
  release_here release null n r = some r
  release_here release (node ll lx ln lr) n null = some (node ll lx ln lr)
  release_here release (node ll lx ln lr) n (node rl rx rn rr) =
      if ltb ln rn
      then (let y = get_smallest rl rx in
          (release y.key (node rl rx rn rr) >>= λ r'. some (node (node ll lx ln lr) y (n - 1) r')))
      else let y = get_bigest lx lr in
        (release y.key (node ll lx ln lr) >>= λ l'. some (node l' y (n - 1) (node rl rx rn rr)))

  -- `ReleaseNode` in the left part. A null left child is dereferenced.
  unfoldable pub release_left :
      ℕ → (Tree A → Option (Tree A)) → Tree A → Item A → ℕ → Tree A → Option (Tree A)
  release_left fuel release l x n r =
      if need_rearrange true l r
      then (migrate_right2left fuel (node l x n r) >>= release)
      else (release l >>= λ l'. some (node l' x (n - 1) r))

  -- In the right part a null child ends the search.
  unfoldable pub release_right :
      ℕ → (Tree A → Option (Tree A)) → Tree A → Item A → ℕ → Tree A → Option (Tree A)
  release_right fuel release l x n null = some (node l x n null)
  release_right fuel release l x n (node rl rx rn rr) =
      if need_rearrange false l (node rl rx rn rr)
      then (migrate_left2right fuel (node l x n (node rl rx rn rr)) >>= release)
      else (release (node rl rx rn rr) >>= λ r'. some (node l x (n - 1) r'))

  -- `ReleaseNode`; the result is the new root of the subtree.
  unfoldable pub release_node : ℕ → ℕ → Tree A → Option (Tree A)
  release_node zero key t = none
  release_node (suc fuel) key null = none
  release_node (suc fuel) key (node l x n r) =
      if x.key == key
      then release_here (release_node fuel) l n r
      else if ltb key x.key
      then release_left fuel (release_node fuel key) l x n r
      else release_right fuel (release_node fuel key) l x n r
