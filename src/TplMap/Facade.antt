-- ===== src/TplMap/Facade.antt =====
-- The class `TplMap` over its tree: `AddInTree`, `RemoveFromTree`, `GetItemByKey`, `First`, `Last`,
-- `GetActivedSize`. The pool that the items come from, with `PrepareItem` and `ReleaseItem`, is left out.
use zephyr_server.Common.{ℕ, Option, none, some, ◌>>=◌, ◌==◌, if◌then◌else◌}
use zephyr_server.TplMap.{
  Item, Tree, null, node, get_tree_size, find_node, root_item, get_smallest, get_bigest,
}
use zephyr_server.TplMap.Update.{single, add_node, release_node}
use zephyr_server.TplMap.Budget.{budget}

-- `SUCCESS`, `FAIL`, `NULL_POINTER`
pub data Code : Type 0 where
  success fail null_pointer : Code

module _ {ℓ} {A : Type ℓ} where
  -- `SafeAddNode` by what `FindNode` finds: the result code and the new root.
  unfoldable pub add_unless : Option (Item A) → Item A → Tree A → Option (Code × Tree A)
  add_unless (some x) new t = some (fail, t)
  add_unless none new t = add_node (get_tree_size t) new t >>= λ u. some (success, u)

  unfoldable pub safe_add_node : Item A → Tree A → Option (Code × Tree A)
  unfolding add_unless
  safe_add_node new t = add_unless (root_item (find_node t new.key)) new t

  -- `SafeReleaseNode` by the node found: where it is not `pNode`, it is the root returned.
  unfoldable pub release_found : Tree A → Item A → Tree A → Option (Code × Tree A)
  release_found null x t = some (fail, null)
  release_found (node l y n r) x t =
      if y.addr == x.addr
      then (release_node (budget (get_tree_size t)) x.key t >>= λ u. some (success, u))
      else some (fail, node l y n r)

  unfoldable pub safe_release_node : Item A → Tree A → Option (Code × Tree A)
  unfolding release_found
  safe_release_node x t = release_found (find_node t x.key) x t

  -- `AddInTree`, with `none` for a null `pItem`.
  unfoldable pub add_in_tree : Option (Item A) → Tree A → Option (Code × Tree A)
  add_in_tree none t = some (null_pointer, t)
  add_in_tree (some new) null = some (success, single new)
  add_in_tree (some new) (node l x n r) = safe_add_node new (node l x n r)

  -- `RemoveFromTree`: `m_pTree` is assigned before the result is tested.
  unfoldable pub remove_from_tree : Option (Item A) → Tree A → Option (Code × Tree A)
  remove_from_tree none t = some (null_pointer, t)
  remove_from_tree (some x) null = some (success, null)
  remove_from_tree (some x) (node l y n r) = safe_release_node x (node l y n r)

  -- `GetItemByKey`
  unfoldable pub get_item_by_key : Tree A → ℕ → Option (Item A)
  unfolding root_item find_node
  get_item_by_key t key = root_item (find_node t key)

  -- `First` and `Last`
  unfoldable pub first : Tree A → Option (Item A)
  first null = none
  first (node l x n r) = some (get_smallest l x)

  unfoldable pub last : Tree A → Option (Item A)
  last null = none
  last (node l x n r) = some (get_bigest x r)

  -- `GetActivedSize`
  unfoldable pub get_actived_size : Tree A → ℕ
  unfolding get_tree_size
  get_actived_size t = get_tree_size t
