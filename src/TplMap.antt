-- ===== src/TplMap.antt =====
-- The search tree of Public/TPL/include/tplmap.h: `TplNode` and `TplMap`.
-- A node is known by its address. The links to children and parent are the tree itself; the field
-- `m_nodeSize`, the number of nodes below, is kept as the code keeps it. `none` is a fault: a null
-- dereference, or fuel that has run out. The `_DEBUG` and `_NEED_TREE_CHECK` branches are left out.
pub mod Order
pub mod Raise
pub mod Migrate
pub mod Update
pub mod Lists
pub mod Insert
pub mod Budget
pub mod RemoveHere
pub mod Remove
pub mod Facade
pub mod Refine
pub mod Walk
mod Tests
use zephyr_server.Common.{
  ℕ, zero, suc, ◌+◌, ◌-◌, ◌*◌, ◌/◌, Bool, true, false, Option, none, some, ◌>>=◌, List, [], ◌∷◌,
  ◌++◌, ltb, leb, ◌==◌, if◌then◌else◌,
}

-- What a node adds to the tree: its address, its key, and the rest of the user's `CItem`.
pub record Item {ℓ} (A : Type ℓ) : Type ℓ where
  pub addr : ℕ
  pub key : ℕ
  pub item : A

-- A pointer to a `TplNode`, null or with left child, item, `m_nodeSize` and right child.
pub data Tree {ℓ} (A : Type ℓ) : Type ℓ where
  null : Tree A
  node : Tree A → Item A → ℕ → Tree A → Tree A

-- What `NeedBalance` returns: 0, 1 and -1.
pub data Balance : Type 0 where
  even heavy_left heavy_right : Balance

module _ {ℓ} {A : Type ℓ} where
  -- `GetTreeSize`, with 0 for a null pointer as in all its uses.
  unfoldable pub get_tree_size : Tree A → ℕ
  get_tree_size null = 0
  get_tree_size (node l x n r) = n + 1

  -- `NeedBalance` of a node with these children.
  unfoldable pub need_balance : Tree A → Tree A → Balance
  need_balance l r =
      if ltb (get_tree_size l * 2 + 2) (get_tree_size r)
      then heavy_right
      else if ltb (get_tree_size r * 2 + 2) (get_tree_size l)
      then heavy_left
      else even

  -- `NeedRearrange(bRightNode)`
  unfoldable pub need_rearrange : Bool → Tree A → Tree A → Bool
  need_rearrange true l r = ltb (get_tree_size l * 2 + 2) (get_tree_size r)
  need_rearrange false l r = ltb (get_tree_size r * 2 + 2) (get_tree_size l)

  -- The end of `MigrateLeft2Right` where the left child's right child, `mid`, becomes the root and its
  -- parts are handed to the left child (item `lx`, size `ln`) and to the old root (item `x`).
  unfoldable pub raise_mid_left :
      Tree A → Item A → ℕ → Tree A → Item A → ℕ → Tree A → Option (Tree A)
  raise_mid_left ll lx ln null x n r = none
  raise_mid_left ll lx ln (node a y m null) x n r =
      some (node (node ll lx (ln - 1) a) y n (node null x (get_tree_size r) r))
  raise_mid_left ll lx ln (node a y m (node bl bx bn br)) x n r = some (
      node (node ll lx (ln - (bn + 1 + 1)) a) y n
        (node (node bl bx bn br) x (get_tree_size r + (bn + 1)) r))

  -- The end of `MigrateRight2Left`, likewise.
  unfoldable pub raise_mid_right :
      Tree A → Item A → ℕ → Tree A → Item A → ℕ → Tree A → Option (Tree A)
  raise_mid_right l x n null rx rn rr = none
  raise_mid_right l x n (node null y m b) rx rn rr =
      some (node (node l x (get_tree_size l) null) y n (node b rx (rn - 1) rr))
  raise_mid_right l x n (node (node al ax an ar) y m b) rx rn rr = some (
      node (node l x (get_tree_size l + (an + 1)) (node al ax an ar)) y n
        (node b rx (rn - (an + 1 + 1)) rr))

  -- `MigrateLeft2Right` of a node with item `x`, size `n` and right child `r`, from the point where
  -- its left child has been balanced. `balance` stands for the calls that balance a child.
  unfoldable pub raise_left :
      (Tree A → Option (Tree A)) → Tree A → Item A → ℕ → Tree A → Option (Tree A)
  raise_left balance null x n r = none
  raise_left balance (node ll lx ln null) x n r =
      some (node ll lx n (node null x (get_tree_size r) r))
  raise_left balance (node ll lx ln (node a y m b)) x n r =
      if leb m (ln / 2)
      then some (node ll lx n (node (node a y m b) x (get_tree_size r + (m + 1)) r))
      else (balance (node a y m b) >>= λ mid. raise_mid_left ll lx ln mid x n r)

  -- `MigrateRight2Left`, likewise.
  unfoldable pub raise_right :
      (Tree A → Option (Tree A)) → Tree A → Item A → ℕ → Tree A → Option (Tree A)
  raise_right balance l x n null = none
  raise_right balance l x n (node null rx rn rr) =
      some (node (node l x (get_tree_size l) null) rx n rr)
  raise_right balance l x n (node (node a y m b) rx rn rr) =
      if leb m (rn / 2)
      then some (node (node l x (get_tree_size l + (m + 1)) (node a y m b)) rx n rr)
      else (balance (node a y m b) >>= λ mid. raise_mid_right l x n mid rx rn rr)

  -- `MigrateLeft2Right` and `MigrateRight2Left`: the heavy child is balanced, then raised.
  unfoldable pub migrate_left :
      (Tree A → Option (Tree A)) → Tree A → Item A → ℕ → Tree A → Option (Tree A)
  migrate_left balance l x n r = balance l >>= λ l'. raise_left balance l' x n r

  unfoldable pub migrate_right :
      (Tree A → Option (Tree A)) → Tree A → Item A → ℕ → Tree A → Option (Tree A)
  migrate_right balance l x n r = balance r >>= λ r'. raise_right balance l x n r'

  -- The calls at the head of both: `NeedBalance`, then the migration that it asks for.
  unfoldable pub balance : ℕ → Tree A → Option (Tree A)
  balance zero t = none
  balance (suc fuel) null = none
  balance (suc fuel) (node l x n r) = elim (need_balance l r) [
    | even ↦ some (node l x n r)
    | heavy_left ↦ migrate_left (balance fuel) l x n r
    | heavy_right ↦ migrate_right (balance fuel) l x n r
  ]

  unfoldable pub migrate_left2right : ℕ → Tree A → Option (Tree A)
  migrate_left2right fuel null = none
  migrate_left2right fuel (node l x n r) = migrate_left (balance fuel) l x n r

  unfoldable pub migrate_right2left : ℕ → Tree A → Option (Tree A)
  migrate_right2left fuel null = none
  migrate_right2left fuel (node l x n r) = migrate_right (balance fuel) l x n r

  -- `FindNode`: the pointer to the node of this key, that is, the subtree below it.
  unfoldable pub find_node : Tree A → ℕ → Tree A
  find_node null key = null
  find_node (node l x n r) key =
      if x.key == key
      then node l x n r
      else if ltb key x.key
      then find_node l key
      else find_node r key

  -- The item that a pointer to a node points to.
  unfoldable pub root_item : Tree A → Option (Item A)
  root_item null = none
  root_item (node l x n r) = some x

  -- `GetSmallest` and `GetBigest` of a node with these fields.
  unfoldable pub get_smallest : Tree A → Item A → Item A
  get_smallest null x = x
  get_smallest (node l y n r) x = get_smallest l y

  unfoldable pub get_bigest : Item A → Tree A → Item A
  get_bigest x null = x
  get_bigest x (node l y n r) = get_bigest y r
