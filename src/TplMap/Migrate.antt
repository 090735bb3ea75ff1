-- ===== src/TplMap/Migrate.antt =====
-- The rebalancing moves: what they do to the list of items and the size fields.
use zephyr_server.Common.{
  ℕ, zero, suc, ◌+◌, ◌*◌, ◌≤◌, ◌<◌, ◌≡◌, refl, true, false, some, ltb→lt, arith,
}
use zephyr_server.TplMap.{
  Item, Tree, null, node, Balance, even, heavy_left, heavy_right, get_tree_size, need_balance,
  need_rearrange, migrate_left, migrate_right, balance, migrate_left2right, migrate_right2left,
}
use zephyr_server.TplMap.Order.{count, Sized, IsNode}
use zephyr_server.TplMap.Raise.{
  RaisedLeft, RaisedRight, Rebuilt, Rebuilds, migrate_left-Raised, migrate_right-Raised,
}

module _ {ℓ} {A : Type ℓ} where
  -- A child that is too heavy is a node.
  IsNode-of_heavy : (l r : Tree A) → get_tree_size r * 2 + 2 < get_tree_size l → IsNode l
  unfolding get_tree_size
  IsNode-of_heavy null r h = absurd (omega arith)
  IsNode-of_heavy (node l x n r') r h = tt

  pub need_rearrange-IsNode :
      (l r : Tree A)
      → (need_rearrange false l r ≡ true → IsNode l) × (need_rearrange true l r ≡ true → IsNode r)
  unfolding need_rearrange
  need_rearrange-IsNode l r =
      (λ e. IsNode-of_heavy l r (ltb→lt _ _ e), λ e. IsNode-of_heavy r l (ltb→lt _ _ e))

  need_balance-IsNode :
      (l r : Tree A)
      → (need_balance l r ≡ heavy_left → IsNode l) × (need_balance l r ≡ heavy_right → IsNode r)
  unfolding need_balance
  need_balance-IsNode l r =
      (λ e. IsNode-of_heavy l r (ground arith), λ e. IsNode-of_heavy r l (ground arith))

  balance-Rebuilds : (fuel : ℕ) → Rebuilds {A = A} fuel (balance fuel)
  unfolding balance
  balance-Rebuilds zero null i s h = absurd i
  balance-Rebuilds zero (node l x n r) i s h = absurd (omega arith)
  balance-Rebuilds (suc fuel) null i s h = absurd i
  balance-Rebuilds (suc fuel) (node l x n r) i s h =
      let ih = balance-Rebuilds fuel in step (need_balance l r) refl (λ t j z k. ih t j z k)
    where
      step :
          (b : Balance)
          → need_balance l r ≡ b
          → Rebuilds {A = A} fuel (balance fuel)
          → Rebuilt (node l x n r) (elim b [
            | even ↦ some (node l x n r)
            | heavy_left ↦ migrate_left (balance fuel) l x n r
            | heavy_right ↦ migrate_right (balance fuel) l x n r
          ])
      step even e g = (_, refl, refl, (s, tt))
      step heavy_left e g =
          let out =
            migrate_left-Raised (balance fuel) l x n r ((need_balance-IsNode l r).0 e)
              (λ t j z k. g t j z (omega arith)) s in
          (_, out.made, out.same, (out.sized, tt))
      step heavy_right e g =
          let out =
            migrate_right-Raised (balance fuel) l x n r ((need_balance-IsNode l r).1 e)
              (λ t j z k. g t j z (omega arith)) s in
          (_, out.made, out.same, (out.sized, tt))

  -- `MigrateLeft2Right` of a tree with right sizes and a left child, with fuel for that child, gives a
  -- new root with the same items in order and right sizes; the old root and its right child stand to
  -- the right of the new one.
  pub migrate_left2right-Raised :
      (fuel : ℕ) (l : Tree A) (x : Item A) (n : ℕ) (r : Tree A)
      → IsNode l
      → Sized (node l x n r)
      → count l ≤ fuel
      → RaisedLeft l x r (migrate_left2right fuel (node l x n r))
  unfolding migrate_left2right
  migrate_left2right-Raised fuel l x n r i s h =
      migrate_left-Raised (balance fuel) l x n r i
        (λ t j z k. balance-Rebuilds fuel t j z (omega arith)) s

  -- `MigrateRight2Left` of a tree with right sizes and a right child, with fuel for that child, gives a
  -- new root with the same items in order and right sizes; the old root and its left child stand to
  -- the left of the new one.
  pub migrate_right2left-Raised :
      (fuel : ℕ) (l : Tree A) (x : Item A) (n : ℕ) (r : Tree A)
      → IsNode r
      → Sized (node l x n r)
      → count r ≤ fuel
      → RaisedRight l x r (migrate_right2left fuel (node l x n r))
  unfolding migrate_right2left
  migrate_right2left-Raised fuel l x n r i s h =
      migrate_right-Raised (balance fuel) l x n r i
        (λ t j z k. balance-Rebuilds fuel t j z (omega arith)) s

  -- The step that the migrations begin with, `NeedBalance` of a child and the migration that it asks
  -- for, does not fault with fuel for all nodes of the child: it gives a tree with the same items in
  -- order and right sizes.
  pub balance-Rebuilt :
      (fuel : ℕ) (t : Tree A) → IsNode t → Sized t → count t ≤ fuel → Rebuilt t (balance fuel t)
  balance-Rebuilt fuel t i s h = balance-Rebuilds fuel t i s h
