-- ===== src/TplMap/Budget.antt =====
-- The fuel of `ReleaseNode`.
use zephyr_server.Common.{ℕ, zero, suc, ◌+◌, ◌≤◌, ◌≡◌, arith}
use native.Mathlib.Numerals.{add-one}

-- Fuel for a tree of so many nodes: at each node on the way down a migration may be made once for
-- each node of the other side, since each puts at least one of them on the side of the key.
unfoldable pub budget : ℕ → ℕ
budget zero = 0
budget (suc c) = budget c + suc c

pub budget_mono : (a b : ℕ) → a ≤ b → budget a ≤ budget b
unfolding budget
budget_mono zero b h = omega arith
budget_mono (suc a) zero h = absurd (omega arith)
budget_mono (suc a) (suc b) h = omega (arith, budget_mono a b (omega arith))

pub budget-add_one : (c : ℕ) → budget (c + 1) ≡ budget c + (c + 1)
unfolding budget
budget-add_one c = rw add-one

pub budget-ge : (a : ℕ) → a ≤ budget a
unfolding budget
budget-ge zero = omega arith
budget-ge (suc a) = omega (arith, budget-ge a)
