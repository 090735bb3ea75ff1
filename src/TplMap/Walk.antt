-- ===== src/TplMap/Walk.antt =====
-- `TplNode::Iterator`: `++` and `--` over the tree. A position is a node with the links to its
-- parents, which `m_pParent` keeps.
use zephyr_server.Common.{
  ℕ, zero, suc, ◌≤◌, ◌≡◌, refl, sym, ap, ◌∙◌, Option, none, some, List, [], ◌∷◌, ◌++◌, append_assoc,
  append-nil, length, arith,
}
use zephyr_server.TplMap.{Item, Tree, null, node}
use zephyr_server.TplMap.Order.{to_list}

-- A parent, with its other child: the position stands below its left or its right link.
pub data Parent {ℓ} (A : Type ℓ) : Type ℓ where
  left_of : Item A → ℕ → Tree A → Parent A
  right_of : Tree A → Item A → ℕ → Parent A

pub record Position {ℓ} (A : Type ℓ) : Type ℓ where
  pub left : Tree A
  pub item : Item A
  pub size : ℕ
  pub right : Tree A
  pub parents : List (Parent A)

module _ {ℓ} {A : Type ℓ} where
  -- `GetSmallest` and `GetBigest`, as positions.
  unfoldable pub smallest : Tree A → Item A → ℕ → Tree A → List (Parent A) → Position A
  smallest null x n r ps = record { left = null; item = x; size = n; right = r; parents = ps }
  smallest (node ll lx ln lr) x n r ps = smallest ll lx ln lr (left_of x n r ∷ ps)

  unfoldable pub bigest : Tree A → Item A → ℕ → Tree A → List (Parent A) → Position A
  bigest l x n null ps = record { left = l; item = x; size = n; right = null; parents = ps }
  bigest l x n (node rl rx rn rr) ps = bigest rl rx rn rr (right_of l x n ∷ ps)

  -- The loop of `++` from a node `t` without a right child other than the one it came from: to the
  -- first parent that has `t` on its left.
  unfoldable pub climb_left : Tree A → List (Parent A) → Option (Position A)
  climb_left t [] = none
  climb_left t (left_of x n r ∷ ps) =
      some (record { left = t; item = x; size = n; right = r; parents = ps })
  climb_left t (right_of l x n ∷ ps) = climb_left (node l x n t) ps

  unfoldable pub climb_right : Tree A → List (Parent A) → Option (Position A)
  climb_right t [] = none
  climb_right t (right_of l x n ∷ ps) =
      some (record { left = l; item = x; size = n; right = t; parents = ps })
  climb_right t (left_of x n r ∷ ps) = climb_right (node t x n r) ps

  -- `operator ++`, by the right child of the position.
  unfoldable pub next_from : Tree A → Item A → ℕ → Tree A → List (Parent A) → Option (Position A)
  next_from l x n null ps = climb_left (node l x n null) ps
  next_from l x n (node rl rx rn rr) ps = some (smallest rl rx rn rr (right_of l x n ∷ ps))

  unfoldable pub next : Position A → Option (Position A)
  unfolding next_from
  next p = next_from p.left p.item p.size p.right p.parents

  -- `operator --`
  unfoldable pub prev_from : Tree A → Item A → ℕ → Tree A → List (Parent A) → Option (Position A)
  prev_from null x n r ps = climb_right (node null x n r) ps
  prev_from (node ll lx ln lr) x n r ps = some (bigest ll lx ln lr (left_of x n r ∷ ps))

  unfoldable pub prev : Position A → Option (Position A)
  unfolding prev_from
  prev p = prev_from p.left p.item p.size p.right p.parents

  -- `First`, as a position.
  unfoldable pub start : Tree A → Option (Position A)
  start null = none
  start (node l x n r) = some (smallest l x n r [])

  -- A loop `for (it = First(); it; ++it)` of at most so many rounds, with the items that it meets.
  unfoldable pub walk : ℕ → Option (Position A) → List (Item A)
  walk zero o = []
  walk (suc rounds) none = []
  walk (suc rounds) (some p) = p.item ∷ walk rounds (next p)

  -- The items behind those below the parents, and before them.
  abbrev pub rest : List (Parent A) → List (Item A)
  rest [] = []
  rest (left_of x n r ∷ ps) = x ∷ (to_list r ++ rest ps)
  rest (right_of l x n ∷ ps) = rest ps

  abbrev pub front : List (Parent A) → List (Item A)
  front [] = []
  front (left_of x n r ∷ ps) = front ps
  front (right_of l x n ∷ ps) = front ps ++ (to_list l ++ (x ∷ []))

  -- The items behind a position, and before it.
  abbrev pub after : Position A → List (Item A)
  after p = to_list p.right ++ rest p.parents

  abbrev pub before : Position A → List (Item A)
  before p = front p.parents ++ to_list p.left

  -- All items of the tree that a position stands in.
  abbrev pub all_items : Position A → List (Item A)
  all_items p = before p ++ (p.item ∷ after p)

  -- Where a position stands, by the items behind and before it; `none` is the end.
  abbrev pub ahead : Option (Position A) → List (Item A)
  ahead none = []
  ahead (some p) = p.item ∷ after p

  abbrev pub behind : Option (Position A) → List (Item A)
  behind none = []
  behind (some p) = before p ++ (p.item ∷ [])

  ahead-smallest :
      (l : Tree A) (x : Item A) (n : ℕ) (r : Tree A) (ps : List (Parent A))
      → ahead (some (smallest l x n r ps)) ≡ to_list (node l x n r) ++ rest ps
  unfolding smallest
  ahead-smallest null x n r ps = refl
  ahead-smallest (node ll lx ln lr) x n r ps =
      ahead-smallest ll lx ln lr (left_of x n r ∷ ps)
      ∙ sym (append_assoc (to_list (node ll lx ln lr)) (x ∷ to_list r) (rest ps))

  behind-bigest :
      (l : Tree A) (x : Item A) (n : ℕ) (r : Tree A) (ps : List (Parent A))
      → behind (some (bigest l x n r ps)) ≡ front ps ++ to_list (node l x n r)
  unfolding bigest
  behind-bigest l x n null ps = append_assoc (front ps) (to_list l) (x ∷ [])
  behind-bigest l x n (node rl rx rn rr) ps =
      behind-bigest rl rx rn rr (right_of l x n ∷ ps) ∙ simp append_assoc

  ahead-climb_left : (t : Tree A) (ps : List (Parent A)) → ahead (climb_left t ps) ≡ rest ps
  unfolding climb_left
  ahead-climb_left t [] = refl
  ahead-climb_left t (left_of x n r ∷ ps) = refl
  ahead-climb_left t (right_of l x n ∷ ps) = ahead-climb_left (node l x n t) ps

  behind-climb_right : (t : Tree A) (ps : List (Parent A)) → behind (climb_right t ps) ≡ front ps
  unfolding climb_right
  behind-climb_right t [] = refl
  behind-climb_right t (right_of l x n ∷ ps) = append_assoc (front ps) (to_list l) (x ∷ [])
  behind-climb_right t (left_of x n r ∷ ps) = behind-climb_right (node t x n r) ps

  ahead-next_from :
      (l : Tree A) (x : Item A) (n : ℕ) (r : Tree A) (ps : List (Parent A))
      → ahead (next_from l x n r ps) ≡ to_list r ++ rest ps
  unfolding next_from
  ahead-next_from l x n null ps = ahead-climb_left (node l x n null) ps
  ahead-next_from l x n (node rl rx rn rr) ps = ahead-smallest rl rx rn rr (right_of l x n ∷ ps)

  behind-prev_from :
      (l : Tree A) (x : Item A) (n : ℕ) (r : Tree A) (ps : List (Parent A))
      → behind (prev_from l x n r ps) ≡ front ps ++ to_list l
  unfolding prev_from
  behind-prev_from null x n r ps =
      behind-climb_right (node null x n r) ps ∙ sym (append-nil (front ps))
  behind-prev_from (node ll lx ln lr) x n r ps = behind-bigest ll lx ln lr (left_of x n r ∷ ps)

  -- `++` moves to the first of the items behind a position, with the others behind it, and to the end
  -- where there is none; `--` moves to the last of those before it, likewise.
  pub next-prev : (p : Position A) → (ahead (next p) ≡ after p) × (behind (prev p) ≡ before p)
  unfolding next prev
  next-prev p = (
    ahead-next_from p.left p.item p.size p.right p.parents,
    behind-prev_from p.left p.item p.size p.right p.parents,
  )

  walk-ahead :
      (rounds : ℕ) (o : Option (Position A)) → length (ahead o) ≤ rounds → walk rounds o ≡ ahead o
  unfolding walk next
  walk-ahead zero none h = refl
  walk-ahead zero (some p) h = absurd (omega arith)
  walk-ahead (suc rounds) none h = refl
  walk-ahead (suc rounds) (some p) h =
      let e = ahead-next_from p.left p.item p.size p.right p.parents in
      ap (λ z. p.item ∷ z) (walk-ahead rounds (next p) (omega (arith, ap length e)) ∙ e)

  pub ahead-start : (t : Tree A) → ahead (start t) ≡ to_list t
  unfolding start
  ahead-start null = refl
  ahead-start (node l x n r) = ahead-smallest l x n r [] ∙ append-nil (to_list (node l x n r))

  -- The loop from `First` by `++` meets every item of the tree once, in order, and ends after as many
  -- rounds as there are items.
  pub walk-start :
      (t : Tree A) (rounds : ℕ) → length (to_list t) ≤ rounds → walk rounds (start t) ≡ to_list t
  unfolding start
  walk-start null rounds h = walk-ahead rounds none h
  walk-start (node l x n r) rounds h =
      let e = ahead-smallest l x n r [] ∙ append-nil (to_list (node l x n r)) in
      walk-ahead rounds (some (smallest l x n r [])) (omega (arith, ap length e)) ∙ e
