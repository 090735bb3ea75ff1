-- ===== src/TplMap/Raise.antt =====
-- A migration after its first step: what the new root and its parts hold.
use zephyr_server.Common.{
  ℕ, ◌+◌, ◌-◌, ◌/◌, ◌≤◌, ◌≡◌, refl, ap, ◌∙◌, inl, inr, Option, some, ◌∷◌, ◌++◌, append_assoc, leb,
  Bool-cases, arith,
}
use zephyr_server.TplMap.{
  Item, Tree, null, node, get_tree_size, raise_mid_left, raise_mid_right, raise_left, raise_right,
  migrate_left, migrate_right,
}
use zephyr_server.TplMap.Order.{
  to_list, count, Sized, IsNode, count_of_to_list, get_tree_size-Sized,
}

module _ {ℓ} {A : Type ℓ} where
  -- `o` is a new root `y`, with the old root `x` and its right child `r` on its right, that holds the
  -- same items in order, with right sizes.
  pub record RaisedLeft (l : Tree A) (x : Item A) (r : Tree A) (o : Option (Tree A)) : Type ℓ where
    pub left : Tree A
    pub root : Item A
    pub size : ℕ
    pub middle : Tree A
    pub old_size : ℕ
    pub made : o ≡ some (node left root size (node middle x old_size r))
    pub same :
        to_list left ++ (root ∷ (to_list middle ++ (x ∷ to_list r))) ≡ to_list l ++ (x ∷ to_list r)
    pub sized : Sized (node left root size (node middle x old_size r))

  -- `o` is a new root, with the old root and its left child on its left, likewise.
  pub record RaisedRight (l : Tree A) (x : Item A) (r : Tree A) (o : Option (Tree A)) : Type ℓ where
    pub middle : Tree A
    pub old_size : ℕ
    pub root : Item A
    pub size : ℕ
    pub right : Tree A
    pub made : o ≡ some (node (node l x old_size middle) root size right)
    pub same :
        (to_list l ++ (x ∷ to_list middle)) ++ (root ∷ to_list right) ≡ to_list l ++ (x ∷ to_list r)
    pub sized : Sized (node (node l x old_size middle) root size right)

  -- `o` is a tree with the items of `t`, in order, whose sizes are right.
  abbrev pub Rebuilt : Tree A → Option (Tree A) → Type ℓ
  Rebuilt t o = (u : Tree A) × (o ≡ some u) × (to_list u ≡ to_list t) × (Sized u × IsNode u)

  -- `f` rebuilds every tree of at most `k` nodes.
  abbrev pub Rebuilds : ℕ → (Tree A → Option (Tree A)) → Type ℓ
  Rebuilds k f = (t : Tree A) → IsNode t → Sized t → count t ≤ k → Rebuilt t (f t)

  raise_mid_left-Raised :
      (ll : Tree A) (lx : Item A) (ln : ℕ) (mid : Tree A) (x : Item A) (n : ℕ) (r : Tree A)
      → IsNode mid
      → Sized (node (node ll lx ln mid) x n r)
      → RaisedLeft (node ll lx ln mid) x r (raise_mid_left ll lx ln mid x n r)
  unfolding raise_mid_left
  raise_mid_left-Raised ll lx ln null x n r i s = absurd i
  raise_mid_left-Raised ll lx ln (node a y m null) x n r i s = record {
    left = node ll lx (ln - 1) a;
    root = y;
    size = n;
    middle = null;
    old_size = get_tree_size r;
    made = refl;
    same = simp append_assoc;
    sized = ground (arith, get_tree_size-Sized r);
  }
  raise_mid_left-Raised ll lx ln (node a y m (node bl bx bn br)) x n r i s = record {
    left = node ll lx (ln - (bn + 1 + 1)) a;
    root = y;
    size = n;
    middle = node bl bx bn br;
    old_size = get_tree_size r + (bn + 1);
    made = refl;
    same = simp append_assoc;
    sized = ground (arith, get_tree_size-Sized r);
  }

  raise_left-Raised :
      (f : Tree A → Option (Tree A)) (l : Tree A) (x : Item A) (n : ℕ) (r : Tree A)
      → IsNode l
      → Rebuilds (count l) f
      → Sized (node l x n r)
      → RaisedLeft l x r (raise_left f l x n r)
  unfolding raise_left
  raise_left-Raised f null x n r i g s = absurd i
  raise_left-Raised f (node ll lx ln null) x n r i g s = record {
    left = ll;
    root = lx;
    size = n;
    middle = null;
    old_size = get_tree_size r;
    made = refl;
    same = simp append_assoc;
    sized = ground (arith, get_tree_size-Sized r);
  }
  raise_left-Raised f (node ll lx ln (node a y m b)) x n r i g s =
      elim (Bool-cases (leb m (ln / 2))) [
        | inl light ↦ record {
          left = ll;
          root = lx;
          size = n;
          middle = node a y m b;
          old_size = get_tree_size r + (m + 1);
          made = rw light;
          same = simp append_assoc;
          sized = ground (arith, get_tree_size-Sized r);
        }
        | inr heavy ↦
            let (mid, found, list, good) = g (node a y m b) tt s.1.2 (omega arith) in
            let out =
              raise_mid_left-Raised ll lx ln mid x n r good.1
                (ground (arith, good.0, count_of_to_list mid (node a y m b) list)) in
            record {
              left = out.left;
              root = out.root;
              size = out.size;
              middle = out.middle;
              old_size = out.old_size;
              made = rw (heavy, found) out.made;
              same = out.same ∙ ap (λ z. (to_list ll ++ (lx ∷ z)) ++ (x ∷ to_list r)) list;
              sized = out.sized;
            }
      ]

  pub migrate_left-Raised :
      (f : Tree A → Option (Tree A)) (l : Tree A) (x : Item A) (n : ℕ) (r : Tree A)
      → IsNode l
      → Rebuilds (count l) f
      → Sized (node l x n r)
      → RaisedLeft l x r (migrate_left f l x n r)
  unfolding migrate_left
  migrate_left-Raised f l x n r i g s =
      let (l', found, list, good) = g l i s.1 (omega arith) in
      let c : count l' ≡ count l = count_of_to_list l' l list in
      let out =
        raise_left-Raised f l' x n r good.1 (λ t j z h. g t j z (omega arith))
          (ground (arith, good.0, c)) in
      record {
        left = out.left;
        root = out.root;
        size = out.size;
        middle = out.middle;
        old_size = out.old_size;
        made = rw found out.made;
        same = out.same ∙ ap (λ z. z ++ (x ∷ to_list r)) list;
        sized = out.sized;
      }

  raise_mid_right-Raised :
      (l : Tree A) (x : Item A) (n : ℕ) (mid : Tree A) (rx : Item A) (rn : ℕ) (rr : Tree A)
      → IsNode mid
      → Sized (node l x n (node mid rx rn rr))
      → RaisedRight l x (node mid rx rn rr) (raise_mid_right l x n mid rx rn rr)
  unfolding raise_mid_right
  raise_mid_right-Raised l x n null rx rn rr i s = absurd i
  raise_mid_right-Raised l x n (node null y m b) rx rn rr i s = record {
    middle = null;
    old_size = get_tree_size l;
    root = y;
    size = n;
    right = node b rx (rn - 1) rr;
    made = refl;
    same = simp append_assoc;
    sized = ground (arith, get_tree_size-Sized l);
  }
  raise_mid_right-Raised l x n (node (node al ax an ar) y m b) rx rn rr i s = record {
    middle = node al ax an ar;
    old_size = get_tree_size l + (an + 1);
    root = y;
    size = n;
    right = node b rx (rn - (an + 1 + 1)) rr;
    made = refl;
    same = simp append_assoc;
    sized = ground (arith, get_tree_size-Sized l);
  }

  raise_right-Raised :
      (f : Tree A → Option (Tree A)) (l : Tree A) (x : Item A) (n : ℕ) (r : Tree A)
      → IsNode r
      → Rebuilds (count r) f
      → Sized (node l x n r)
      → RaisedRight l x r (raise_right f l x n r)
  unfolding raise_right
  raise_right-Raised f l x n null i g s = absurd i
  raise_right-Raised f l x n (node null rx rn rr) i g s = record {
    middle = null;
    old_size = get_tree_size l;
    root = rx;
    size = n;
    right = rr;
    made = refl;
    same = simp append_assoc;
    sized = ground (arith, get_tree_size-Sized l);
  }
  raise_right-Raised f l x n (node (node a y m b) rx rn rr) i g s =
      elim (Bool-cases (leb m (rn / 2))) [
        | inl light ↦ record {
          middle = node a y m b;
          old_size = get_tree_size l + (m + 1);
          root = rx;
          size = n;
          right = rr;
          made = rw light;
          same = simp append_assoc;
          sized = ground (arith, get_tree_size-Sized l);
        }
        | inr heavy ↦
            let (mid, found, list, good) = g (node a y m b) tt s.2.1 (omega arith) in
            let out =
              raise_mid_right-Raised l x n mid rx rn rr good.1
                (ground (arith, good.0, count_of_to_list mid (node a y m b) list)) in
            record {
              middle = out.middle;
              old_size = out.old_size;
              root = out.root;
              size = out.size;
              right = out.right;
              made = rw (heavy, found) out.made;
              same = out.same ∙ ap (λ z. to_list l ++ (x ∷ (z ++ (rx ∷ to_list rr)))) list;
              sized = out.sized;
            }
      ]

  pub migrate_right-Raised :
      (f : Tree A → Option (Tree A)) (l : Tree A) (x : Item A) (n : ℕ) (r : Tree A)
      → IsNode r
      → Rebuilds (count r) f
      → Sized (node l x n r)
      → RaisedRight l x r (migrate_right f l x n r)
  unfolding migrate_right
  migrate_right-Raised f l x n r i g s =
      let (r', found, list, good) = g r i s.2 (omega arith) in
      let c : count r' ≡ count r = count_of_to_list r' r list in
      let out =
        raise_right-Raised f l x n r' good.1 (λ t j z h. g t j z (omega arith))
          (ground (arith, good.0, c)) in
      record {
        middle = out.middle;
        old_size = out.old_size;
        root = out.root;
        size = out.size;
        right = out.right;
        made = rw found out.made;
        same = out.same ∙ ap (λ z. to_list l ++ (x ∷ z)) list;
        sized = out.sized;
      }
