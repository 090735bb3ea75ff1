-- ===== src/TplMap/RemoveHere.antt =====
-- `ReleaseNode` of the node itself, by its children: the least or the greatest item of one takes its
-- place.
use zephyr_server.Common.{
  ℕ, ◌+◌, ◌≤◌, ◌≡◌, ◌≢◌, refl, sym, ap, ◌∙◌, subst, inl, inr, Option, none, some, List, [], ◌∷◌,
  ◌++◌, append-nil, append_assoc, length, length-append, some≢none, le_trans, ltb, ◌==◌,
  if◌then◌else◌, Bool-cases, arith,
}
use zephyr_server.TplMap.{Item, Tree, null, node, get_smallest, get_bigest}
use zephyr_server.TplMap.Update.{release_here}
use zephyr_server.TplMap.Order.{to_list, count, Sized, count-to_list}
use zephyr_server.TplMap.Lists.{
  Sorted, Around, Sorted-Around, find_item, erase_item, find_item_here, erase_item_here,
  length-erase_item,
}
use zephyr_server.TplMap.Budget.{budget, budget_mono, budget-add_one}

module _ {ℓ} {A : Type ℓ} where
  -- The sizes are right and the items in order.
  pub record Keeps (t : Tree A) : Type 0 where
    pub sized : Sized t
    pub sorted : Sorted (to_list t)

  abbrev pub Present : ℕ → Tree A → Type ℓ
  Present key t = find_item (to_list t) key ≢ none

  -- `o` is `t` without the item of this key, with right sizes.
  abbrev pub Released : ℕ → Tree A → Option (Tree A) → Type ℓ
  Released key t o =
      (u : Tree A) × (o ≡ some u) × (to_list u ≡ erase_item key (to_list t)) × Sized u

  -- The nodes on the side of the root where the key is not.
  abbrev pub other : ℕ → Tree A → Item A → Tree A → ℕ
  other key l x r = if x.key == key then 0 else if ltb key x.key then count r else count l

  abbrev pub Releases : ℕ → (ℕ → Tree A → Option (Tree A)) → Type ℓ
  Releases fuel f =
      (key : ℕ) (l : Tree A) (x : Item A) (n : ℕ) (r : Tree A)
      → Keeps (node l x n r)
      → Present key (node l x n r)
      → budget (count l + count r) + 1 + other key l x r ≤ fuel
      → Released key (node l x n r) (f key (node l x n r))

  other-le : (key : ℕ) (l : Tree A) (x : Item A) (r : Tree A) → other key l x r ≤ count l + count r
  other-le key l x r = ground arith

  -- A child has fuel for all its migrations.
  pub release_child :
      (fuel : ℕ) (f : ℕ → Tree A → Option (Tree A)) (key : ℕ) (t : Tree A)
      → Releases fuel f
      → Keeps t
      → Present key t
      → budget (count t) ≤ fuel
      → Released key t (f key t)
  unfolding find_item
  release_child fuel f key null g k p h = absurd (p refl)
  release_child fuel f key (node l x n r) g k p h =
      g key l x n r k p (omega (arith, budget-add_one (count l + count r), other-le key l x r))

  pub Keeps-Around :
      (l : Tree A) (x : Item A) (n : ℕ) (r : Tree A)
      → Keeps (node l x n r)
      → Keeps l × Keeps r × Around (to_list l) x.key (to_list r)
  Keeps-Around l x n r s =
      let a = Sorted-Around (to_list l) x (to_list r) s.sorted in
      (
        record { sized = s.sized.1; sorted = a.sorted_left },
        record { sized = s.sized.2; sorted = a.sorted_right },
        a,
      )

  pub count-Released :
      (key : ℕ) (t u : Tree A)
      → Present key t
      → to_list u ≡ erase_item key (to_list t)
      → count u + 1 ≡ count t
  count-Released key t u p e =
      omega
        (arith, ap length e, length-erase_item key (to_list t) p, count-to_list t, count-to_list u)

  pub get_smallest_first :
      (l : Tree A) (x : Item A) (n : ℕ) (r : Tree A)
      → (rest : List (Item A)) × (to_list (node l x n r) ≡ get_smallest l x ∷ rest)
  unfolding get_smallest
  get_smallest_first null x n r = (to_list r, refl)
  get_smallest_first (node ll lx ln lr) x n r =
      let (rest, e) = get_smallest_first ll lx ln lr in
      (rest ++ (x ∷ to_list r), ap (λ z. z ++ (x ∷ to_list r)) e)

  pub get_bigest_last :
      (l : Tree A) (x : Item A) (n : ℕ) (r : Tree A)
      → (rest : List (Item A)) × (to_list (node l x n r) ≡ rest ++ (get_bigest x r ∷ []))
  unfolding get_bigest
  get_bigest_last l x n null = (to_list l, refl)
  get_bigest_last l x n (node rl rx rn rr) =
      let (rest, e) = get_bigest_last rl rx rn rr in
      (
        to_list l ++ (x ∷ rest),
        ap (λ z. to_list l ++ (x ∷ z)) e ∙ sym (append_assoc (to_list l) (x ∷ rest) _),
      )

  -- The smallest item of a tree can be released, and put back in front.
  release-smallest :
      (fuel : ℕ) (f : ℕ → Tree A → Option (Tree A)) (l : Tree A) (x : Item A) (n : ℕ) (r : Tree A)
      → Releases fuel f
      → Keeps (node l x n r)
      → budget (count l + count r + 1) ≤ fuel
      → let y = get_smallest l x in
        (u : Tree A) × (f y.key (node l x n r) ≡ some u)
        × (to_list (node l x n r) ≡ y ∷ to_list u)
        × Sized u
  release-smallest fuel f l x n r g k h =
      let (rest, e) = get_smallest_first l x n r in
      let y = get_smallest l x in
      let (u, made, list, sized) =
        release_child fuel f y.key (node l x n r) g k
          (λ q.
            some≢none (sym (find_item_here [] y rest tt) ∙ sym (ap (λ z. find_item z y.key) e) ∙ q))
          h in
      (
        u,
        made,
        e ∙ ap (λ z. y ∷ z) (sym (list ∙ ap (erase_item y.key) e ∙ erase_item_here [] y rest tt)),
        sized,
      )

  release-bigest :
      (fuel : ℕ) (f : ℕ → Tree A → Option (Tree A)) (l : Tree A) (x : Item A) (n : ℕ) (r : Tree A)
      → Releases fuel f
      → Keeps (node l x n r)
      → budget (count l + count r + 1) ≤ fuel
      → let y = get_bigest x r in
        (u : Tree A) × (f y.key (node l x n r) ≡ some u)
        × (to_list (node l x n r) ≡ to_list u ++ (y ∷ []))
        × Sized u
  release-bigest fuel f l x n r g k h =
      let (rest, e) = get_bigest_last l x n r in
      let y = get_bigest x r in
      let a : Around rest y.key [] = Sorted-Around rest y [] (subst Sorted e k.sorted) in
      let (u, made, list, sized) =
        release_child fuel f y.key (node l x n r) g k
          (λ q.
            some≢none
              (sym (find_item_here rest y [] a.below) ∙ sym (ap (λ z. find_item z y.key) e) ∙ q))
          h in
      (
        u,
        made,
        e
            ∙ ap (λ z. z ++ (y ∷ []))
                (sym (
                  list
                  ∙ ap (erase_item y.key) e
                  ∙ erase_item_here rest y [] a.below
                  ∙ append-nil rest)),
        sized,
      )

  pub release_here-Released :
      (fuel : ℕ) (f : ℕ → Tree A → Option (Tree A)) (l : Tree A) (x : Item A) (n : ℕ) (r : Tree A)
      → Releases fuel f
      → Keeps (node l x n r)
      → budget (count l + count r) ≤ fuel
      → Released x.key (node l x n r) (release_here f l n r)
  unfolding release_here
  release_here-Released fuel f null x n r g k h =
      (r, refl, sym (erase_item_here [] x (to_list r) tt), k.sized.2)
  release_here-Released fuel f (node ll lx ln lr) x n null g k h =
      let l = node ll lx ln lr in
      let (_, _, a) = Keeps-Around l x n null k in
      (l, refl, sym (erase_item_here (to_list l) x [] a.below ∙ append-nil (to_list l)), k.sized.1)
  release_here-Released fuel f (node ll lx ln lr) x n (node rl rx rn rr) g k h =
      let l = node ll lx ln lr in
      let r = node rl rx rn rr in
      let (kl, kr, a) = Keeps-Around l x n r k in
      let gone = erase_item_here (to_list l) x (to_list r) a.below in
      elim (Bool-cases (ltb ln rn)) [
        | inl e ↦
            let (u, made, list, sized) =
              release-smallest fuel f rl rx rn rr g kr
                (le_trans (budget_mono (count r) (count l + count r) (omega arith)) h) in
            rw (e, made)
              (
                _,
                refl,
                ap (λ z. to_list l ++ z) (sym list) ∙ sym gone,
                ground (arith, k.sized, ap length list, count-to_list r, count-to_list u),
              )
        | inr e ↦
            let (u, made, list, sized) =
              release-bigest fuel f ll lx ln lr g kl
                (le_trans (budget_mono (count l) (count l + count r) (omega arith)) h) in
            let y = get_bigest lx lr in
            rw (e, made)
              (
                _,
                refl,
                sym (append_assoc (to_list u) (y ∷ []) (to_list r))
                    ∙ ap (λ z. z ++ to_list r) (sym list)
                    ∙ sym gone,
                ground (
                  arith,
                  k.sized,
                  ap length list,
                  length-append (to_list u) (y ∷ []),
                  count-to_list l,
                  count-to_list u,
                ),
              )
      ]
