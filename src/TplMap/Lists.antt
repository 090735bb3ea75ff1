-- ===== src/TplMap/Lists.antt =====
-- Lists of items in the order of their keys: what a map is, as its user sees it.
use zephyr_server.Common.{
  ℕ, ◌+◌, ◌≤◌, ◌<◌, ◌≡◌, ◌≢◌, refl, Option, none, some, List, [], ◌∷◌, ◌++◌, ltb, ◌==◌,
  if◌then◌else◌, length, arith,
}
use zephyr_server.TplMap.{Item}

module _ {ℓ} {A : Type ℓ} where
  abbrev pub Below : ℕ → List (Item A) → Type 0
  Below k [] = Unit
  Below k (x ∷ xs) = (x.key < k) × Below k xs

  abbrev pub Above : ℕ → List (Item A) → Type 0
  Above k [] = Unit
  Above k (x ∷ xs) = (k < x.key) × Above k xs

  -- Keys grow, so no key stands twice.
  abbrev pub Sorted : List (Item A) → Type 0
  Sorted [] = Unit
  Sorted (x ∷ xs) = Above x.key xs × Sorted xs

  unfoldable pub find_item : List (Item A) → ℕ → Option (Item A)
  find_item [] k = none
  find_item (x ∷ xs) k = if x.key == k then some x else find_item xs k

  unfoldable pub insert_item : Item A → List (Item A) → List (Item A)
  insert_item new [] = new ∷ []
  insert_item new (x ∷ xs) = if ltb new.key x.key then new ∷ x ∷ xs else x ∷ insert_item new xs

  unfoldable pub erase_item : ℕ → List (Item A) → List (Item A)
  erase_item k [] = []
  erase_item k (x ∷ xs) = if x.key == k then xs else x ∷ erase_item k xs

  pub Above-trans : (k m : ℕ) (xs : List (Item A)) → k ≤ m → Above m xs → Above k xs
  Above-trans k m [] h a = tt
  Above-trans k m (x ∷ xs) h a = (omega arith, Above-trans k m xs h a.1)

  pub Below-trans : (k m : ℕ) (xs : List (Item A)) → k ≤ m → Below k xs → Below m xs
  Below-trans k m [] h b = tt
  Below-trans k m (x ∷ xs) h b = (omega arith, Below-trans k m xs h b.1)

  Above-append : (k : ℕ) (xs ys : List (Item A)) → Above k (xs ++ ys) → Above k xs × Above k ys
  Above-append k [] ys a = (tt, a)
  Above-append k (x ∷ xs) ys a = let (l, r) = Above-append k xs ys a.1 in ((a.0, l), r)

  append-Above : (k : ℕ) (xs ys : List (Item A)) → Above k xs → Above k ys → Above k (xs ++ ys)
  append-Above k [] ys a b = b
  append-Above k (x ∷ xs) ys a b = (a.0, append-Above k xs ys a.1 b)

  -- A sorted list around one of its items.
  pub record Around (l : List (Item A)) (k : ℕ) (r : List (Item A)) : Type 0 where
    pub below : Below k l
    pub above : Above k r
    pub sorted_left : Sorted l
    pub sorted_right : Sorted r

  pub Sorted-Around :
      (l : List (Item A)) (x : Item A) (r : List (Item A))
      → Sorted (l ++ (x ∷ r))
      → Around l x.key r
  Sorted-Around [] x r s = record { below = tt; above = s.0; sorted_left = tt; sorted_right = s.1 }
  Sorted-Around (y ∷ l) x r s =
      let a = Sorted-Around l x r s.1 in
      let (al, ar) = Above-append y.key l (x ∷ r) s.0 in
      record {
        below = (ar.0, a.below);
        above = a.above;
        sorted_left = (al, a.sorted_left);
        sorted_right = a.sorted_right;
      }

  pub Around-Sorted :
      (l : List (Item A)) (x : Item A) (r : List (Item A))
      → Around l x.key r
      → Sorted (l ++ (x ∷ r))
  Around-Sorted [] x r a = (a.above, a.sorted_right)
  Around-Sorted (y ∷ l) x r a = (
    append-Above y.key l (x ∷ r) a.sorted_left.0
        (a.below.0, Above-trans y.key x.key r (omega (arith, a.below.0)) a.above),
    Around-Sorted l x r (record {
      below = a.below.1;
      above = a.above;
      sorted_left = a.sorted_left.1;
      sorted_right = a.sorted_right;
    }),
  )

  -- Before a greater item the rest of the list plays no part.
  pub insert_item_left :
      (new : Item A) (l : List (Item A)) (x : Item A) (r : List (Item A))
      → new.key < x.key
      → insert_item new (l ++ (x ∷ r)) ≡ insert_item new l ++ (x ∷ r)
  unfolding insert_item
  insert_item_left new [] x r h = ground arith
  insert_item_left new (y ∷ l) x r h = ground (arith, insert_item_left new l x r h)

  pub insert_item_right :
      (new : Item A) (l : List (Item A)) (x : Item A) (r : List (Item A))
      → Below x.key l
      → x.key ≤ new.key
      → insert_item new (l ++ (x ∷ r)) ≡ l ++ (x ∷ insert_item new r)
  unfolding insert_item
  insert_item_right new [] x r b h = ground arith
  insert_item_right new (y ∷ l) x r b h = ground (arith, b.0, insert_item_right new l x r b.1 h)

  pub find-Above : (k : ℕ) (xs : List (Item A)) → Above k xs → find_item xs k ≡ none
  unfolding find_item
  find-Above k [] a = refl
  find-Above k (x ∷ xs) a = ground (arith, a.0, find-Above k xs a.1)

  pub find_item_left :
      (k : ℕ) (l : List (Item A)) (x : Item A) (r : List (Item A))
      → k < x.key
      → Above x.key r
      → find_item (l ++ (x ∷ r)) k ≡ find_item l k
  unfolding find_item
  find_item_left k [] x r h a =
      ground (arith, find-Above k r (Above-trans k x.key r (omega arith) a))
  find_item_left k (y ∷ l) x r h a = ground (arith, find_item_left k l x r h a)

  pub find_item_right :
      (k : ℕ) (l : List (Item A)) (x : Item A) (r : List (Item A))
      → x.key < k
      → Below x.key l
      → find_item (l ++ (x ∷ r)) k ≡ find_item r k
  unfolding find_item
  find_item_right k [] x r h b = ground arith
  find_item_right k (y ∷ l) x r h b = ground (arith, b.0, find_item_right k l x r h b.1)

  pub find_item_here :
      (l : List (Item A)) (x : Item A) (r : List (Item A))
      → Below x.key l
      → find_item (l ++ (x ∷ r)) x.key ≡ some x
  unfolding find_item
  find_item_here [] x r b = ground arith
  find_item_here (y ∷ l) x r b = ground (arith, b.0, find_item_here l x r b.1)

  pub erase_item_left :
      (k : ℕ) (l : List (Item A)) (x : Item A) (r : List (Item A))
      → k < x.key
      → find_item l k ≢ none
      → erase_item k (l ++ (x ∷ r)) ≡ erase_item k l ++ (x ∷ r)
  unfolding erase_item find_item
  erase_item_left k [] x r h f = absurd (f refl)
  erase_item_left k (y ∷ l) x r h f = ground (arith, erase_item_left k l x r h)

  pub erase_item_right :
      (k : ℕ) (l : List (Item A)) (x : Item A) (r : List (Item A))
      → x.key < k
      → Below x.key l
      → erase_item k (l ++ (x ∷ r)) ≡ l ++ (x ∷ erase_item k r)
  unfolding erase_item
  erase_item_right k [] x r h b = ground arith
  erase_item_right k (y ∷ l) x r h b = ground (arith, b.0, erase_item_right k l x r h b.1)

  pub erase_item_here :
      (l : List (Item A)) (x : Item A) (r : List (Item A))
      → Below x.key l
      → erase_item x.key (l ++ (x ∷ r)) ≡ l ++ r
  unfolding erase_item
  erase_item_here [] x r b = ground arith
  erase_item_here (y ∷ l) x r b = ground (arith, b.0, erase_item_here l x r b.1)

  -- No item has this address.
  abbrev pub Foreign : ℕ → List (Item A) → Type 0
  Foreign a [] = Unit
  Foreign a (x ∷ xs) = (x.addr ≢ a) × Foreign a xs

  pub Foreign-append :
      (a : ℕ) (xs ys : List (Item A)) → Foreign a (xs ++ ys) → Foreign a xs × Foreign a ys
  Foreign-append a [] ys f = (tt, f)
  Foreign-append a (x ∷ xs) ys f = let (l, r) = Foreign-append a xs ys f.1 in ((f.0, l), r)

  pub length-insert_item :
      (new : Item A) (xs : List (Item A)) → length (insert_item new xs) ≡ length xs + 1
  unfolding insert_item
  length-insert_item new [] = refl
  length-insert_item new (x ∷ xs) = ground (arith, length-insert_item new xs)

  pub length-erase_item :
      (k : ℕ) (xs : List (Item A))
      → find_item xs k ≢ none
      → length (erase_item k xs) + 1 ≡ length xs
  unfolding erase_item find_item
  length-erase_item k [] f = absurd (f refl)
  length-erase_item k (x ∷ xs) f = ground (arith, length-erase_item k xs)

  insert-Above :
      (new : Item A) (k : ℕ) (xs : List (Item A))
      → k < new.key
      → Above k xs
      → Above k (insert_item new xs)
  unfolding insert_item
  insert-Above new k [] h a = (h, tt)
  insert-Above new k (x ∷ xs) h a = ground (arith, insert-Above new k xs h a.1)

  -- A list stays in order when an item with a new key is put in its place.
  pub insert_item-Sorted :
      (new : Item A) (xs : List (Item A))
      → find_item xs new.key ≡ none
      → Sorted xs
      → Sorted (insert_item new xs)
  unfolding insert_item find_item
  insert_item-Sorted new [] f s = (tt, tt)
  insert_item-Sorted new (x ∷ xs) f s =
      ground
        (arith, insert_item-Sorted new xs, insert-Above new x.key xs, Above-trans new.key x.key xs)

  erase-Above : (k b : ℕ) (xs : List (Item A)) → Above b xs → Above b (erase_item k xs)
  unfolding erase_item
  erase-Above k b [] a = tt
  erase-Above k b (x ∷ xs) a = ground (arith, erase-Above k b xs)

  pub erase_item-Sorted : (k : ℕ) (xs : List (Item A)) → Sorted xs → Sorted (erase_item k xs)
  unfolding erase_item
  erase_item-Sorted k [] s = tt
  erase_item-Sorted k (x ∷ xs) s = ground (arith, erase_item-Sorted k xs, erase-Above k x.key xs)
