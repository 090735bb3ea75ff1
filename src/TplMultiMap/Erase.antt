-- ===== src/TplMultiMap/Erase.antt =====
-- Taking an item out of the list: what the node of its key becomes, and what stays true.
use zephyr_server.Common.{
  ℕ, ◌<◌, ◌≡◌, ◌≢◌, ◌⊎◌, refl, sym, ap, ◌∙◌, subst, inl, inr, some, some≢none, List, [], ◌∷◌, ◌++◌,
  ◌==◌, Bool-cases, arith,
}
use mathlib.Core.Option.{some-injective}
use zephyr_server.TplMap.{Item}
use zephyr_server.TplMap.Lists.{Sorted, Foreign, find_item, erase_item}
use zephyr_server.TplMultiMap.{Sibling, Group, find_sibling, unlink, hold, head_of}
use zephyr_server.TplMultiMap.Entries.{
  selves, entries, erase_entry, Keyed, Proper, erase_entry-skip, alter_item, before_found,
}
use zephyr_server.TplMultiMap.Add.{Held, Distinct}

module _ {ℓ} {A : Type ℓ} where
  -- The items of a node of the tree.
  abbrev pub group : Item (Group A) → List (Item A)
  group x = head_of x ∷ selves x.item.siblings

  -- The node `x` becomes `f x` where one of its items is taken out.
  pub entries-alter_item :
      (p : Item A) (f : Item (Group A) → Item (Group A)) (xs : List (Item (Group A)))
      (x : Item (Group A))
      → Sorted xs
      → Proper xs
      → find_item xs p.key ≡ some x
      → ((rest : List (Item A)) → erase_entry p (group x ++ rest) ≡ group (f x) ++ rest)
      → entries (alter_item p.key f xs) ≡ erase_entry p (entries xs)
  unfolding find_item alter_item head_of
  entries-alter_item p f [] x s h e g = absurd (some≢none (sym e))
  entries-alter_item p f (y ∷ xs) x s h e g = elim (Bool-cases (y.key == p.key)) [
    | inl q ↦
        let same : y ≡ x = some-injective y x (rw q at e) in
        rw q (
          subst (λ z. group (f z) ++ entries xs ≡ erase_entry p (group z ++ entries xs)) (sym same)
            (sym (g (entries xs))))
    | inr q ↦
        let e' : find_item xs p.key ≡ some x = rw q at e in
        let lt : y.key < p.key = before_found y.key p.key xs s.0 (λ n. some≢none (sym e' ∙ n)) in
        rw q (
          ap (λ z. group y ++ z) (entries-alter_item p f xs x s.1 h.1 e' g)
          ∙ sym (erase_entry-skip p y.key (group y) (entries xs) (refl, h.0) lt))
  ]

  -- Likewise where it was the node's only item.
  pub entries-erase_item :
      (p : Item A) (xs : List (Item (Group A))) (x : Item (Group A))
      → Sorted xs
      → Proper xs
      → find_item xs p.key ≡ some x
      → ((rest : List (Item A)) → erase_entry p (group x ++ rest) ≡ rest)
      → entries (erase_item p.key xs) ≡ erase_entry p (entries xs)
  unfolding find_item erase_item head_of
  entries-erase_item p [] x s h e g = absurd (some≢none (sym e))
  entries-erase_item p (y ∷ xs) x s h e g = elim (Bool-cases (y.key == p.key)) [
    | inl q ↦
        let same : y ≡ x = some-injective y x (rw q at e) in
        rw q (
          subst (λ z. entries xs ≡ erase_entry p (group z ++ entries xs)) (sym same)
            (sym (g (entries xs))))
    | inr q ↦
        let e' : find_item xs p.key ≡ some x = rw q at e in
        let lt : y.key < p.key = before_found y.key p.key xs s.0 (λ n. some≢none (sym e' ∙ n)) in
        rw q (
          ap (λ z. group y ++ z) (entries-erase_item p xs x s.1 h.1 e' g)
          ∙ sym (erase_entry-skip p y.key (group y) (entries xs) (refl, h.0) lt))
  ]

  -- What is found has the key.
  pub key-find_item :
      (key : ℕ) (xs : List (Item (Group A))) (x : Item (Group A))
      → Proper xs
      → find_item xs key ≡ some x
      → (x.key ≡ key) × Keyed x.key (selves x.item.siblings)
  unfolding find_item
  key-find_item key [] x h e = absurd (some≢none (sym e))
  key-find_item key (y ∷ xs) x h e = elim (Bool-cases (y.key == key)) [
    | inl q ↦
        let same : y ≡ x = some-injective y x (rw q at e) in
        subst (λ z. (z.key ≡ key) × Keyed z.key (selves z.item.siblings)) same (ground arith, h.0)
    | inr q ↦ key-find_item key xs x h.1 (rw q at e)
  ]

  pub alter_item-Proper :
      (key : ℕ) (f : Item (Group A) → Item (Group A)) (xs : List (Item (Group A)))
      (x : Item (Group A))
      → Proper xs
      → find_item xs key ≡ some x
      → Keyed (f x).key (selves (f x).item.siblings)
      → Proper (alter_item key f xs)
  unfolding find_item alter_item
  alter_item-Proper key f [] x h e g = tt
  alter_item-Proper key f (y ∷ xs) x h e g = elim (Bool-cases (y.key == key)) [
    | inl q ↦
        let same : y ≡ x = some-injective y x (rw q at e) in
        rw q (subst (λ z. Keyed (f z).key (selves (f z).item.siblings)) (sym same) g, h.1)
    | inr q ↦ rw q (h.0, alter_item-Proper key f xs x h.1 (rw q at e) g)
  ]

  pub erase_item-Proper :
      (key : ℕ) (xs : List (Item (Group A))) → Proper xs → Proper (erase_item key xs)
  unfolding erase_item
  erase_item-Proper key [] h = tt
  erase_item-Proper key (x ∷ xs) h = ground (arith, erase_item-Proper key xs h.1)

  pub unlink-Keyed :
      (k a : ℕ) (ss : List (Sibling A)) → Keyed k (selves ss) → Keyed k (selves (unlink a ss))
  unfolding unlink
  unlink-Keyed k a [] h = tt
  unlink-Keyed k a (s ∷ ss) h = ground (arith, unlink-Keyed k a ss h.1)

  -- An item with this one's key and address is in the list.
  abbrev pub Has : Item A → List (Item A) → Type 0
  Has p [] = ⊥
  Has p (x ∷ xs) = ((x.key ≡ p.key) × (x.addr ≡ p.addr)) ⊎ Has p xs

  Has-front : (p : Item A) (ys xs : List (Item A)) → Has p ys → Has p (ys ++ xs)
  Has-front p [] xs h = absurd h
  Has-front p (y ∷ ys) xs (inl e) = inl e
  Has-front p (y ∷ ys) xs (inr h) = inr (Has-front p ys xs h)

  Has-back : (p : Item A) (ys xs : List (Item A)) → Has p xs → Has p (ys ++ xs)
  Has-back p [] xs h = h
  Has-back p (y ∷ ys) xs h = inr (Has-back p ys xs h)

  pub Has-entries :
      (p : Item A) (xs : List (Item (Group A))) (x : Item (Group A))
      → find_item xs p.key ≡ some x
      → Has p (group x)
      → Has p (entries xs)
  unfolding find_item
  Has-entries p [] x e h = absurd (some≢none (sym e))
  Has-entries p (y ∷ xs) x e h = elim (Bool-cases (y.key == p.key)) [
    | inl q ↦
        let same : y ≡ x = some-injective y x (rw q at e) in
        Has-front p (group y) (entries xs) (subst (λ z. Has p (group z)) (sym same) h)
    | inr q ↦ Has-back p (group y) (entries xs) (Has-entries p xs x (rw q at e) h)
  ]

  pub Has-selves :
      (p : Item A) (ss : List (Sibling A)) (s : Sibling A)
      → Keyed p.key (selves ss)
      → find_sibling p.addr ss ≡ some s
      → Has p (selves ss)
  unfolding find_sibling
  Has-selves p [] s k e = absurd (some≢none (sym e))
  Has-selves p (u ∷ ss) s k e = elim (Bool-cases (u.self.addr == p.addr)) [
    | inl q ↦ inl (k.0, ground arith)
    | inr q ↦ inr (Has-selves p ss s k.1 (rw q at e))
  ]

  pub Has-Held :
      (p : Item A) (this : ℕ) (h : ℕ → ℕ) (xs : List (Item A))
      → Has p xs
      → Held this h xs
      → h p.addr ≡ this
  Has-Held p this h [] n k = absurd n
  Has-Held p this h (x ∷ xs) (inl e) k = ap h (sym e.1) ∙ k.0
  Has-Held p this h (x ∷ xs) (inr n) k = Has-Held p this h xs n k.1

  erase_entry-Foreign :
      (p : Item A) (a : ℕ) (xs : List (Item A)) → Foreign a xs → Foreign a (erase_entry p xs)
  unfolding erase_entry
  erase_entry-Foreign p a [] f = tt
  erase_entry-Foreign p a (x ∷ xs) f = ground (arith, f.0, erase_entry-Foreign p a xs f.1)

  pub erase_entry-Distinct :
      (p : Item A) (xs : List (Item A)) → Distinct xs → Distinct (erase_entry p xs)
  unfolding erase_entry
  erase_entry-Distinct p [] d = tt
  erase_entry-Distinct p (x ∷ xs) d =
      ground (arith, erase_entry-Distinct p xs d.1, erase_entry-Foreign p x.addr xs d.0)

  Foreign-Has : (p : Item A) (xs : List (Item A)) → Foreign p.addr xs → Has p xs → ⊥
  Foreign-Has p [] f h = h
  Foreign-Has p (x ∷ xs) f (inl e) = f.0 e.1
  Foreign-Has p (x ∷ xs) f (inr h) = Foreign-Has p xs f.1 h

  -- The item that is taken out is gone.
  pub erase_entry-gone :
      (p : Item A) (xs : List (Item A)) → Distinct xs → Has p xs → Foreign p.addr (erase_entry p xs)
  unfolding erase_entry
  erase_entry-gone p [] d h = tt
  erase_entry-gone p (x ∷ xs) d (inl (k, a)) =
      let f : Foreign p.addr xs = subst (λ z. Foreign z xs) a d.0 in ground (arith, f, k, a)
  erase_entry-gone p (x ∷ xs) d (inr h) =
      let other : x.addr ≢ p.addr = λ e. Foreign-Has p xs (subst (λ z. Foreign z xs) e d.0) h in
      let g = erase_entry-gone p xs d.1 h in ground (arith, other, g)

  hold-Held :
      (this a : ℕ) (h : ℕ → ℕ) (xs : List (Item A))
      → Foreign a xs
      → Held this h xs
      → Held this (hold a 0 h) xs
  unfolding hold
  hold-Held this a h [] f k = tt
  hold-Held this a h (x ∷ xs) f k = (ground (arith, f.0, k.0), hold-Held this a h xs f.1 k.1)

  erase_entry-Held :
      (p : Item A) (this : ℕ) (h : ℕ → ℕ) (xs : List (Item A))
      → Held this h xs
      → Held this h (erase_entry p xs)
  unfolding erase_entry
  erase_entry-Held p this h [] k = tt
  erase_entry-Held p this h (x ∷ xs) k = ground (arith, k.0, erase_entry-Held p this h xs k.1)

  -- The others are held as before.
  pub erase_entry-Held_others :
      (p : Item A) (this : ℕ) (h : ℕ → ℕ) (xs : List (Item A))
      → Distinct xs
      → Has p xs
      → Held this h xs
      → Held this (hold p.addr 0 h) (erase_entry p xs)
  erase_entry-Held_others p this h xs d n k =
      hold-Held this p.addr h (erase_entry p xs) (erase_entry-gone p xs d n)
        (erase_entry-Held p this h xs k)
