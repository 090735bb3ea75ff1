-- ===== src/TplMultiMap/Numbers.antt =====
-- `GetSiblingsNr`: the number of siblings that the first of them keeps in `m_nodeSize`.
use zephyr_server.Common.{
  ℕ, ◌+◌, ◌<◌, ◌^◌, ◌≡◌, refl, sym, ◌∙◌, inl, inr, some, some≢none, List, [], ◌∷◌, length, ◌==◌,
  Bool-cases, arith,
}
use zephyr_server.TplMap.{Item}
use zephyr_server.TplMultiMap.{
  Sibling, dec, get_siblings_nr, link, resize, promote, find_sibling, unlink, drop_sibling,
}

dec_lem : (n m : ℕ) → n ≡ m + 1 → n < 2 ^ 32 → dec n ≡ m
unfolding dec
dec_lem n m e h = omega arith

module _ {ℓ} {A : Type ℓ} where
  -- The first sibling keeps the number of them.
  abbrev pub Counted : List (Sibling A) → Type 0
  Counted ss = get_siblings_nr ss ≡ length ss

  length-unlink :
      (a : ℕ) (ss : List (Sibling A)) (u : Sibling A)
      → find_sibling a ss ≡ some u
      → length (unlink a ss) + 1 ≡ length ss
  unfolding unlink find_sibling
  length-unlink a [] u f = absurd (some≢none (sym f))
  length-unlink a (s ∷ ss) u f = ground (arith, length-unlink a ss u)

  resize-Counted : (n : ℕ) (ss : List (Sibling A)) → n ≡ length ss → Counted (resize n ss)
  unfolding resize get_siblings_nr
  resize-Counted n [] h = refl
  resize-Counted n (s ∷ ss) h = h

  link-Counted :
      (new : Item A) (at : ℕ) (ss : List (Sibling A))
      → Counted ss
      → length ss + 1 < 2 ^ 32
      → Counted (link new at ss)
  unfolding link get_siblings_nr
  link-Counted new at [] c h = refl
  link-Counted new at (s ∷ ss) c h = omega (arith, c)

  length-link :
      (new : Item A) (at : ℕ) (ss : List (Sibling A)) → length (link new at ss) ≡ length ss + 1
  unfolding link
  length-link new at [] = refl
  length-link new at (s ∷ ss) = omega arith

  length-resize : (n : ℕ) (ss : List (Sibling A)) → length (resize n ss) ≡ length ss
  unfolding resize
  length-resize n [] = refl
  length-resize n (s ∷ ss) = refl

  length-drop_sibling :
      (a : ℕ) (ss : List (Sibling A)) (u : Sibling A)
      → find_sibling a ss ≡ some u
      → length (drop_sibling a ss) + 1 ≡ length ss
  unfolding drop_sibling find_sibling
  length-drop_sibling a [] u f = absurd (some≢none (sym f))
  length-drop_sibling a (s ∷ ss) u f =
      ground (arith, length-unlink a ss u, length-resize (dec s.node_size) ss)

  drop_sibling-Counted :
      (a : ℕ) (ss : List (Sibling A)) (u : Sibling A)
      → Counted ss
      → length ss < 2 ^ 32
      → find_sibling a ss ≡ some u
      → Counted (drop_sibling a ss)
  unfolding drop_sibling find_sibling get_siblings_nr
  drop_sibling-Counted a [] u c h f = absurd (some≢none (sym f))
  drop_sibling-Counted a (s ∷ ss) u c h f = elim (Bool-cases (s.self.addr == a)) [
    | inl e ↦ rw e (
        resize-Counted (dec s.node_size) ss
          (dec_lem s.node_size (length ss) (omega (arith, c)) (omega (arith, c))))
    | inr e ↦
        let n = length-unlink a ss u (rw e at f) in
        rw e (
          dec_lem s.node_size (length (unlink a ss) + 1) (omega (arith, c, n)) (omega (arith, c))
          ∙ omega arith)
  ]

  -- Below the range of a `TUInt32`, `AddSiblings` keeps `GetSiblingsNr` the number of the siblings, and so
  -- does taking out any of them.
  pub siblings_nr :
      (new : Item A) (at : ℕ) (a : ℕ) (u : Sibling A) (ss : List (Sibling A))
      → get_siblings_nr ss ≡ length ss
      → length ss + 1 < 2 ^ 32
      → find_sibling a ss ≡ some u
      → (get_siblings_nr (link new at ss) ≡ length ss + 1)
        × (get_siblings_nr (drop_sibling a ss) + 1 ≡ length ss)
  siblings_nr new at a u ss c h f = (
    link-Counted new at ss c h ∙ length-link new at ss,
    omega (arith, drop_sibling-Counted a ss u c (omega arith) f, length-drop_sibling a ss u f),
  )

  -- Where the first of two or more siblings takes the place of their node, `GetSiblingsNr` answers one less
  -- than the `m_nodeSize` of that node, whatever their number: 2 ^ 32 - 1 for a leaf of the tree.
  pub promote_nr :
      (s u : Sibling A) (us : List (Sibling A)) (n : ℕ)
      → get_siblings_nr (promote s (u ∷ us) n).item.siblings ≡ dec n
  unfolding promote resize get_siblings_nr
  promote_nr s u us n = refl
