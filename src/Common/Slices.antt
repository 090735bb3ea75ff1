-- ===== src/Common/Slices.antt =====
-- Contiguous pieces of a buffer: what a pointer and a length denote, and what `memcpy` writes.
use Prim.Native.Nat.{ℕ, zero, suc, ◌+◌, ◌-◌, ◌≤◌}
use mathlib.Core.Path.{◌≡◌, refl, ap, ap₂, ◌∙◌, sym}
use mathlib.Core.List.{List, [], ◌∷◌, ◌++◌}
use native.Mathlib.Omega.{arith}
use zephyr_server.Common.Lists.{length, take, drop, length-take, length-drop}

module _ {ℓ} {A : Type ℓ} where
  -- The `n` cells from index `i` on.
  abbrev pub slice : List A → ℕ → ℕ → List A
  slice xs i n = take n (drop i xs)

  -- `memcpy(buf + i, ys, len)`; what would fall outside the buffer is dropped.
  unfoldable pub blit : List A → ℕ → List A → List A
  blit [] i ys = []
  blit (x ∷ xs) zero [] = x ∷ xs
  blit (x ∷ xs) zero (y ∷ ys) = y ∷ blit xs zero ys
  blit (x ∷ xs) (suc i) ys = x ∷ blit xs i ys

  pub length-blit : (xs : List A) (i : ℕ) (ys : List A) → length (blit xs i ys) ≡ length xs
  unfolding blit
  length-blit [] i ys = refl
  length-blit (x ∷ xs) zero [] = refl
  length-blit (x ∷ xs) zero (y ∷ ys) = ap suc (length-blit xs zero ys)
  length-blit (x ∷ xs) (suc i) ys = ap suc (length-blit xs i ys)

  pub length-slice : (xs : List A) (i n : ℕ) → i + n ≤ length xs → length (slice xs i n) ≡ n
  length-slice xs i n h = omega (arith, length-take n (drop i xs), length-drop i xs)

  -- Cells written are read back.
  pub slice-blit_self :
      (xs : List A) (i : ℕ) (ys : List A) (n : ℕ)
      → n ≡ length ys
      → i + n ≤ length xs
      → slice (blit xs i ys) i n ≡ ys
  unfolding blit
  slice-blit_self [] zero [] zero e h = refl
  slice-blit_self [] zero (y ∷ ys) zero e h = absurd (omega arith)
  slice-blit_self [] i ys (suc n) e h = absurd (omega arith)
  slice-blit_self [] (suc i) ys zero e h = absurd (omega arith)
  slice-blit_self (x ∷ xs) zero [] zero e h = refl
  slice-blit_self (x ∷ xs) zero [] (suc n) e h = absurd (omega arith)
  slice-blit_self (x ∷ xs) zero (y ∷ ys) zero e h = absurd (omega arith)
  slice-blit_self (x ∷ xs) zero (y ∷ ys) (suc n) e h =
      ap (λ zs. y ∷ zs) (slice-blit_self xs zero ys n (omega arith) (omega arith))
  slice-blit_self (x ∷ xs) (suc i) ys n e h = slice-blit_self xs i ys n e (omega arith)

  -- Cells before the written ones keep their values.
  pub slice-blit_before :
      (xs : List A) (i : ℕ) (ys : List A) (j n : ℕ)
      → j + n ≤ i
      → slice (blit xs i ys) j n ≡ slice xs j n
  unfolding blit
  slice-blit_before [] i ys j n h = refl
  slice-blit_before (x ∷ xs) zero ys zero zero h = refl
  slice-blit_before (x ∷ xs) zero ys zero (suc n) h = absurd (omega arith)
  slice-blit_before (x ∷ xs) zero ys (suc j) n h = absurd (omega arith)
  slice-blit_before (x ∷ xs) (suc i) ys zero zero h = refl
  slice-blit_before (x ∷ xs) (suc i) ys zero (suc n) h =
      ap (λ zs. x ∷ zs) (slice-blit_before xs i ys zero n (omega arith))
  slice-blit_before (x ∷ xs) (suc i) ys (suc j) n h = slice-blit_before xs i ys j n (omega arith)

  pub drop-blit : (xs ys : List A) (j : ℕ) → length ys ≤ j → drop j (blit xs zero ys) ≡ drop j xs
  unfolding blit
  drop-blit [] ys j h = refl
  drop-blit (x ∷ xs) [] j h = refl
  drop-blit (x ∷ xs) (y ∷ ys) zero h = absurd (omega arith)
  drop-blit (x ∷ xs) (y ∷ ys) (suc j) h = drop-blit xs ys j (omega arith)

  -- Cells after the written ones keep their values.
  pub slice-blit_after :
      (xs : List A) (i : ℕ) (ys : List A) (j n : ℕ)
      → i + length ys ≤ j
      → slice (blit xs i ys) j n ≡ slice xs j n
  unfolding blit
  slice-blit_after [] i ys j n h = refl
  slice-blit_after (x ∷ xs) zero ys j n h = ap (take n) (drop-blit (x ∷ xs) ys j (omega arith))
  slice-blit_after (x ∷ xs) (suc i) ys zero n h = absurd (omega arith)
  slice-blit_after (x ∷ xs) (suc i) ys (suc j) n h = slice-blit_after xs i ys j n (omega arith)

  take-add : (xs : List A) (a b c : ℕ) → a + b ≡ c → take c xs ≡ take a xs ++ take b (drop a xs)
  take-add xs zero b c e = let e' : c ≡ b = omega arith in ap (λ k. take k xs) e'
  take-add [] (suc a) zero zero e = refl
  take-add [] (suc a) zero (suc c) e = refl
  take-add [] (suc a) (suc b) zero e = refl
  take-add [] (suc a) (suc b) (suc c) e = refl
  take-add (x ∷ xs) (suc a) b zero e = absurd (omega arith)
  take-add (x ∷ xs) (suc a) b (suc c) e = ap (λ zs. x ∷ zs) (take-add xs a b c (omega arith))

  pub drop-add : (xs : List A) (i a j : ℕ) → i + a ≡ j → drop j xs ≡ drop a (drop i xs)
  drop-add xs zero a j e = let e' : j ≡ a = omega arith in ap (λ k. drop k xs) e'
  drop-add [] (suc i) zero zero e = refl
  drop-add [] (suc i) zero (suc j) e = refl
  drop-add [] (suc i) (suc a) zero e = refl
  drop-add [] (suc i) (suc a) (suc j) e = refl
  drop-add (x ∷ xs) (suc i) a zero e = absurd (omega arith)
  drop-add (x ∷ xs) (suc i) a (suc j) e = drop-add xs i a j (omega arith)

  -- Adjacent pieces join.
  pub slice-append :
      (xs : List A) (i a b j c : ℕ)
      → i + a ≡ j
      → a + b ≡ c
      → slice xs i c ≡ slice xs i a ++ slice xs j b
  slice-append xs i a b j c e h =
      take-add (drop i xs) a b c h
      ∙ ap (λ zs. slice xs i a ++ take b zs) (sym (drop-add xs i a j e))

  pub take-append_exact : (n : ℕ) (xs ys : List A) → n ≡ length xs → take n (xs ++ ys) ≡ xs
  take-append_exact zero [] ys e = refl
  take-append_exact zero (x ∷ xs) ys e = absurd (omega arith)
  take-append_exact (suc n) [] ys e = absurd (omega arith)
  take-append_exact (suc n) (x ∷ xs) ys e =
      ap (λ zs. x ∷ zs) (take-append_exact n xs ys (omega arith))

  pub drop-append_exact : (n : ℕ) (xs ys : List A) → n ≡ length xs → drop n (xs ++ ys) ≡ ys
  drop-append_exact zero [] ys e = refl
  drop-append_exact zero (x ∷ xs) ys e = absurd (omega arith)
  drop-append_exact (suc n) [] ys e = absurd (omega arith)
  drop-append_exact (suc n) (x ∷ xs) ys e = drop-append_exact n xs ys (omega arith)

  -- A list is cut at one place only.
  pub take-drop_of_append :
      (n : ℕ) (ws xs ys : List A)
      → ws ≡ xs ++ ys
      → n ≡ length xs
      → (take n ws ≡ xs) × (drop n ws ≡ ys)
  take-drop_of_append n ws xs ys e h =
      (ap (take n) e ∙ take-append_exact n xs ys h, ap (drop n) e ∙ drop-append_exact n xs ys h)

  -- Cells written behind a piece extend it.
  pub slice-blit_extend :
      (xs : List A) (i n j m : ℕ) (ys : List A)
      → i + n ≡ j
      → n + length ys ≡ m
      → j + length ys ≤ length xs
      → slice (blit xs j ys) i m ≡ slice xs i n ++ ys
  slice-blit_extend xs i n j m ys e h fits =
      slice-append (blit xs j ys) i n (length ys) j m e h
      ∙ ap₂ ◌++◌ (slice-blit_before xs j ys i n (omega arith))
          (slice-blit_self xs j ys (length ys) refl fits)

  take-take : (n m : ℕ) (xs : List A) → n ≤ m → take n (take m xs) ≡ take n xs
  take-take zero m xs h = refl
  take-take (suc n) zero xs h = absurd (omega arith)
  take-take (suc n) (suc m) [] h = refl
  take-take (suc n) (suc m) (x ∷ xs) h = ap (λ zs. x ∷ zs) (take-take n m xs (omega arith))

  pub take-slice : (xs : List A) (i n m : ℕ) → n ≤ m → take n (slice xs i m) ≡ slice xs i n
  take-slice xs i n m h = take-take n m (drop i xs) h

  -- A prefix that goes over the end of the first list.
  pub take-append_over :
      (n : ℕ) (xs ys : List A) → length xs ≤ n → take n (xs ++ ys) ≡ xs ++ take (n - length xs) ys
  take-append_over n [] ys h = ap (λ k. take k ys) (omega arith)
  take-append_over zero (x ∷ xs) ys h = absurd (omega arith)
  take-append_over (suc n) (x ∷ xs) ys h =
      ap (λ zs. x ∷ zs)
        (take-append_over n xs ys (omega arith) ∙ ap (λ k. xs ++ take k ys) (omega arith))

  -- A prefix that ends in the first list.
  pub take-append_within : (n : ℕ) (xs ys : List A) → n ≤ length xs → take n (xs ++ ys) ≡ take n xs
  take-append_within zero xs ys h = refl
  take-append_within (suc n) [] ys h = absurd (omega arith)
  take-append_within (suc n) (x ∷ xs) ys h =
      ap (λ zs. x ∷ zs) (take-append_within n xs ys (omega arith))

  take-nil : (k : ℕ) → take {A = A} k [] ≡ []
  take-nil zero = refl
  take-nil (suc k) = refl

  drop-take : (j n : ℕ) (xs : List A) → drop j (take n xs) ≡ take (n - j) (drop j xs)
  drop-take zero n xs = ap (λ k. take k xs) (omega arith)
  drop-take (suc j) zero [] = sym (take-nil (zero - suc j))
  drop-take (suc j) zero (x ∷ xs) =
      let z : zero - suc j ≡ zero = omega arith in sym (ap (λ k. take k (drop j xs)) z)
  drop-take (suc j) (suc n) [] = sym (take-nil (suc n - suc j))
  drop-take (suc j) (suc n) (x ∷ xs) = drop-take j n xs ∙ ap (λ k. take k (drop j xs)) (omega arith)

  -- A piece of a piece.
  pub slice-slice :
      (xs : List A) (i n j k m : ℕ)
      → j + k ≤ n
      → i + j ≡ m
      → slice (slice xs i n) j k ≡ slice xs m k
  slice-slice xs i n j k m h e =
      ap (take k) (drop-take j n (drop i xs))
      ∙ take-take k (n - j) (drop j (drop i xs)) (omega arith)
      ∙ ap (take k) (sym (drop-add xs i j m e))

  -- A piece behind the first list.
  pub slice-append_behind :
      (xs ys : List A) (i n j : ℕ) → length xs + j ≡ i → slice (xs ++ ys) i n ≡ slice ys j n
  slice-append_behind [] ys i n j e = ap (λ k. slice ys k n) (omega arith)
  slice-append_behind (x ∷ xs) ys zero n j e = absurd (omega arith)
  slice-append_behind (x ∷ xs) ys (suc i) n j e = slice-append_behind xs ys i n j (omega arith)

  -- All of a list.
  pub take-drop_all : (n : ℕ) (xs : List A) → length xs ≡ n → (take n xs ≡ xs) × (drop n xs ≡ [])
  take-drop_all zero [] e = (refl, refl)
  take-drop_all zero (x ∷ xs) e = absurd (omega arith)
  take-drop_all (suc n) [] e = (refl, refl)
  take-drop_all (suc n) (x ∷ xs) e =
      let (t, d) = take-drop_all n xs (omega arith) in (ap (λ zs. x ∷ zs) t, d)
