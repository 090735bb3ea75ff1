-- ===== src/TplList/Chains.antt =====
-- When the links of a heap chain a list of nodes.
use zephyr_server.Common.{
  ℕ, ◌≡◌, ◌≢◌, refl, sym, Option, none, some, List, [], ◌∷◌, ◌++◌, length, arith,
}
use zephyr_server.TplList.{Heap, set_prev, set_next, CList}

abbrev pub first_of : List ℕ → Option ℕ
first_of [] = none
first_of (x ∷ xs) = some x

abbrev pub last_from : ℕ → List ℕ → ℕ
last_from x [] = x
last_from x (y ∷ ys) = last_from y ys

abbrev pub last_of : List ℕ → Option ℕ
last_of [] = none
last_of (x ∷ xs) = some (last_from x xs)

unfoldable pub Away : ℕ → List ℕ → Type 0
Away p [] = Unit {0}
Away p (x ∷ xs) = (p ≢ x) × Away p xs

unfoldable pub Distinct : List ℕ → Type 0
unfolding Away
Distinct [] = Unit {0}
Distinct (x ∷ xs) = Away x xs × Distinct xs

-- The nodes follow one another, after the node `before`, and the last has none after it.
unfoldable pub Chain : Heap → Option ℕ → List ℕ → Type 0
Chain h before [] = Unit {0}
Chain h before (x ∷ xs) = ((h x).prev ≡ before) × ((h x).next ≡ first_of xs) × Chain h (some x) xs

-- The list holds exactly the nodes `xs`, in this order.
pub record Holds (l : CList) (h : Heap) (xs : List ℕ) : Type 0 where
  pub header_first : l.header ≡ first_of xs
  pub rear_last : l.rear ≡ last_of xs
  pub counted : l.size ≡ length xs
  pub chained : Chain h none xs
  pub distinct : Distinct xs

-- The node is in no list.
abbrev pub Alone : Heap → ℕ → Type 0
Alone h p = ((h p).prev ≡ none) × ((h p).next ≡ none)

pub Chain-set_prev :
    (p : ℕ) (v : Option ℕ) (h : Heap) (before : Option ℕ) (xs : List ℕ)
    → Away p xs
    → Chain h before xs
    → Chain (set_prev p v h) before xs
unfolding Chain Away
Chain-set_prev p v h before [] a c = c
Chain-set_prev p v h before (x ∷ xs) (n, a) (e, f, c) =
    (ground arith, ground arith, Chain-set_prev p v h (some x) xs a c)

pub Chain-set_next :
    (p : ℕ) (v : Option ℕ) (h : Heap) (before : Option ℕ) (xs : List ℕ)
    → Away p xs
    → Chain h before xs
    → Chain (set_next p v h) before xs
unfolding Chain Away
Chain-set_next p v h before [] a c = c
Chain-set_next p v h before (x ∷ xs) (n, a) (e, f, c) =
    (ground arith, ground arith, Chain-set_next p v h (some x) xs a c)

-- The first node gets another before it.
pub Chain-set_first :
    (v : Option ℕ) (h : Heap) (before : Option ℕ) (x : ℕ) (xs : List ℕ)
    → Away x xs
    → Chain h before (x ∷ xs)
    → Chain (set_prev x v h) v (x ∷ xs)
unfolding Chain
Chain-set_first v h before x xs a (e, f, c) =
    (ground arith, ground arith, Chain-set_prev x v h (some x) xs a c)

pub Away-last : (p x : ℕ) (xs : List ℕ) → Away p (x ∷ xs) → p ≢ last_from x xs
unfolding Away
Away-last p x [] (n, a) = n
Away-last p x (y ∷ ys) (n, a) = Away-last p y ys a

pub Away-split : (p : ℕ) (xs ys : List ℕ) → Away p (xs ++ ys) → Away p xs × Away p ys
unfolding Away
Away-split p [] ys a = (tt, a)
Away-split p (x ∷ xs) ys (n, a) = let (b, c) = Away-split p xs ys a in ((n, b), c)

Away-join : (p : ℕ) (xs ys : List ℕ) → Away p xs → Away p ys → Away p (xs ++ ys)
unfolding Away
Away-join p [] ys b c = c
Away-join p (x ∷ xs) ys (n, b) c = (n, Away-join p xs ys b c)

-- A list without double nodes is one without one of its nodes too, which is not among the others.
pub Distinct-remove :
    (x : ℕ) (xs ys : List ℕ) → Distinct (xs ++ (x ∷ ys)) → Away x (xs ++ ys) × Distinct (xs ++ ys)
unfolding Distinct Away
Distinct-remove x [] ys d = d
Distinct-remove x (w ∷ ws) ys (a, d) =
    let (b, (n, c)) = Away-split w ws (x ∷ ys) a in
    let (e, f) = Distinct-remove x ws ys d in (((λ q. n (sym q)), e), (Away-join w ws ys b c, f))

pub last_from-append : (w y : ℕ) (ws ys : List ℕ) → last_from w (ws ++ (y ∷ ys)) ≡ last_from y ys
last_from-append w y [] ys = refl
last_from-append w y (v ∷ vs) ys = last_from-append v y vs ys
