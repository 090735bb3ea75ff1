-- ===== src/TplPool/Items.antt =====
-- What a pool is compared with: the items that are free, in order, and those that are handed out.
use zephyr_server.Common.{
  ℕ, zero, suc, ◌+◌, ◌≤◌, ◌<◌, ◌≡◌, refl, inl, inr, Bool, true, false, Option, none, some, List, [],
  ◌∷◌, ◌++◌, ◌==◌, ==_iff, if◌then◌else◌, ◌&&◌, ltb, leb, length, length-append, Bool-cases, arith,
}
use zephyr_server.TplList.Chains.{Away}

abbrev pub count : ℕ → List ℕ → ℕ
count a [] = 0
count a (x ∷ xs) = (if a == x then 1 else 0) + count a xs

-- `n` items from `at` on.
abbrev pub range : ℕ → ℕ → List ℕ
range at zero = []
range at (suc n) = at ∷ range (suc at) n

abbrev pub remove : ℕ → List ℕ → List ℕ
remove a [] = []
remove a (x ∷ xs) = let rest = x ∷ remove a xs in if a == x then xs else rest

pub data Call : Type 0 where
  get : Call
  release : ℕ → Call

-- A free item that is got is the first one; one that is released is put before the others, or behind
-- them where `at_end`.
abbrev pub put : Bool → ℕ → List ℕ → List ℕ
put at_end r xs = if at_end then xs ++ (r ∷ []) else (r ∷ xs)

abbrev pub perform_items : Bool → Call → List ℕ → List ℕ → Option ℕ × List ℕ × List ℕ
perform_items at_end get [] us = (none, [], us)
perform_items at_end get (x ∷ xs) us = (some x, xs, x ∷ us)
perform_items at_end (release r) xs us = (none, put at_end r xs, remove r us)

abbrev pub run_items : Bool → List Call → List ℕ → List ℕ → List (Option ℕ) × List ℕ × List ℕ
run_items at_end [] xs us = ([], xs, us)
run_items at_end (c ∷ cs) xs us =
    let (o, xs', us') = perform_items at_end c xs us in
    let (os, xs'', us'') = run_items at_end cs xs' us' in (o ∷ os, xs'', us'')

-- Only items that are handed out are released.
abbrev pub Fits : Call → List ℕ → Type 0
Fits get us = Unit {0}
Fits (release r) us = 0 < count r us

unfoldable pub Allowed : Bool → List Call → List ℕ → List ℕ → Type 0
Allowed at_end [] xs us = Unit {0}
Allowed at_end (c ∷ cs) xs us =
    let (o, xs', us') = perform_items at_end c xs us in Fits c us × Allowed at_end cs xs' us'

pub count-append_one :
    (r a : ℕ) (free : List ℕ)
    → count a (free ++ (r ∷ [])) ≡ (if a == r then 1 else 0) + count a free
count-append_one r a [] = refl
count-append_one r a (f ∷ free) = let behind = count-append_one r a free in omega arith

pub count-remove :
    (a r : ℕ) (us : List ℕ)
    → 0 < count r us
    → count a us ≡ (if a == r then 1 else 0) + count a (remove r us)
count-remove a r [] n = omega arith
count-remove a r (x ∷ xs) n = elim (Bool-cases (r == x)) [
  | inl e ↦ ground (arith, (==_iff r x).0 e)
  | inr e ↦
      let i : count a xs ≡ (if a == r then 1 else 0) + count a (remove r xs) =
        count-remove a r xs (ground arith) in
      ground arith
]

pub length-remove : (r : ℕ) (us : List ℕ) → 0 < count r us → length us ≡ length (remove r us) + 1
length-remove r [] n = omega arith
length-remove r (x ∷ xs) n = elim (Bool-cases (r == x)) [
  | inl e ↦ ground arith
  | inr e ↦
      let i : length xs ≡ length (remove r xs) + 1 = length-remove r xs (ground arith) in
      ground arith
]

pub count-put :
    (at_end : Bool) (a r : ℕ) (xs : List ℕ)
    → count a (put at_end r xs) ≡ (if a == r then 1 else 0) + count a xs
count-put true a r xs = omega (arith, count-append_one r a xs)
count-put false a r xs = refl

pub length-put : (at_end : Bool) (r : ℕ) (xs : List ℕ) → length (put at_end r xs) ≡ length xs + 1
length-put true r xs = length-append xs (r ∷ [])
length-put false r xs = omega arith

-- Nothing is lost or made by a call.
pub perform_items-count :
    (at_end : Bool) (c : Call) (xs us : List ℕ) (a : ℕ)
    → Fits c us
    → let (o, xs', us') = perform_items at_end c xs us in
      count a xs' + count a us' ≡ count a xs + count a us
perform_items-count at_end get [] us a f = refl
perform_items-count at_end get (x ∷ xs) us a f = omega arith
perform_items-count at_end (release r) xs us a f =
    omega (arith, count-put at_end a r xs, count-remove a r us f)

pub perform_items-length :
    (at_end : Bool) (c : Call) (xs us : List ℕ)
    → Fits c us
    → let (o, xs', us') = perform_items at_end c xs us in
      length xs' + length us' ≡ length xs + length us
perform_items-length at_end get [] us f = refl
perform_items-length at_end get (x ∷ xs) us f = omega arith
perform_items-length at_end (release r) xs us f =
    omega (arith, length-put at_end r xs, length-remove r us f)

pub count-range_before : (a at n : ℕ) → a < at → count a (range at n) ≡ 0
count-range_before a at zero l = refl
count-range_before a at (suc n) l = ground (arith, count-range_before a (suc at) n (omega arith))

pub count-range_one : (a at n : ℕ) → count a (range at n) ≤ 1
count-range_one a at zero = omega arith
count-range_one a at (suc n) = elim (Bool-cases (a == at)) [
  | inl e ↦ ground (
    arith,
    (==_iff a at).0 e,
    count-range_before a (suc at) n (ground (arith, (==_iff a at).0 e)),
  )
  | inr e ↦ ground (arith, count-range_one a (suc at) n)
]

pub count-range :
    (a at n : ℕ) → count a (range at n) ≡ (if leb at a && ltb a (at + n) then 1 else 0)
count-range a at zero = ground arith
count-range a at (suc n) = elim (Bool-cases (a == at)) [
  | inl e ↦ ground (
    arith,
    (==_iff a at).0 e,
    count-range_before a (suc at) n (ground (arith, (==_iff a at).0 e)),
  )
  | inr e ↦ ground (arith, count-range a (suc at) n)
]

pub length-range : (at n : ℕ) → length (range at n) ≡ n
length-range at zero = refl
length-range at (suc n) = omega (arith, length-range (suc at) n)

pub Away-count : (a : ℕ) (xs : List ℕ) → count a xs ≡ 0 → Away a xs
unfolding Away
Away-count a [] e = tt
Away-count a (x ∷ xs) e = (λ q. ground arith, Away-count a xs (ground arith))

pub count-Away : (a : ℕ) (xs : List ℕ) → Away a xs → count a xs ≡ 0
unfolding Away
count-Away a [] w = refl
count-Away a (x ∷ xs) (n, w) = ground (arith, count-Away a xs w)
