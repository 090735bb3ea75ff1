-- ===== src/TplPool/ItemPool/Leak.antt =====
-- A pool of items that never say that they are active.
use zephyr_server.Common.{
  ℕ, zero, suc, ◌-◌, ◌<◌, ◌≡◌, refl, sym, ap, ap₂, ◌∙◌, subst, Bool, true, false, Option, none,
  some, List, [], ◌∷◌, ◌==◌, inl, inr, Bool-cases, arith,
}
use zephyr_server.TplList.{Links, Heap, set_prev, set_next, detach, attach_list}
use zephyr_server.TplList.Chains.{
  first_of, Away, Distinct, Chain, Chain-set_prev, Chain-set_next, Chain-set_first,
}
use zephyr_server.TplList.Single.{attach_list-none, attach_list-some}
use zephyr_server.TplList.Ends.{detach_first}
use zephyr_server.TplPool.Items.{range, Call, get, release, count-range_before, Away-count}
use zephyr_server.TplPool.ItemPool.{
  ItemPool, link_rest, init_items, get_item_at, get_item, release_item, comm_is_actived,
}

AwayFrom : Option ℕ → List ℕ → Type 0
AwayFrom none xs = Unit {0}
AwayFrom (some u) xs = Away u xs

record Offers (p : ItemPool) (xs : List ℕ) : Type 0 where
  header : p.free_header ≡ first_of xs
  chained : Chain p.links none xs
  distinct : Distinct xs
  used : AwayFrom p.used xs

attach_list-Chain :
    (r : ℕ) (o : Option ℕ) (h : Heap) (xs : List ℕ)
    → Away r xs
    → AwayFrom o xs
    → Chain h none xs
    → Chain (attach_list r o h) none xs
unfolding AwayFrom
attach_list-Chain r none h xs a b c =
    rw (attach_list-none r h) (Chain-set_next r none h none xs a c)
attach_list-Chain r (some u) h xs a b c = rw (attach_list-some r u h) (
    Chain-set_next r (some u) (set_prev u (some r) h) none xs a
      (Chain-set_prev u (some r) h none xs b c))

chained_none : (h : Heap) → Chain h none []
unfolding Chain
chained_none h = tt

parts :
    (h : Heap) (x y : ℕ) (ys : List ℕ)
    → Chain h none (x ∷ y ∷ ys)
    → ((h x).prev ≡ none) × ((h x).next ≡ some y) × Chain h (some x) (y ∷ ys)
unfolding Chain
parts h x y ys c = c

detach-Chain :
    (h : Heap) (x : ℕ) (xs : List ℕ)
    → Chain h none (x ∷ xs)
    → Distinct (x ∷ xs)
    → Chain (detach x h) none xs
unfolding Distinct
detach-Chain h x [] c d = chained_none (detach x h)
detach-Chain h x (y ∷ ys) c (a, (b, d)) =
    let (e, f, rest) = parts h x y ys c in
    let h1 = set_prev y none h in
    let h2 = set_next x none h1 in
    rw (detach_first h x y e f) (
      Chain-set_prev x none h2 none (y ∷ ys) a
        (Chain-set_next x none h1 none (y ∷ ys) a (Chain-set_first none h (some x) y ys b rest)))

link_rest-before : (count a rear : ℕ) (h : Heap) → a < rear → link_rest count rear h a ≡ h a
unfolding link_rest
link_rest-before zero a rear h l = refl
link_rest-before (suc count) a rear h l =
    let h1 = attach_list rear (some (suc rear)) h in
    link_rest-before count a (suc rear) h1 (omega arith)
    ∙ (let e = attach_list-some rear (suc rear) h in ap (λ (k : Heap). k a) e ∙ ground arith)

link_rest-Chain :
    (count rear : ℕ) (before : Option ℕ) (h : Heap)
    → (h rear).prev ≡ before
    → (h rear).next ≡ none
    → ((a : ℕ) → rear < a → ((h a).prev ≡ none) × ((h a).next ≡ none))
    → Chain (link_rest count rear h) before (rear ∷ range (suc rear) count)
unfolding link_rest Chain
link_rest-Chain zero rear before h e f g = (e, f, tt)
link_rest-Chain (suc count) rear before h e f g =
    let h1 : Heap = set_next rear (some (suc rear)) (set_prev (suc rear) (some rear) h) in
    let q : attach_list rear (some (suc rear)) h ≡ h1 = attach_list-some rear (suc rear) h in
    let at : link_rest count (suc rear) h1 rear ≡ h1 rear =
      link_rest-before count rear (suc rear) h1 (omega arith) in
    let same : (rear == suc rear) ≡ false = ground arith in
    let own : (rear == rear) ≡ true = ground arith in
    let own' : (suc rear == suc rear) ≡ true = ground arith in
    let other : (suc rear == rear) ≡ false = ground arith in
    subst
      (λ (k : Heap).
        Chain (link_rest count (suc rear) k) before (rear ∷ range (suc rear) (suc count)))
      (sym q)
      (
        ap (λ (k : Links). k.prev) at ∙ (rw (own, same) e),
        ap (λ (k : Links). k.next) at ∙ (rw own refl),
        link_rest-Chain count (suc rear) (some rear) h1 (rw (other, own') refl)
            (rw other (rw own' (g (suc rear) (omega arith)).1))
            (λ a l.
              (let n : (a == rear) ≡ false = ground arith in
                let n' : (a == suc rear) ≡ false = ground arith in rw (n, n') (g a (omega arith)))),
      )

first_next : (h : Heap) (x : ℕ) (xs : List ℕ) → Chain h none (x ∷ xs) → (h x).next ≡ first_of xs
unfolding Chain
first_next h x xs c = c.1

AwayFrom-rest : (o : Option ℕ) (x : ℕ) (xs : List ℕ) → AwayFrom o (x ∷ xs) → AwayFrom o xs
unfolding AwayFrom Away
AwayFrom-rest none x xs a = tt
AwayFrom-rest (some u) x xs a = a.1

range-Distinct : (at n : ℕ) → Distinct (range at n)
unfolding Distinct
range-Distinct at zero = tt
range-Distinct at (suc n) = (
  Away-count at (range (suc at) n) (count-range_before at (suc at) n (omega arith)),
  range-Distinct (suc at) n,
)

init_items-Offers : (n : ℕ) → Offers (init_items (suc n)) (range 0 (suc n))
unfolding init_items AwayFrom
init_items-Offers n = record {
  header = refl;
  chained =
      let e : suc n - 1 ≡ n = omega arith in
      rw e (
        link_rest-Chain n 0 none (λ b. record { prev = none; next = none }) refl refl
          (λ a l. (refl, refl)));
  distinct = range-Distinct 0 (suc n);
  used = tt;
}

get_item-Offers :
    (p : ItemPool) (x : ℕ) (xs : List ℕ)
    → Offers p (x ∷ xs)
    → let (o, q) = get_item p in (o ≡ some x) × Offers q xs
unfolding get_item get_item_at Distinct AwayFrom
get_item-Offers p x xs s =
    let e : get_item p ≡ get_item_at (some x) p = ap (λ o. get_item_at o p) s.header in
    let (away, distinct) = s.distinct in
    let rest = AwayFrom-rest p.used x xs s.used in
    rw e (
      refl,
      record {
        header = first_next p.links x xs s.chained;
        chained =
            attach_list-Chain x p.used (detach x p.links) xs away rest
              (detach-Chain p.links x xs s.chained s.distinct);
        distinct = distinct;
        used = away;
      },
    )

get_item-none : (p : ItemPool) → Offers p [] → get_item p ≡ (none, p)
unfolding get_item get_item_at
get_item-none p s = ap (λ o. get_item_at o p) s.header

-- A sequence of calls, where the connection of each released item and the states of the connections
-- are given.
perform : (ℕ → Option ℕ) → (ℕ → Bool) → Call → ItemPool → Option ℕ × ItemPool
perform connection is_using get p = get_item p
perform connection is_using (release r) p =
    (none, release_item (comm_is_actived (connection r) is_using) r p)

pub run : (ℕ → Option ℕ) → (ℕ → Bool) → List Call → ItemPool → List (Option ℕ) × ItemPool
unfolding perform
run connection is_using [] p = ([], p)
run connection is_using (c ∷ cs) p =
    let (o, p') = perform connection is_using c p in
    let (os, p'') = run connection is_using cs p' in (o ∷ os, p'')

-- Each item once, whatever is released.
abbrev pub once_each : List Call → List ℕ → List (Option ℕ)
once_each [] xs = []
once_each (get ∷ cs) [] = none ∷ once_each cs []
once_each (get ∷ cs) (x ∷ xs) = some x ∷ once_each cs xs
once_each (release r ∷ cs) xs = none ∷ once_each cs xs

release_item-kept :
    (connection : Option ℕ) (is_using : ℕ → Bool) (r : ℕ) (p : ItemPool)
    → release_item (comm_is_actived connection is_using) r p ≡ p
unfolding release_item comm_is_actived
release_item-kept none is_using r p = refl
release_item-kept (some c) is_using r p = elim (Bool-cases (is_using c)) [
  | inl e ↦ rw e refl
  | inr e ↦ rw e refl
]

run-Offers :
    (connection : ℕ → Option ℕ) (is_using : ℕ → Bool) (cs : List Call) (p : ItemPool) (xs : List ℕ)
    → Offers p xs
    → (run connection is_using cs p).0 ≡ once_each cs xs
unfolding run perform
run-Offers connection is_using [] p xs s = refl
run-Offers connection is_using (get ∷ cs) p [] s =
    rw (get_item-none p s) (ap (λ os. none ∷ os) (run-Offers connection is_using cs p [] s))
run-Offers connection is_using (get ∷ cs) p (x ∷ xs) s =
    let (o, s') = get_item-Offers p x xs s in
    ap₂ (λ a os. a ∷ os) o (run-Offers connection is_using cs (get_item p).1 xs s')
run-Offers connection is_using (release r ∷ cs) p xs s =
    rw (release_item-kept (connection r) is_using r p)
      (ap (λ os. none ∷ os) (run-Offers connection is_using cs p xs s))

-- A pool of at least one item, with the `IsActived` of `CCommConnection`: whatever connections the items have and
-- whatever state these are in, `IsActived` of an item never answers true, so that `ReleaseItem` gives
-- nothing back: in any sequence of `GetItem` and `ReleaseItem` after `Init`, the calls of `GetItem`
-- return each item once, in order, and from then on null.
pub run-once_each :
    (connection : ℕ → Option ℕ) (is_using : ℕ → Bool) (n : ℕ) (cs : List Call)
    → 0 < n
    → (run connection is_using cs (init_items n)).0 ≡ once_each cs (range 0 n)
run-once_each connection is_using zero cs l = absurd (omega arith)
run-once_each connection is_using (suc n) cs l =
    run-Offers connection is_using cs (init_items (suc n)) (range 0 (suc n)) (init_items-Offers n)
