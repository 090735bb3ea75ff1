-- ===== src/TplPool/MemBlock/Sessions.antt =====
-- A block of a pool over any sequence of calls.
use zephyr_server.Common.{
  ℕ, zero, suc, ◌+◌, ◌-◌, ◌^◌, ◌<◌, ◌≡◌, refl, sym, ap, ap₂, ◌∙◌, subst, true, false, ◌&&◌, ltb,
  leb, ◌↔◌, Option, none, some, List, [], ◌∷◌, ◌==◌, if◌then◌else◌, length, sub32, arith,
}
use zephyr_server.TplPool.Items.{
  count, range, Call, get, release, perform_items, run_items, Fits, Allowed, perform_items-count,
  perform_items-length, count-range_one, count-range, length-range,
}
use zephyr_server.TplPool.MemBlock.{
  Nexts, set_pool_next, MemBlock, new_mem_block, link_items, init_at, init, is_empty, can_recycle,
  get_mem_at, get_mem, release_mem,
}

pub FreeChain : Nexts → Option ℕ → List ℕ → Type 0
FreeChain h o [] = o ≡ none
FreeChain h o (x ∷ xs) = (o ≡ some x) × FreeChain h (h x) xs

FreeChain-set :
    (a : ℕ) (v : Option ℕ) (h : Nexts) (o : Option ℕ) (xs : List ℕ)
    → count a xs ≡ 0
    → FreeChain h o xs
    → FreeChain (set_pool_next a v h) o xs
unfolding FreeChain
FreeChain-set a v h o [] e c = c
FreeChain-set a v h o (x ∷ xs) e (f, c) =
    let n : (x == a) ≡ false = ground arith in
    (f, rw n (FreeChain-set a v h (h x) xs (ground arith) c))

link_items-before : (a at n : ℕ) (h : Nexts) → a < at → link_items at n h a ≡ h a
unfolding link_items
link_items-before a at zero h l = refl
link_items-before a at (suc n) h l =
    link_items-before a (suc at) n (set_pool_next at (some (suc at)) h) (omega arith) ∙ ground arith

link_items-FreeChain :
    (at n last : ℕ) (h : Nexts)
    → last ≡ at + n
    → FreeChain (set_pool_next last none (link_items at (suc n) h)) (some at) (range at (suc n))
unfolding FreeChain link_items
link_items-FreeChain at zero last h e = (refl, ground arith)
link_items-FreeChain at (suc n) last h e =
    let linked = link_items (suc at) (suc n) (set_pool_next at (some (suc at)) h) in
    let all : Nexts = set_pool_next last none linked in
    let before : linked at ≡ some (suc at) =
      link_items-before at (suc at) (suc n) (set_pool_next at (some (suc at)) h) (omega arith)
      ∙ ground arith in
    let first : all at ≡ some (suc at) = ground arith in
    let rest =
      link_items-FreeChain (suc at) n last (set_pool_next at (some (suc at)) h) (omega arith) in
    (refl, subst (λ o. FreeChain all o (range (suc at) (suc n))) (sym first) rest)

-- The free items are chained, and no item is lost, or both free and handed out.
pub record Manages (b : MemBlock) (h : Nexts) (at n : ℕ) (xs us : List ℕ) : Type 0 where
  pub chained : FreeChain h b.free xs
  pub counted : b.nr_free ≡ length xs
  pub items : (a : ℕ) → count a xs + count a us ≡ count a (range at n)
  pub total : length xs + length us ≡ n
  pub sized : b.size ≡ n

abbrev pub perform : Call → MemBlock → Nexts → Option ℕ × MemBlock × Nexts
perform get b h = get_mem b h
perform (release r) b h = let (b', h') = release_mem r b h in (none, b', h')

pub run : List Call → MemBlock → Nexts → List (Option ℕ) × MemBlock × Nexts
run [] b h = ([], b, h)
run (c ∷ cs) b h =
    let (o, b', h') = perform c b h in let (os, b'', h'') = run cs b' h' in (o ∷ os, b'', h'')

pub release_next : (r : ℕ) (b : MemBlock) (h : Nexts) → (release_mem r b h).1 r ≡ b.free
unfolding release_mem
release_next r b h = ground arith

get_mem-none : (b : MemBlock) (h : Nexts) → b.free ≡ none → get_mem b h ≡ (none, b, h)
unfolding get_mem get_mem_at
get_mem-none b h e = ap (λ o. get_mem_at o b h) e

pub get_mem-some :
    (b : MemBlock) (h : Nexts) (x : ℕ)
    → b.free ≡ some x
    → get_mem b h
      ≡ (some x, record b { free = h x; nr_free = sub32 b.nr_free 1 }, set_pool_next x none h)
unfolding get_mem get_mem_at
get_mem-some b h x e = ap (λ o. get_mem_at o b h) e

pub perform-Manages :
    (c : Call) (b : MemBlock) (h : Nexts) (at n : ℕ) (xs us : List ℕ)
    → Manages b h at n xs us
    → Fits c us
    → n < 2 ^ 31
    → let (o, b', h') = perform c b h in
      let (o', xs', us') = perform_items false c xs us in (o ≡ o') × Manages b' h' at n xs' us'
unfolding release_mem FreeChain
perform-Manages get b h at n [] us m f l = rw (get_mem-none b h m.chained) (refl, m)
perform-Manages get b h at n (x ∷ xs) us m f l =
    let (e, c) = m.chained in
    let once = count-range_one x at n in
    let absent : count x xs ≡ 0 = ground (arith, m.items x) in
    rw (get_mem-some b h x e) (
      refl,
      record {
        chained = FreeChain-set x none h (h x) xs absent c;
        counted = ground (arith, m.counted, m.total);
        items = λ a. perform_items-count false get (x ∷ xs) us a f ∙ m.items a;
        total = perform_items-length false get (x ∷ xs) us f ∙ m.total;
        sized = m.sized;
      },
    )
perform-Manages (release r) b h at n xs us m f l =
    let once = count-range_one r at n in
    let absent : count r xs ≡ 0 = ground (arith, m.items r) in
    (
      refl,
      record {
        chained =
            (refl, rw (release_next r b h) (FreeChain-set r b.free h b.free xs absent m.chained));
        counted =
            ground (arith, m.counted, m.total, perform_items-length false (release r) xs us f);
        items = λ a. perform_items-count false (release r) xs us a f ∙ m.items a;
        total = perform_items-length false (release r) xs us f ∙ m.total;
        sized = m.sized;
      },
    )

pub init-Manages :
    (at n : ℕ) (h : Nexts)
    → let (o, b, h') = init (some at) (suc n) new_mem_block h in
      Manages b h' at (suc n) (range at (suc n)) []
unfolding init init_at
init-Manages at n h = record {
  chained = link_items-FreeChain at n (at + suc n - 1) h (omega arith);
  counted = sym (length-range at (suc n));
  items = λ a. omega arith;
  total = omega (arith, length-range at (suc n));
  sized = refl;
}

run-Manages :
    (cs : List Call) (b : MemBlock) (h : Nexts) (at n : ℕ) (xs us : List ℕ)
    → Manages b h at n xs us
    → Allowed false cs xs us
    → n < 2 ^ 31
    → let (os, b', h') = run cs b h in
      let (os', xs', us') = run_items false cs xs us in (os ≡ os') × Manages b' h' at n xs' us'
unfolding run Allowed
run-Manages [] b h at n xs us m a l = (refl, m)
run-Manages (c ∷ cs) b h at n xs us m (f, more) l =
    let (o, m') = perform-Manages c b h at n xs us m f l in
    let (o', xs', us') = perform_items false c xs us in
    let (os, m'') = run-Manages cs (perform c b h).1 (perform c b h).2 at n xs' us' m' more l in
    (ap₂ (λ q qs. q ∷ qs) o os, m'')

pub Manages-is_empty :
    (b : MemBlock) (h : Nexts) (at n : ℕ) (xs us : List ℕ)
    → Manages b h at n xs us
    → (is_empty b ≡ true) ↔ (xs ≡ [])
unfolding is_empty
Manages-is_empty b h at n [] us m = ((λ _. refl), λ _. ground (arith, m.counted))
Manages-is_empty b h at n (x ∷ xs) us m =
    ((λ e. absurd (ground (arith, m.counted))), λ e. absurd (omega (arith, ap length e)))

Manages-can_recycle :
    (b : MemBlock) (h : Nexts) (at n : ℕ) (xs us : List ℕ)
    → Manages b h at n xs us
    → (can_recycle b ≡ true) ↔ (us ≡ [])
unfolding can_recycle
Manages-can_recycle b h at n xs [] m =
    ((λ _. refl), λ _. ground (arith, m.counted, m.total, m.sized))
Manages-can_recycle b h at n xs (x ∷ us) m = (
  (λ e. absurd (ground (arith, m.counted, m.total, m.sized))),
  λ e. absurd (omega (arith, ap length e)),
)

-- After `Init` of a block with n items, at least one and fewer than 2^31, and any sequence of `GetMem`
-- and of `ReleaseMem` of items that are handed out at that point: each `GetMem` has returned the item
-- released last, or else the next one that was never handed out, and null exactly where all items are
-- handed out; every item of the array is free or handed out once, never both or twice, and no other
-- is; `m_nFree` is the number of free ones, so `IsEmpty` and `CanRecycle` hold exactly where none is
-- free and where none is handed out.
pub run-serves :
    (at n : ℕ) (h : Nexts) (cs : List Call)
    → 0 < n
    → n < 2 ^ 31
    → Allowed false cs (range at n) []
    → let (_, b, h') = init (some at) n new_mem_block h in
      let (os, b', h'') = run cs b h' in
      let (os', xs, us) = run_items false cs (range at n) [] in
      (os ≡ os')
      × ((a : ℕ) → count a xs + count a us ≡ (if leb at a && ltb a (at + n) then 1 else 0))
      × (b'.nr_free ≡ length xs)
      × ((is_empty b' ≡ true) ↔ (xs ≡ []))
      × ((can_recycle b' ≡ true) ↔ (us ≡ []))
run-serves at zero h cs p l a = absurd (omega arith)
run-serves at (suc n) h cs p l a =
    let (_, b, h') = init (some at) (suc n) new_mem_block h in
    let (os, xs, us) = run_items false cs (range at (suc n)) [] in
    let (e, m) = run-Manages cs b h' at (suc n) (range at (suc n)) [] (init-Manages at n h) a l in
    (
      e,
      (λ c. m.items c ∙ count-range c at (suc n)),
      m.counted,
      Manages-is_empty _ _ at (suc n) xs us m,
      Manages-can_recycle _ _ at (suc n) xs us m,
    )
