-- ===== src/TplPool/Pool/Steps.antt =====
-- A call of a pool that has its main block only.
use zephyr_server.Common.{
  ℕ, suc, ◌+◌, ◌^◌, ◌<◌, ◌≡◌, refl, sym, ap, ◌∙◌, subst, inl, inr, Bool, true, false, ◌&&◌, ltb,
  leb, Option, some, List, [], ◌∷◌, ◌==◌, length, Bool-cases, add32, sub32, arith,
}
use zephyr_server.TplPool.Items.{count, remove, get, release, count-range}
use zephyr_server.TplPool.MemBlock.{MemBlock, new_mem_block, is_empty}
use zephyr_server.TplPool.MemBlock
use zephyr_server.TplPool.MemBlock.Sessions.{Manages, perform-Manages, Manages-is_empty}
use zephyr_server.TplPool.Pool.{
  Pool, set_block, on_block_used, get_used, get_by, get_mem, release_to, release_mem,
}
use zephyr_server.TplPool.Pool.Places.{Placed, Rest, on_block_used-Placed, on_block_recycled-Placed}

abbrev pub none_left : List ℕ → Bool
none_left [] = true
none_left (x ∷ xs) = false

pub record Ready (p : Pool) (b at n : ℕ) (xs us : List ℕ) : Type 0 where
  pub placed : Placed p b (none_left xs)
  pub block : Manages (p.blocks b) p.nexts at n xs us
  pub owners : (a : ℕ) → (leb at a && ltb a (at + n)) ≡ true → p.owner a ≡ b
  pub counted : p.free_nr ≡ length xs

is_empty-none_left :
    (b : MemBlock) (h : MemBlock.Nexts) (at n : ℕ) (xs us : List ℕ)
    → Manages b h at n xs us
    → is_empty b ≡ none_left xs
is_empty-none_left b h at n [] us m = (Manages-is_empty b h at n [] us m).1 refl
is_empty-none_left b h at n (x ∷ xs) us m = elim (Bool-cases (is_empty b)) [
  | inl e ↦ absurd (omega (arith, ap length ((Manages-is_empty b h at n (x ∷ xs) us m).0 e)))
  | inr e ↦ e
]

pub set_block-same : (b : ℕ) (v : MemBlock) (f : ℕ → MemBlock) → set_block b v f b ≡ v
set_block-same b v f = let e : (b == b) ≡ true = ground arith in rw e refl

less : (w k : ℕ) → w ≡ suc k → suc k < 2 ^ 31 → sub32 w 1 ≡ k
less w k e l = omega arith

count_down :
    (q : Pool) (b : ℕ) (full : Bool)
    → Placed q b full
    → Placed (record q { free_nr = sub32 q.free_nr 1 }) b full
count_down q b full s = record {
  main = s.main;
  marked = s.marked;
  used = s.used;
  full_ones = s.full_ones;
}

more : (w k : ℕ) → w ≡ k → k < 2 ^ 31 → add32 w 1 ≡ suc k
more w k e l = omega arith

pub release_mem-main :
    (r : ℕ) (p : Pool) (b at n : ℕ) (xs us : List ℕ)
    → Ready p b at n xs us
    → 0 < count r us
    → n < 2 ^ 31
    → Ready (release_mem r p) b at n (r ∷ xs) (remove r us)
unfolding release_mem release_to
release_mem-main r p b at n xs us ready f l =
    let inside : (leb at r && ltb r (at + n)) ≡ true =
      ground (arith, ready.block.items r, count-range r at n) in
    let (block, nexts) = MemBlock.release_mem r (p.blocks b) p.nexts in
    let p1 : Pool = record p {
      blocks = set_block b block p.blocks;
      nexts = nexts;
      free_nr = add32 p.free_nr 1;
    } in
    let (_, m) = perform-Manages (release r) (p.blocks b) p.nexts at n xs us ready.block f l in
    let placed : Placed p1 b (none_left xs) = record {
      main = ready.placed.main;
      marked = ready.placed.marked;
      used = ready.placed.used;
      full_ones = ready.placed.full_ones;
    } in
    let own = set_block-same b block p.blocks in
    let (placed', kept) = on_block_recycled-Placed p1 b (none_left xs) placed in
    let m1 : Manages (p1.blocks b) p1.nexts at n (r ∷ xs) (remove r us) =
      subst (λ k. Manages k nexts at n (r ∷ xs) (remove r us)) (sym own) m in
    rw (ready.owners r inside) (record {
      placed = placed';
      block = subst (λ (k : Rest). Manages (k.0 b) (k.1) at n (r ∷ xs) (remove r us)) (sym kept) m1;
      owners = λ a i. ap (λ (k : Rest). k.2 a) kept ∙ ready.owners a i;
      counted =
          ap (λ (k : Rest). k.3) kept
          ∙ more p.free_nr (length xs) ready.counted (omega (arith, ready.block.total));
    })

-- A call of `GetMem` while an item is free.
module _ (new_block new_items : Option ℕ) where
  pub get_mem-main :
      (p : Pool) (b at n x : ℕ) (xs us : List ℕ)
      → Ready p b at n (x ∷ xs) us
      → n < 2 ^ 31
      → let (o, q) = get_mem new_block new_items p in (o ≡ some x) × Ready q b at n xs (x ∷ us)
  unfolding get_mem get_by get_used
  get_mem-main p b at n x xs us r l =
      let (_, block, nexts) = MemBlock.get_mem (p.blocks b) p.nexts in
      let p1 : Pool = record p { blocks = set_block b block p.blocks; nexts = nexts } in
      let (o, m) = perform-Manages get (p.blocks b) p.nexts at n (x ∷ xs) us r.block tt l in
      let e : get_mem new_block new_items p ≡ get_used (some x) b new_block new_items p1 =
        ap (λ k. get_by k new_block new_items p) r.placed.used.header
        ∙ ap (λ k. get_used k b new_block new_items p1) o in
      let placed : Placed p1 b false = record {
        main = r.placed.main;
        marked = r.placed.marked;
        used = r.placed.used;
        full_ones = r.placed.full_ones;
      } in
      let own : p1.blocks b ≡ block = set_block-same b block p.blocks in
      let (placed', kept) = on_block_used-Placed p1 b placed in
      let m1 : Manages (p1.blocks b) p1.nexts at n xs (x ∷ us) =
        subst (λ k. Manages k nexts at n xs (x ∷ us)) (sym own) m in
      let q = on_block_used b p1 in
      let full = ap is_empty own ∙ is_empty-none_left block nexts at n xs (x ∷ us) m in
      rw e (
        refl,
        record {
          placed = count_down q b (none_left xs) (subst (Placed q b) full placed');
          block = subst (λ (k : Rest). Manages (k.0 b) (k.1) at n xs (x ∷ us)) (sym kept) m1;
          owners = λ a i. ap (λ (k : Rest). k.2 a) kept ∙ r.owners a i;
          counted =
              ap (λ (k : Rest). sub32 (k.3) 1) kept
              ∙ less (p.free_nr) (length xs) r.counted (omega (arith, r.block.total));
        },
      )
