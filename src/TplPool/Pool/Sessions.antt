-- ===== src/TplPool/Pool/Sessions.antt =====
-- A pool whose calls stay within the items of its main block.
use zephyr_server.Common.{
  ℕ, zero, suc, ◌+◌, ◌^◌, ◌<◌, ◌≡◌, refl, sym, ap, ap₂, ◌∙◌, subst, false, ◌&&◌, not, ltb, leb,
  Option, none, some, List, [], ◌∷◌, if◌then◌else◌, length, arith,
}
use zephyr_server.TplList.Single.{Shows, push_back-Shows}
use zephyr_server.TplPool.Items.{
  count, range, remove, Call, get, release, perform_items, run_items, Allowed, count-range,
  length-range,
}
use zephyr_server.TplPool.MemBlock.{MemBlock, new_mem_block, is_empty}
use zephyr_server.TplPool.MemBlock
use zephyr_server.TplPool.MemBlock.Sessions.{Manages, init-Manages}
use zephyr_server.TplPool.Pool.{
  Pool, set_block, set_in_full, init_pool, get_mem, release_mem, to_using_back, init_block,
}
use zephyr_server.TplPool.Pool.Steps.{
  none_left, Ready, set_block-same, get_mem-main, release_mem-main,
}

-- There is a free item of the main block at every `GetMem`.
unfoldable pub Within : List Call → List ℕ → List ℕ → Type 0
Within [] xs us = Unit {0}
Within (get ∷ cs) xs us =
    let (o, xs', us') = perform_items false get xs us in (0 < length xs) × Within cs xs' us'
Within (release r ∷ cs) xs us =
    let (o, xs', us') = perform_items false (release r) xs us in Unit {0} × Within cs xs' us'

module _ (new_block new_items : Option ℕ) where
  perform : Call → Pool → Option ℕ × Pool
  perform get p = get_mem new_block new_items p
  perform (release r) p = (none, release_mem r p)

  pub run : List Call → Pool → List (Option ℕ) × Pool
  unfolding perform
  run [] p = ([], p)
  run (c ∷ cs) p = let (o, p') = perform c p in let (os, p'') = run cs p' in (o ∷ os, p'')

  run-Ready :
      (cs : List Call) (p : Pool) (b at n : ℕ) (xs us : List ℕ)
      → Ready p b at n xs us
      → Allowed false cs xs us
      → Within cs xs us
      → n < 2 ^ 31
      → let (os, p') = run cs p in
        let (os', xs', us') = run_items false cs xs us in (os ≡ os') × Ready p' b at n xs' us'
  unfolding run perform Allowed Within
  run-Ready [] p b at n xs us r a w l = (refl, r)
  run-Ready (get ∷ cs) p b at n [] us r a w l = absurd (omega (arith, w.0))
  run-Ready (get ∷ cs) p b at n (x ∷ xs) us r a w l =
      let (o, r') = get_mem-main new_block new_items p b at n x xs us r l in
      let (os, r'') =
        run-Ready cs (get_mem new_block new_items p).1 b at n xs (x ∷ us) r' a.1 w.1 l in
      (ap₂ (λ q qs. q ∷ qs) o os, r'')
  run-Ready (release i ∷ cs) p b at n xs us r a w l =
      let r' = release_mem-main i p b at n xs us r a.0 l in
      let (os, r'') = run-Ready cs (release_mem i p) b at n (i ∷ xs) (remove i us) r' a.1 w.1 l in
      (ap (λ qs. none ∷ qs) os, r'')

init_pool-Ready :
    (p : Pool) (b at n : ℕ)
    → Shows p.using_blocks b false
    → Shows p.full_blocks b false
    → (q : Pool) × (init_pool (some b) (some at) (suc n) p ≡ some q)
      × Ready q b at (suc n) (range at (suc n)) []
unfolding init_pool init_block to_using_back MemBlock.init MemBlock.init_at
init_pool-Ready p b at n s t =
    let fresh : Pool = record p { blocks = set_block b new_mem_block p.blocks } in
    let (_, block, nexts) = MemBlock.init (some at) (suc n) (fresh.blocks b) p.nexts in
    let inited : Pool = record fresh {
      blocks = set_block b block fresh.blocks;
      in_full = set_in_full b false p.in_full;
      nexts = nexts;
      owner = λ a. if leb at a && ltb a (at + suc n) then b else p.owner a;
    } in
    let q : Pool = record (to_using_back b inited) {
      main_block = some b;
      init_size = suc n;
      free_nr = suc n;
    } in
    let same_block = set_block-same b block fresh.blocks in
    let manages : Manages block nexts at (suc n) (range at (suc n)) [] =
      init-Manages at n p.nexts in
    (
      q,
      refl,
      record {
        placed = record {
          main = refl;
          marked = ground arith;
          used = (push_back-Shows p.using_blocks b p.links s).0;
          full_ones = t;
        };
        block =
            subst (λ k. Manages k nexts at (suc n) (range at (suc n)) []) (sym same_block) manages;
        owners = λ a i. rw i refl;
        counted = sym (length-range at (suc n));
      },
    )

-- A pool with empty lists, whose `InitPool` gets a block with n items, at least one and fewer than
-- 2^31: `InitPool` succeeds, and in any sequence of `GetMem` and `ReleaseMem` that releases only items
-- handed out at that point, and gets one only while fewer than n are handed out, each `GetMem` returns
-- the item released last, or else the next one that was never handed out, whatever `new` would give in
-- the meantime; no item is both free and handed out, or handed out twice; `m_nFreeNr` is the number of
-- free items; and the main block is alone in the list for used blocks, or where no item is free in the
-- list for full ones.
pub run-Within :
    (new_block new_items : Option ℕ) (p : Pool) (b at n : ℕ) (cs : List Call)
    → Shows p.using_blocks b false
    → Shows p.full_blocks b false
    → 0 < n
    → n < 2 ^ 31
    → Allowed false cs (range at n) []
    → Within cs (range at n) []
    → (q : Pool) × (init_pool (some b) (some at) n p ≡ some q)
      × (let (os, q') = run new_block new_items cs q in
          let (os', xs, us) = run_items false cs (range at n) [] in
          (os ≡ os')
          × ((a : ℕ) → count a xs + count a us ≡ (if leb at a && ltb a (at + n) then 1 else 0))
          × (q'.free_nr ≡ length xs)
          × Shows q'.using_blocks b (not (none_left xs))
          × Shows q'.full_blocks b (none_left xs))
run-Within new_block new_items p b at zero cs s t pos l a w = absurd (omega arith)
run-Within new_block new_items p b at (suc n) cs s t pos l a w =
    let (q, e, r) = init_pool-Ready p b at n s t in
    let (os, r') = run-Ready new_block new_items cs q b at (suc n) (range at (suc n)) [] r a w l in
    (
      q,
      e,
      (
        os,
        (λ c. r'.block.items c ∙ count-range c at (suc n)),
        r'.counted,
        r'.placed.used,
        r'.placed.full_ones,
      ),
    )
