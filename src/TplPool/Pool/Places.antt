-- ===== src/TplPool/Pool/Places.antt =====
-- A pool with its main block only: in which list the block is.
use zephyr_server.Common.{
  ℕ, ◌≡◌, refl, ap, ◌∙◌, inl, inr, Bool, true, false, ◌&&◌, not, some, Bool-cases, above_signed,
  arith,
}
use zephyr_server.TplList.{same}
use zephyr_server.TplList.Single.{Shows, push_front-Shows, detach_from-Shows}
use zephyr_server.TplPool.MemBlock.{MemBlock, is_empty, can_recycle}
use zephyr_server.TplPool.MemBlock
use zephyr_server.TplPool.Pool.{
  Pool, detach_block, to_full, to_using, on_block_used, put_recycled, drop_rear, on_block_recycled,
}

-- The main block `b` is in one of the two lists, the one for full blocks where `full`.
pub record Placed (p : Pool) (b : ℕ) (full : Bool) : Type 0 where
  pub main : p.main_block ≡ some b
  pub marked : p.in_full b ≡ full
  pub used : Shows p.using_blocks b (not full)
  pub full_ones : Shows p.full_blocks b full

to_full-Placed :
    (p : Pool) (b : ℕ) → Placed p b false → Placed (to_full b (detach_block b p)) b true
unfolding to_full detach_block
to_full-Placed p b s =
    let (u, _) = detach_from-Shows p.using_blocks b p.links s.used in
    rw (s.marked) (record {
      main = s.main;
      marked = ground arith;
      used = u;
      full_ones = (push_front-Shows p.full_blocks b _ s.full_ones).0;
    })

to_using-Placed :
    (p : Pool) (b : ℕ) → Placed p b true → Placed (to_using b (detach_block b p)) b false
unfolding to_using detach_block
to_using-Placed p b s =
    let (u, _) = detach_from-Shows p.full_blocks b p.links s.full_ones in
    rw (s.marked) (record {
      main = s.main;
      marked = ground arith;
      used = (push_front-Shows p.using_blocks b _ s.used).0;
      full_ones = u;
    })

-- What the moves between the lists leave alone.
abbrev pub Rest : Type 0
Rest = (ℕ → MemBlock) × MemBlock.Nexts × (ℕ → ℕ) × ℕ × ℕ

abbrev pub rest : Pool → Rest
rest p = (p.blocks, p.nexts, p.owner, p.free_nr, p.init_size)

to_full-rest : (p : Pool) (b : ℕ) → Placed p b false → rest (to_full b (detach_block b p)) ≡ rest p
unfolding to_full detach_block
to_full-rest p b s = rw (s.marked) refl

to_using-rest : (p : Pool) (b : ℕ) → Placed p b true → rest (to_using b (detach_block b p)) ≡ rest p
unfolding to_using detach_block
to_using-rest p b s = rw (s.marked) refl

pub on_block_used-Placed :
    (p : Pool) (b : ℕ)
    → Placed p b false
    → let q = on_block_used b p in Placed q b (is_empty (p.blocks b)) × (rest q ≡ rest p)
unfolding on_block_used
on_block_used-Placed p b s = elim (Bool-cases (is_empty (p.blocks b))) [
  | inl e ↦ (rw e (to_full-Placed p b s), rw e (to_full-rest p b s))
  | inr e ↦ (rw e s, rw e refl)
]

put_recycled-Placed :
    (p : Pool) (b : ℕ) (full : Bool)
    → Placed p b full
    → let q = put_recycled b p in Placed q b false × (rest q ≡ rest p)
unfolding put_recycled
put_recycled-Placed p b true s =
    let own : same (some b) p.main_block ≡ true = ap (same (some b)) s.main ∙ ground arith in
    let e : put_recycled b p ≡ to_using b (detach_block b p) = rw (own, s.marked) refl in
    rw e (to_using-Placed p b s, to_using-rest p b s)
put_recycled-Placed p b false s =
    let own : same (some b) p.main_block ≡ true = ap (same (some b)) s.main ∙ ground arith in
    let e : put_recycled b p ≡ p = rw (own, s.marked) refl in rw e (s, refl)

and_false : (a c : Bool) → (a && not true && c) ≡ false
and_false true c = refl
and_false false c = refl

drop_rear-main : (q : Pool) (b : ℕ) → Placed q b false → drop_rear q.using_blocks.rear q ≡ q
unfolding drop_rear
drop_rear-main q b s =
    let own : same (some b) q.main_block ≡ true = ap (same (some b)) s.main ∙ ground arith in
    ap (λ o. drop_rear o q) s.used.rear
    ∙ rw (own, and_false (above_signed q.free_nr q.init_size) (can_recycle (q.blocks b))) refl

pub on_block_recycled-Placed :
    (p : Pool) (b : ℕ) (full : Bool)
    → Placed p b full
    → let q = on_block_recycled b p in Placed q b false × (rest q ≡ rest p)
unfolding on_block_recycled
on_block_recycled-Placed p b full s =
    let (s', kept) = put_recycled-Placed p b full s in
    let q = put_recycled b p in rw (drop_rear-main q b s') (s', kept)
