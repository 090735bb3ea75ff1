-- ===== src/TplPool/Tests.antt =====
-- Pools at concrete calls.
use zephyr_server.Common.{
  ℕ, ◌+◌, ◌≡◌, refl, true, false, ◌&&◌, ltb, leb, ◌↔◌, none, some, List, [], ◌∷◌, if◌then◌else◌,
  length, ◌==◌, not, arith,
}
use zephyr_server.TplList.{empty_list}
use zephyr_server.TplList.Chains.{Holds}
use zephyr_server.TplList.Single.{Shows}
use zephyr_server.TplPool.Pool
use zephyr_server.TplPool.Pool.Steps.{none_left}
use zephyr_server.TplPool.Pool.Sessions.{Within, run-Within}
use zephyr_server.TplPool.Pool.Recycling.{put_recycled-loses}
use zephyr_server.TplPool.Items.{count, range, Call, get, release, run_items, Allowed}
use zephyr_server.TplPool.MemBlock
use zephyr_server.TplPool.MemBlock.Sessions.{run-serves}
use zephyr_server.TplPool.ArrayPool

abbrev calls : List Call
calls = get ∷ get ∷ release 10 ∷ get ∷ get ∷ get ∷ []

calls-Allowed : Allowed false calls (range 10 3) []
unfolding Allowed
calls-Allowed = (tt, (tt, (omega arith, (tt, (tt, (tt, tt))))))

abbrev no_nexts : MemBlock.Nexts
no_nexts a = none

run-serves_example :
    let (_, b, h) = MemBlock.init (some 10) 3 MemBlock.new_mem_block no_nexts in
    let (os, b', h') = MemBlock.Sessions.run calls b h in
    let (os', xs, us) = run_items false calls (range 10 3) [] in
    (os ≡ os')
    × ((a : ℕ) → count a xs + count a us ≡ (if leb 10 a && ltb a 13 then 1 else 0))
    × (b'.nr_free ≡ length xs)
    × ((MemBlock.is_empty b' ≡ true) ↔ (xs ≡ []))
    × ((MemBlock.can_recycle b' ≡ true) ↔ (us ≡ []))
run-serves_example = run-serves 10 3 no_nexts calls (omega arith) (omega arith) calls-Allowed

abbrev turns : List Call
turns = get ∷ get ∷ release 1 ∷ get ∷ get ∷ get ∷ []

abbrev new_pool : Pool.Pool
new_pool = record {
  using_blocks = empty_list;
  full_blocks = empty_list;
  links = λ b. record { prev = none; next = none };
  main_block = none;
  init_size = 0;
  free_nr = 0;
  blocks = λ b. MemBlock.new_mem_block;
  in_full = λ b. false;
  nexts = no_nexts;
  owner = λ a. 0;
}

abbrev five : List Call
five = get ∷ get ∷ release 11 ∷ get ∷ get ∷ []

five-Allowed : Allowed false five (range 10 3) []
unfolding Allowed
five-Allowed = (tt, (tt, (omega arith, (tt, (tt, tt)))))

five-Within : Within five (range 10 3) []
unfolding Within
five-Within = (omega arith, (omega arith, (tt, (omega arith, (omega arith, tt)))))

empty-Shows : Shows empty_list 70 false
unfolding empty_list
empty-Shows = record { header = refl; rear = refl }

run-Within_example :
    (q : Pool.Pool) × (Pool.init_pool (some 70) (some 10) 3 new_pool ≡ some q)
    × (let (os, q') = Pool.Sessions.run none none five q in
        let (os', xs, us) = run_items false five (range 10 3) [] in
        (os ≡ os')
        × ((a : ℕ) → count a xs + count a us ≡ (if leb 10 a && ltb a 13 then 1 else 0))
        × (q'.free_nr ≡ length xs)
        × Shows q'.using_blocks 70 (not (none_left xs))
        × Shows q'.full_blocks 70 (none_left xs))
run-Within_example =
    run-Within none none new_pool 70 10 3 five empty-Shows empty-Shows (omega arith) (omega arith)
      five-Allowed five-Within

-- Block 71 has given out its two items and has got one of them back.
abbrev grown : Pool.Pool
grown = record new_pool {
  using_blocks = record { header = some 70; rear = some 70; size = 1 };
  full_blocks = record { header = some 71; rear = some 71; size = 1 };
  main_block = some 70;
  init_size = 3;
  free_nr = 2;
  blocks = λ b. record { pools = some 20; free = some 20; size = 2; nr_free = 1 };
  in_full = λ b. b == 71;
}

put_recycled-loses_example :
    let q = Pool.put_recycled 71 grown in
    ((q.links 70).next ≡ some 71)
    × (q.using_blocks.rear ≡ some 70)
    × ((xs : List ℕ) → ¬ Holds q.using_blocks q.links xs)
unfolding MemBlock.can_recycle
put_recycled-loses_example =
    put_recycled-loses grown 70 71 refl (record { header = refl; rear = refl }) refl (omega arith)
      refl
