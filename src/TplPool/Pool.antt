-- ===== src/TplPool/Pool.antt =====
-- `CPool` (Public/TPL/include/TplPool.h) in the release build and without MEM_FIRST: blocks of items in
-- two lists. A block is its address, and so is an item; `in_full` says which of the two lists the
-- `m_pBelongsTo` of a block is, and `owner` is the `m_pBelongsTo` of an item. A deleted block is one
-- that nothing points to any more.
pub mod Places
pub mod Steps
pub mod Sessions
pub mod Recycling
use zephyr_server.Common.{
  ℕ, zero, suc, ◌+◌, ◌-◌, ◌/◌, Bool, true, false, not, ◌&&◌, Option, none, some, ltb, leb, ◌==◌,
  if◌then◌else◌, ◌>>=◌, add32, sub32, above_signed,
}
use zephyr_server.TplList.{
  Heap, CList, empty_list, same, insert_node, push_front, push_back, detach_from,
}
use zephyr_server.TplPool.MemBlock.{Nexts, MemBlock, new_mem_block, is_empty, can_recycle}
use zephyr_server.TplPool.MemBlock

pub record Pool : Type 0 where
  pub using_blocks : CList
  pub full_blocks : CList
  pub links : Heap
  pub main_block : Option ℕ
  pub init_size : ℕ
  pub free_nr : ℕ
  pub blocks : ℕ → MemBlock
  pub in_full : ℕ → Bool
  pub nexts : Nexts
  pub owner : ℕ → ℕ

abbrev pub set_block : ℕ → MemBlock → (ℕ → MemBlock) → ℕ → MemBlock
set_block a v f = λ b. if b == a then v else f b

abbrev pub set_in_full : ℕ → Bool → (ℕ → Bool) → ℕ → Bool
set_in_full a v f = λ b. if b == a then v else f b

-- `m_pBelongsTo->Detach(pBlock)`
pub detach_block : ℕ → Pool → Pool
detach_block b p =
    let (full, links) = detach_from p.full_blocks b p.links in
    let (using_, links') = detach_from p.using_blocks b p.links in
    if p.in_full b
    then record p { full_blocks = full; links = links }
    else record p { using_blocks = using_; links = links' }

-- `push_front` and `push_back` of a block, with the store to its `m_pBelongsTo`.
pub to_full : ℕ → Pool → Pool
to_full b p =
    let (l, h) = push_front b p.full_blocks p.links in
    record p { full_blocks = l; links = h; in_full = set_in_full b true p.in_full }

pub to_using : ℕ → Pool → Pool
to_using b p =
    let (l, h) = push_front b p.using_blocks p.links in
    record p { using_blocks = l; links = h; in_full = set_in_full b false p.in_full }

pub to_using_back : ℕ → Pool → Pool
to_using_back b p =
    let (l, h) = push_back b p.using_blocks p.links in
    record p { using_blocks = l; links = h; in_full = set_in_full b false p.in_full }

-- `Init` of a block for the pool, with none for `OUT_OF_MEM`: the items get their owner.
pub init_block : ℕ → Option ℕ → ℕ → Pool → Option Pool
init_block b new_items n p =
    let (o, block, nexts) = MemBlock.init new_items n (p.blocks b) p.nexts in
    owned o block.pools (record p {
      blocks = set_block b block p.blocks;
      in_full = set_in_full b false p.in_full;
      nexts = nexts;
    })
  where
    owned : Option ℕ → Option ℕ → Pool → Option Pool
    owned none at q = none
    owned (some k) none q = none
    owned (some k) (some at) q =
        some (record q { owner = λ a. if leb at a && ltb a (at + n) then b else q.owner a })

-- `InitPool`, where `new` gives a block, or none.
pub init_pool : Option ℕ → Option ℕ → ℕ → Pool → Option Pool
unfolding to_using_back init_block
init_pool none new_items n p = none
init_pool (some b) new_items n p =
    let fresh = record p { blocks = set_block b new_mem_block p.blocks } in
    init_block b new_items n fresh >>= λ q.
    some (record (to_using_back b q) { main_block = some b; init_size = n; free_nr = n })

-- `OnBlockUsed`
pub on_block_used : ℕ → Pool → Pool
unfolding to_full detach_block
on_block_used b p = if is_empty (p.blocks b) then to_full b (detach_block b p) else p

-- `m_pMainBlock->InsertNode(pBlock)`, with the store to `m_pBelongsTo`.
pub insert_from : Option ℕ → ℕ → Pool → Pool
insert_from none b q = q
insert_from (some main) b q = record q {
  links = insert_node main (some b) q.links;
  in_full = set_in_full b false q.in_full;
}

-- `OnBlockRecycled`: its first part, the second by the rear of the list, and both.
pub put_recycled : ℕ → Pool → Pool
unfolding to_using to_using_back detach_block insert_from
put_recycled b p =
    let out = detach_block b p in
    let after = insert_from p.main_block b out in
    if not (same (some b) p.main_block)
    then (if can_recycle (p.blocks b)
        then to_using_back b out
        else if p.in_full b
        then (if same p.main_block out.using_blocks.header then after else to_using b out)
        else p)
    else if p.in_full b
    then to_using b out
    else p

pub drop_rear : Option ℕ → Pool → Pool
drop_rear none p = p
drop_rear (some rear) p =
    let (l, h) = detach_from p.using_blocks rear p.links in
    if above_signed p.free_nr p.init_size
      && not (same (some rear) p.main_block)
      && can_recycle (p.blocks rear)
    then record p { using_blocks = l; links = h; free_nr = sub32 p.free_nr (p.blocks rear).size }
    else p

pub on_block_recycled : ℕ → Pool → Pool
unfolding put_recycled drop_rear
on_block_recycled b p = let q = put_recycled b p in drop_rear q.using_blocks.rear q

-- What `GetMem` does after `Init` of the block; `p` is the pool where that fails.
pub get_from : ℕ → Option Pool → Pool → Option ℕ × Pool
unfolding to_using_back
get_from b none p = (none, p)
get_from b (some q) p =
    let listed = to_using_back b q in
    let (o, block, nexts) = MemBlock.get_mem (listed.blocks b) listed.nexts in
    (
      o,
      record listed {
        blocks = set_block b block listed.blocks;
        nexts = nexts;
        free_nr = sub32 (add32 listed.free_nr (listed.blocks b).nr_free) 1;
      },
    )

-- `GetMem`: the part that makes a new block, where `pBlock` still is `old` if `new` throws.
pub get_new : Option ℕ → Option ℕ → Option ℕ → Pool → Option ℕ × Pool
unfolding get_from init_block
get_new none none new_items p = (none, p)
get_new (some old) none new_items p =
    get_from old (init_block old new_items (p.init_size / 2 + 1) p) p
get_new old (some b) new_items p =
    let fresh = record p { blocks = set_block b new_mem_block p.blocks } in
    get_from b (init_block b new_items (p.init_size / 2 + 1) fresh) p

-- `GetMem`, by the header and by what the block there gives, with what `new` gives for a block and for
-- its items.
pub get_used : Option ℕ → ℕ → Option ℕ → Option ℕ → Pool → Option ℕ × Pool
unfolding on_block_used get_new
get_used none b new_block new_items p = get_new (some b) new_block new_items (on_block_used b p)
get_used (some r) b new_block new_items p =
    let q = on_block_used b p in (some r, record q { free_nr = sub32 q.free_nr 1 })

pub get_by : Option ℕ → Option ℕ → Option ℕ → Pool → Option ℕ × Pool
unfolding get_new get_used
get_by none new_block new_items p = get_new none new_block new_items p
get_by (some b) new_block new_items p =
    let (o, block, nexts) = MemBlock.get_mem (p.blocks b) p.nexts in
    get_used o b new_block new_items
      (record p { blocks = set_block b block p.blocks; nexts = nexts })

pub get_mem : Option ℕ → Option ℕ → Pool → Option ℕ × Pool
unfolding get_by
get_mem new_block new_items p = get_by p.using_blocks.header new_block new_items p

-- `ReleaseMem`, by the block that the item belongs to.
pub release_to : ℕ → ℕ → Pool → Pool
unfolding on_block_recycled
release_to b r p =
    let (block, nexts) = MemBlock.release_mem r (p.blocks b) p.nexts in
    on_block_recycled b
      (record p { blocks = set_block b block p.blocks; nexts = nexts; free_nr = add32 p.free_nr 1 })

pub release_mem : ℕ → Pool → Pool
unfolding release_to
release_mem r p = release_to (p.owner r) r p
