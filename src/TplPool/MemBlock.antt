-- ===== src/TplPool/MemBlock.antt =====
-- `CPool::CMemBlock` (Public/TPL/include/TplPool.h) in the release build and without MEM_FIRST. An item
-- is its address, counted in items; `m_pMemPoolNext` of all items is a function from addresses.
pub mod Sessions
use zephyr_server.Common.{
  ℕ, zero, suc, ◌+◌, ◌-◌, Bool, Option, none, some, ◌==◌, if◌then◌else◌, add32, sub32,
}

abbrev pub Nexts : Type 0
Nexts = ℕ → Option ℕ

abbrev pub set_pool_next : ℕ → Option ℕ → Nexts → Nexts
set_pool_next a v h = λ b. if b == a then v else h b

pub record MemBlock : Type 0 where
  pub pools : Option ℕ
  pub free : Option ℕ
  pub size : ℕ
  pub nr_free : ℕ

-- `CMemBlock()`
pub new_mem_block : MemBlock
new_mem_block = record { pools = none; free = none; size = 0; nr_free = 0 }

-- The loop of `Init` over `count` items from `at` on.
unfoldable pub link_items : ℕ → ℕ → Nexts → Nexts
link_items at zero h = h
link_items at (suc count) h = link_items (suc at) count (set_pool_next at (some (suc at)) h)

-- `Init`, by `m_pPools` after `new`, and where `new` gives the address of `n` items or throws: with none
-- for `OUT_OF_MEM`.
unfoldable pub init_at : Option ℕ → ℕ → MemBlock → Nexts → Option ℕ × MemBlock × Nexts
unfolding link_items
init_at none n b h = (none, b, h)
init_at (some at) n b h = (
  some n,
  record { pools = some at; free = some at; size = n; nr_free = n },
  set_pool_next (at + n - 1) none (link_items at n h),
)

unfoldable pub init : Option ℕ → ℕ → MemBlock → Nexts → Option ℕ × MemBlock × Nexts
unfolding init_at
init none n b h = init_at b.pools n b h
init (some at) n b h = init_at (some at) n b h

pub is_empty : MemBlock → Bool
is_empty b = b.nr_free == 0

unfoldable pub can_recycle : MemBlock → Bool
can_recycle b = b.nr_free == b.size

-- `GetMem`, by `m_pFree`.
pub get_mem_at : Option ℕ → MemBlock → Nexts → Option ℕ × MemBlock × Nexts
get_mem_at none b h = (none, b, h)
get_mem_at (some r) b h =
    (some r, record b { free = h r; nr_free = sub32 b.nr_free 1 }, set_pool_next r none h)

pub get_mem : MemBlock → Nexts → Option ℕ × MemBlock × Nexts
unfolding get_mem_at
get_mem b h = get_mem_at b.free b h

pub release_mem : ℕ → MemBlock → Nexts → MemBlock × Nexts
release_mem r b h =
    (record b { free = some r; nr_free = add32 b.nr_free 1 }, set_pool_next r b.free h)
