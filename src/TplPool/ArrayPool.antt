-- ===== src/TplPool/ArrayPool.antt =====
-- `TplArrayPool` (Public/TPL/include/TplPool.h): an array of nodes, of which the free ones are in a
-- list. A node is its index in `m_pPool`; `belongs` says whether its `m_pListBelongsTo` is the list of
-- the pool, and not null.
pub mod Sessions
use zephyr_server.Common.{
  ℕ, zero, suc, ◌+◌, ◌%◌, Bool, true, false, not, Option, none, some, ◌==◌, if◌then◌else◌, add32,
  sub32,
}
use zephyr_server.TplList.{Heap, CList, empty_list, pop_front, push_back, detach_from}

pub record ArrayPool : Type 0 where
  pub max_size : ℕ
  pub used_size : ℕ
  pub free : CList
  pub belongs : ℕ → Bool
  pub links : Heap

abbrev pub set_belongs : ℕ → Bool → (ℕ → Bool) → ℕ → Bool
set_belongs a v f = λ b. if b == a then v else f b

-- `InitInPoolList` and `push_back` for `count` nodes from `i` on.
unfoldable pub fill : ℕ → ℕ → ArrayPool → ArrayPool
fill i zero p = p
fill i (suc count) p =
    let (free', links') = push_back i p.free p.links in
    fill (suc i) count
      (record p { free = free'; belongs = set_belongs i true p.belongs; links = links' })

-- The links of new nodes are null.
abbrev pub new_array_pool : ArrayPool
new_array_pool = record {
  max_size = 0;
  used_size = 0;
  free = empty_list;
  belongs = λ b. false;
  links = λ b. record { prev = none; next = none };
}

-- `InitPool` on a new pool, where `new` succeeds.
pub init_pool : ℕ → ArrayPool
unfolding fill
init_pool n = let filled = fill 0 n new_array_pool in record filled { max_size = n; used_size = 0 }

pub taken : Option ℕ → ArrayPool → ArrayPool
taken none p = p
taken (some r) p = record p {
  used_size = add32 p.used_size 1;
  belongs = set_belongs r false p.belongs;
}

-- `GetMem`
pub get_mem : ArrayPool → Option ℕ × ArrayPool
unfolding taken
get_mem p =
    let (o, free', links') = pop_front p.free p.links in
    (o, taken o (record p { free = free'; links = links' }))

-- `FindMem`, and the test of `FindUsedMem`.
pub find_mem : ArrayPool → ℕ → ℕ
find_mem p idx = idx % p.max_size

pub find_used_mem : ArrayPool → ℕ → Option ℕ
find_used_mem p idx = let i = idx % p.max_size in if p.belongs i then none else some i

-- `ReleaseMem`
pub release_mem : ℕ → ArrayPool → ArrayPool
release_mem r p =
    let (free', links') = if p.belongs r then detach_from p.free r p.links else (p.free, p.links) in
    let (free'', links'') = push_back r free' links' in
    record p {
      used_size = sub32 p.used_size 1;
      free = free'';
      belongs = set_belongs r true p.belongs;
      links = links'';
    }
