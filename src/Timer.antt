-- ===== src/Timer.antt =====
-- The timers of Public/source/Timer.cpp and Public/include/Timer.h: `CTimer`, its queue of `CScheduler`s by
-- the time when they are due. The pool of the nodes and the callback `OnScheduler` are parameters.
pub mod Rounds
pub mod Due
pub mod Order
pub mod Writes
pub mod Users
mod Tests
use zephyr_server.Common.{
  ℕ, zero, suc, ◌+◌, ◌%◌, ◌^◌, Bool, true, false, Option, none, some, ◌>>=◌, List, [], ◌∷◌, ltb,
  ◌==◌, if◌then◌else◌,
}
use zephyr_server.TplMap.{Item, Tree, null, node}
use zephyr_server.TplMultiMap.{
  Sibling, Group, Code, MultiMap, add_in_tree, remove_from_tree_item, first, with_tree,
}
use zephyr_server.TplMultiMap.Add.{items}

-- A `TInt32`: `pos n` is n, `negsuc n` is -(n + 1).
pub data ℤ : Type 0 where
  pos negsuc : ℕ → ℤ

-- `CScheduler` without `m_nTime`, which is the key: `m_pScheduler`, `m_nGap`, `m_nRepeatTime`.
pub record Scheduler : Type 0 where
  pub scheduler : ℕ
  pub gap : ℕ
  pub repeat_time : ℤ

-- `Clean`: the key and all else.
unfoldable pub clean : Item Scheduler → Item Scheduler
clean x = record {
  addr = x.addr;
  key = 0;
  item = record { scheduler = 0; gap = 0; repeat_time = pos 0 };
}

-- `m_nRepeatTime = 0`
unfoldable pub stop : Item Scheduler → Item Scheduler
stop x = record {
  addr = x.addr;
  key = x.key;
  item = record { scheduler = x.item.scheduler; gap = x.item.gap; repeat_time = pos 0 };
}

-- A write to the node at an address, wherever in the tree it stands.
unfoldable pub write_siblings :
    ℕ → (Item Scheduler → Item Scheduler) → List (Sibling Scheduler) → List (Sibling Scheduler)
write_siblings a f [] = []
write_siblings a f (s ∷ ss) =
    record {
      self = if s.self.addr == a then f s.self else s.self;
      parent = s.parent;
      node_size = s.node_size;
    }
    ∷ write_siblings a f ss

unfoldable pub write_item :
    ℕ → (Item Scheduler → Item Scheduler) → Item (Group Scheduler) → Item (Group Scheduler)
unfolding write_siblings
write_item a f x =
    let own : Item Scheduler = record { addr = x.addr; key = x.key; item = x.item.payload } in
    let now : Item Scheduler = if x.addr == a then f own else own in
    record {
      addr = now.addr;
      key = now.key;
      item = record { payload = now.item; siblings = write_siblings a f x.item.siblings };
    }

unfoldable pub write_node :
    ℕ → (Item Scheduler → Item Scheduler) → Tree (Group Scheduler) → Tree (Group Scheduler)
unfolding write_item
write_node a f null = null
write_node a f (node l x n r) = node (write_node a f l) (write_item a f x) n (write_node a f r)

-- The node at an address, among those of the map.
unfoldable pub find_addr : ℕ → List (Item Scheduler) → Option (Item Scheduler)
find_addr a [] = none
find_addr a (x ∷ xs) = if x.addr == a then some x else find_addr a xs

-- What the timer needs of `CPool`: `GetMem` and `ReleaseMem`.
pub record Pool (P : Type 0) : Type 0 where
  pub get_mem : P → Option ℕ × P
  pub release_mem : ℕ → P → P

-- `CTimer`: `m_tPool`, `m_tMap` and `m_pRuning` (0 is null).
pub record Timer (P : Type 0) : Type 0 where
  pub pool : P
  pub map : MultiMap Scheduler
  pub running : ℕ

-- The test of `m_nRepeatTime`, and `--m_nRepeatTime` where it is positive.
unfoldable pub repeats : ℤ → Bool
repeats (pos zero) = false
repeats (pos (suc n)) = true
repeats (negsuc n) = true

unfoldable pub count_down : ℤ → ℤ
count_down (pos zero) = pos 0
count_down (pos (suc n)) = pos n
count_down (negsuc n) = negsuc n

-- A node after a call that is to be repeated: `m_nTime += m_nGap` of a `TUInt64`.
unfoldable pub again : Item Scheduler → Item Scheduler
unfolding count_down
again x = record {
  addr = x.addr;
  key = (x.key + x.item.gap) % 2 ^ 64;
  item = record {
    scheduler = x.item.scheduler;
    gap = x.item.gap;
    repeat_time = count_down x.item.repeat_time;
  };
}

-- The map after a write to the node at an address.
unfoldable pub write_at :
    ℕ → (Item Scheduler → Item Scheduler) → MultiMap Scheduler → MultiMap Scheduler
unfolding write_node
write_at a f m = with_tree (write_node a f m.tree) m.holder m

-- `m_pRuning = a`
abbrev pub with_running : {P : Type 0} → ℕ → Timer P → Timer P
with_running a t = record { pool = t.pool; map = t.map; running = a }

module _ {P : Type 0} (p : Pool P) where
  -- `SetTimer`: the node that is returned. The answer of `AddInTree` is not looked at.
  unfoldable pub set_with : Option ℕ × P → ℕ → ℤ → ℕ → ℕ → Timer P → Option (Option ℕ × Timer P)
  set_with (none, pool) gap repeat_time scheduler now t =
      some (none, record { pool = pool; map = t.map; running = t.running })
  set_with (some a, pool) gap repeat_time scheduler now t =
      add_in_tree
        (some (record {
          addr = a;
          key = (now + gap) % 2 ^ 64;
          item = record { scheduler = scheduler; gap = gap; repeat_time = repeat_time };
        }))
        t.map
      >>= λ o. some (some a, record { pool = pool; map = o.1; running = t.running })

  unfoldable pub set_timer : ℕ → ℤ → ℕ → ℕ → Timer P → Option (Option ℕ × Timer P)
  unfolding set_with
  set_timer gap repeat_time scheduler now t =
      set_with (p.get_mem t.pool) gap repeat_time scheduler now t

  -- `KillTimer` of a node; it is `none` without that where it is the running one, since the function ends
  -- there without a `return`. The answer of `RemoveFromTreeItem` is not looked at.
  unfoldable pub kill_timer : Item Scheduler → Timer P → Option (Option ℕ × Timer P)
  unfolding write_at stop clean
  kill_timer x t =
      if x.addr == t.running
      then some
          (none, record { pool = t.pool; map = write_at x.addr stop t.map; running = t.running })
      else (remove_from_tree_item x t.map >>= λ o. some (
        some x.item.scheduler,
        record {
          pool = p.release_mem x.addr t.pool;
          map = write_at x.addr clean o.1;
          running = t.running;
        },
      ))

  -- The end of a round of `Run`: the node is taken from the map, and linked again or released. It is `none`
  -- where the map does not give the node back: what is then written to a node of the tree is left out.
  unfoldable pub link_again :
      Item Scheduler → Code × MultiMap Scheduler → Timer P → Option (Timer P)
  unfolding repeats again
  link_again x (Code.success, m) t =
      if repeats x.item.repeat_time
      then (add_in_tree (some (again x)) m >>= λ o.
          some (record { pool = t.pool; map = o.1; running = t.running }))
      else some (record { pool = p.release_mem x.addr t.pool; map = m; running = t.running })
  link_again x (c, m) t = none

  unfoldable pub after_call : Option (Item Scheduler) → Timer P → Option (Timer P)
  unfolding link_again
  after_call none t = none
  after_call (some x) t = remove_from_tree_item x t.map >>= λ o. link_again x o t

  -- `Run` with the callback, which may use the timer and what else there is, a `W`.
  module _ {W : Type 0} (on_scheduler : Item Scheduler → ℕ → Timer P × W → Timer P × W) where
    -- A round: the callback of the first node, and what follows for the node as it then is.
    unfoldable pub round : ℕ → Item Scheduler → Timer P × W → Option (Timer P × W)
    unfolding find_addr after_call
    round now x (t, w) =
        let called = on_scheduler x now (with_running x.addr t, w) in
        after_call (find_addr x.addr (items called.0.map)) (with_running 0 called.0) >>= λ t'.
        some (t', called.1)

    -- The loop of `Run` by what `First` gives; `rest` is the rest of the loop.
    unfoldable pub run_at :
        (Timer P × W → Option (List (Item Scheduler) × (Timer P × W)))
        → ℕ
        → Option (Item Scheduler)
        → Timer P × W
        → Option (List (Item Scheduler) × (Timer P × W))
    unfolding round
    run_at rest now none s = some ([], s)
    run_at rest now (some x) s =
        if ltb x.key now
        then (round now x s >>= λ s'. (rest s' >>= λ r. some (x ∷ r.0, r.1)))
        else some ([], s)

    -- So many rounds at most, with the nodes that are called, whose number is `nRunCnt`.
    unfoldable pub run_rounds : ℕ → ℕ → Timer P × W → Option (List (Item Scheduler) × (Timer P × W))
    unfolding run_at
    run_rounds zero now s = some ([], s)
    run_rounds (suc left) now s = run_at (run_rounds left now) now (first s.0.map) s

    -- `Run`: the loop is left when `nRunCnt` is over 10000.
    unfoldable pub run : ℕ → Timer P × W → Option (List (Item Scheduler) × (Timer P × W))
    unfolding run_rounds
    run now s = run_rounds 10001 now s
