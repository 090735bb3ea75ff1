-- ===== src/Timer/Users.antt =====
-- `SetTimer` and `KillTimer` against the queue, also from within a callback.
use zephyr_server.Common.{
  ℕ, ◌+◌, ◌%◌, ◌^◌, ◌≡◌, ◌≢◌, ◌⊎◌, refl, sym, ap, ap₂, ◌∙◌, subst, inl, inr, Bool, true, false,
  Option, none, some, List, [], ◌∷◌, map, ◌==◌, ==_iff, if◌then◌else◌, arith,
}
use mathlib.Core.Option.{some-injective}
use zephyr_server.TplMap.{Item}
use zephyr_server.TplMap.Order.{to_list}
use zephyr_server.TplMap.Lists.{Foreign, find_item}
use zephyr_server.TplMultiMap.{Sibling, Group, Code, MultiMap, find_sibling, with_tree}
use zephyr_server.TplMultiMap.Entries.{insert_entry, erase_entry}
use zephyr_server.TplMultiMap.Add.{Distinct, items, Valid}
use zephyr_server.TplMultiMap.Erase.{Has, erase_entry-gone}
use zephyr_server.TplMultiMap.Remove.{Reachable, Reachable-Has, items-remove_from_tree_item}
use zephyr_server.TplMultiMap.Orphans.{remove_tree_node-orphans}
use zephyr_server.Timer.{
  Scheduler, ℤ, clean, stop, write_at, Pool, Timer, set_with, set_timer, kill_timer, repeats,
  with_running, round,
}
use zephyr_server.Timer.Rounds.{put_back, add_back}
use zephyr_server.Timer.Due.{round_first}
use zephyr_server.Timer.Writes.{written, items-write_at, write_node-Foreign, write_at-Valid}

-- The node that `SetTimer` makes.
abbrev pub timer_at : ℕ → ℕ → ℤ → ℕ → ℕ → Item Scheduler
timer_at a gap repeat_time scheduler now = record {
  addr = a;
  key = (now + gap) % 2 ^ 64;
  item = record { scheduler = scheduler; gap = gap; repeat_time = repeat_time };
}

map-written-Foreign :
    (a : ℕ) (f : Item Scheduler → Item Scheduler) (xs : List (Item Scheduler))
    → Foreign a xs
    → map (written a f) xs ≡ xs
map-written-Foreign a f [] h = refl
map-written-Foreign a f (x ∷ xs) h =
    let other : (x.addr == a) ≡ false = ground (arith, h.0) in
    ap₂ ◌∷◌ (ap (λ b. if b then f x else x) other) (map-written-Foreign a f xs h.1)

stop-same : (x : Item Scheduler) → ((stop x).key ≡ x.key) × ((stop x).addr ≡ x.addr)
unfolding stop
stop-same x = (refl, refl)

put_back-stop : (x : Item Scheduler) (rest : List (Item Scheduler)) → put_back (stop x) rest ≡ rest
unfolding put_back stop repeats
put_back-stop x rest = refl

-- A node with this address is in the queue.
abbrev pub HasAddr : ℕ → List (Item Scheduler) → Type 0
HasAddr a [] = ⊥
HasAddr a (x ∷ xs) = (x.addr ≡ a) ⊎ HasAddr a xs

Has-HasAddr :
    (y : Item Scheduler) (a : ℕ) (xs : List (Item Scheduler))
    → Has y xs
    → HasAddr y.addr (map (written a clean) xs)
Has-HasAddr y a (x ∷ xs) (inl e) = inl (same x (x.addr == a) ∙ e.1)
  where
    same : (i : Item Scheduler) (b : Bool) → (if b then clean i else i).addr ≡ i.addr
    same i true = unfold clean in refl
    same i false = refl
Has-HasAddr y a (x ∷ xs) (inr h) = inr (Has-HasAddr y a xs h)
Has-HasAddr y a [] h = h

module _ {P : Type 0} (p : Pool P) where
  -- `SetTimer` on a valid queue, where the pool gives a node that no map holds, returns that node: it is in
  -- the queue, due after the gap, and second among those that are due at the same time. The queue is valid.
  pub items-set_timer :
      (gap : ℕ) (repeat_time : ℤ) (scheduler now : ℕ) (t : Timer P) (a : ℕ) (pool : P)
      → Valid t.map
      → p.get_mem t.pool ≡ (some a, pool)
      → t.map.holder a ≡ 0
      → (m : MultiMap Scheduler) × (set_timer p gap repeat_time scheduler now t
          ≡ some (some a, record { pool = pool; map = m; running = t.running }))
        × (items m ≡ insert_entry (timer_at a gap repeat_time scheduler now) (items t.map))
        × Valid m
  unfolding set_timer set_with
  items-set_timer gap repeat_time scheduler now t a pool v got free =
      let (m, c, made, list, v') =
        add_back (timer_at a gap repeat_time scheduler now) t.map v free in
      rw (got, made) (m, refl, list, v')

  -- `KillTimer` of a timer that is not running and can be reached in a valid queue takes it out, gives its
  -- node back to the pool and returns its scheduler; the others stay as they are, and the queue is valid.
  pub items-kill_timer :
      (x : Item Scheduler) (t : Timer P) (z : Item (Group Scheduler))
      → x.addr ≢ t.running
      → Valid t.map
      → find_item (to_list t.map.tree) x.key ≡ some z
      → Reachable x z
      → (m : MultiMap Scheduler) × (kill_timer p x t
          ≡ some (
            some x.item.scheduler,
            record { pool = p.release_mem x.addr t.pool; map = m; running = t.running },
          ))
        × (items m ≡ erase_entry x (items t.map))
        × Valid m
  unfolding kill_timer write_at
  items-kill_timer x t z idle v found way =
      let (m, made, list, this, holder, v') = items-remove_from_tree_item x t.map z v found way in
      let gone : Foreign x.addr (items m) = subst (Foreign x.addr) (sym list) (
        erase_entry-gone x (items t.map) v.distinct
          (Reachable-Has x t.map.tree z v.proper found way)) in
      let other : (x.addr == t.running) ≡ false = ground (arith, idle) in
      rw (other, made, write_node-Foreign x.addr clean m.tree gone) (m, refl, list, v')

  -- `KillTimer` of the running timer, first in a valid queue.
  kill_running :
      (x : Item Scheduler) (rest : List (Item Scheduler)) (t : Timer P)
      → x.addr ≡ t.running
      → Valid t.map
      → items t.map ≡ x ∷ rest
      → (m : MultiMap Scheduler) × (kill_timer p x t
          ≡ some (none, record { pool = t.pool; map = m; running = t.running }))
        × (items m ≡ stop x ∷ rest)
        × Valid m
  unfolding kill_timer
  kill_running x rest t run v e =
      let d = (subst Distinct e v.distinct).0 in
      let self : (x.addr == x.addr) ≡ true = (==_iff x.addr x.addr).1 refl in
      rw ((==_iff x.addr t.running).1 run) (
        _,
        refl,
        items-write_at x.addr stop t.map
            ∙ ap (map (written x.addr stop)) e
            ∙ ap₂ ◌∷◌ (ap (λ b. if b then stop x else x) self)
                (map-written-Foreign x.addr stop rest d),
        write_at-Valid x.addr stop stop-same t.map v,
      )

  -- A timer that its own callback kills is not called again, however often it was to be repeated: after the
  -- round it is gone from the queue, which else is as it was, and `KillTimer` ends without a `return`.
  pub kill_itself :
      {W : Type 0} (on_scheduler : Item Scheduler → ℕ → Timer P × W → Timer P × W) (now : ℕ)
      (x : Item Scheduler) (rest : List (Item Scheduler)) (t t1 : Timer P) (w : W)
      (answer : Option ℕ)
      → Valid t.map
      → items t.map ≡ x ∷ rest
      → kill_timer p x (with_running x.addr t) ≡ some (answer, t1)
      → (on_scheduler x now (with_running x.addr t, w)).0 ≡ t1
      → (t' : Timer P) × (w' : W) × (round p on_scheduler now x (t, w) ≡ some (t', w'))
        × (items t'.map ≡ rest)
        × (answer ≡ none)
        × Valid t'.map
  kill_itself on_scheduler now x rest t t1 w answer v e killed called =
      let (m, made, list, v1) = kill_running x rest (with_running x.addr t) refl v e in
      let both = some-injective _ _ (sym made ∙ killed) in
      let same : m ≡ (on_scheduler x now (with_running x.addr t, w)).0.map =
        ap (λ (o : Option ℕ × Timer P). o.1.map) both ∙ ap (λ (u : Timer P). u.map) (sym called) in
      let (t', w', ran, left, v') =
        round_first p on_scheduler now x (stop x) rest t w (subst Valid same v1)
          (ap items (sym same) ∙ list) (stop-same x).1 in
      (
        t',
        w',
        ran,
        left ∙ put_back-stop x rest,
        ap (λ (o : Option ℕ × Timer P). o.0) (sym both),
        v',
      )

  -- Three or more timers stand in a valid queue for the same time, and none of them is running. `KillTimer`
  -- of the one that is the node of the tree, and then of one other than the first of its siblings: both calls
  -- return as if the timer were killed, and both nodes go back to the pool, but the second node is still in
  -- the queue.
  pub kill_orphan :
      (t : Timer P) (y : Item Scheduler) (x : Item (Group Scheduler)) (s u : Sibling Scheduler)
      (ss : List (Sibling Scheduler))
      → Valid t.map
      → find_item (to_list t.map.tree) y.key ≡ some x
      → x.addr ≡ y.addr
      → x.item.siblings ≡ s ∷ ss
      → find_sibling u.self.addr ss ≡ some u
      → u.self.key ≡ y.key
      → u.parent ≡ x.addr
      → y.addr ≢ t.running
      → u.self.addr ≢ t.running
      → (t' t'' : Timer P) × (kill_timer p y t ≡ some (some y.item.scheduler, t'))
        × (kill_timer p u.self t' ≡ some (some u.self.item.scheduler, t''))
        × (t''.pool ≡ p.release_mem u.self.addr (p.release_mem y.addr t.pool))
        × HasAddr u.self.addr (items t''.map)
  unfolding kill_timer
  kill_orphan t y x s u ss v found at siblings second key parent idle idle' =
      let (m', m'', made, refused, tree, still, _) =
        remove_tree_node-orphans y t.map x s u ss v found at siblings second key parent in
      let (m, made', list, _, _, _) = items-remove_from_tree_item y t.map x v found (inl at) in
      let same : m ≡ m' =
        ap (λ (o : Code × MultiMap Scheduler). o.1) (some-injective _ _ (sym made' ∙ made)) in
      let gone : Foreign y.addr (items m') =
        subst (λ n. Foreign y.addr (items n)) same
          (subst (Foreign y.addr) (sym list) (
            erase_entry-gone y (items t.map) v.distinct
              (Reachable-Has y t.map.tree x v.proper found (inl at)))) in
      let other : (y.addr == t.running) ≡ false = ground (arith, idle) in
      let other' : (u.self.addr == t.running) ≡ false = ground (arith, idle') in
      let nothing : write_at y.addr clean m' ≡ m' =
        unfold write_at in
        ap (λ z. with_tree z m'.holder m') (write_node-Foreign y.addr clean m'.tree gone) in
      let t' : Timer P = record {
        pool = p.release_mem y.addr t.pool;
        map = m';
        running = t.running;
      } in
      (
        t',
        record {
          pool = p.release_mem u.self.addr (p.release_mem y.addr t.pool);
          map = write_at u.self.addr clean m'';
          running = t.running;
        },
        rw (other, made, nothing) refl,
        rw (other', refused) refl,
        refl,
        subst (HasAddr u.self.addr) (sym (items-write_at u.self.addr clean m''))
            (Has-HasAddr u.self u.self.addr (items m'') still),
      )
