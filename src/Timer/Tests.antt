-- ===== src/Timer/Tests.antt =====
-- The timers at concrete times: three that are due at 10, and one that is repeated.
use zephyr_server.Common.{
  ℕ, ◌+◌, ◌≤◌, ◌≡◌, ◌⊎◌, refl, inl, Option, none, some, List, [], ◌∷◌, map, ltb, if◌then◌else◌,
  length, arith,
}
use zephyr_server.TplMap.{Item, null, node}
use zephyr_server.TplMap.Order.{to_list}
use zephyr_server.TplMap.Lists.{find_item}
use zephyr_server.TplMultiMap.{Sibling, Group, MultiMap, find_sibling, head_of}
use zephyr_server.TplMultiMap.Entries.{insert_entry, erase_entry}
use zephyr_server.TplMultiMap.Add.{items, Valid}
use zephyr_server.TplMultiMap.Queue.{AtLeast, Ascending}
use zephyr_server.Timer.{
  Scheduler, ℤ, pos, Pool, Timer, set_timer, kill_timer, round, run, with_running, write_at,
  write_node, write_item, write_siblings, stop,
}
use zephyr_server.Timer.Rounds.{Due, run_settles}
use zephyr_server.Timer.Due.{fire, Quiet, Quiet-Behaves, run-fire}
use zephyr_server.Timer.Order.{run_in_order, run_repeats}
use zephyr_server.Timer.Users.{
  timer_at, HasAddr, items-set_timer, items-kill_timer, kill_itself, kill_orphan,
}

-- A pool that gives addresses from 50 on and counts what comes back.
abbrev counting : Pool (ℕ × ℕ)
counting = record {
  get_mem = λ c. (some (50 + c.0), (c.0 + 1, c.1));
  release_mem = λ a c. (c.0, c.1 + 1);
}

abbrev scheduler_of : ℤ → Scheduler
scheduler_of n = record { scheduler = 900; gap = 5; repeat_time = n }

abbrev timer : ℕ → ℤ → Item Scheduler
timer a n = record { addr = a; key = 10; item = scheduler_of n }

abbrev sibling : ℕ → ℕ → Sibling Scheduler
sibling a n = record { self = timer a (pos 0); parent = 1; node_size = n }

abbrev node_of : List (Sibling Scheduler) → ℤ → Item (Group Scheduler)
node_of ss n = record {
  addr = 1;
  key = 10;
  item = record { payload = scheduler_of n; siblings = ss };
}

abbrev timer_of : List (Sibling Scheduler) → ℤ → Timer (ℕ × ℕ)
timer_of ss n = record {
  pool = (0, 0);
  map = record {
    this = 77;
    tree = node null (node_of ss n) 0 null;
    holder = λ a. if ltb a 5 then 77 else 0;
  };
  running = 0;
}

abbrev three : List (Sibling Scheduler)
three = sibling 3 2 ∷ sibling 2 0 ∷ []

three-Valid : Valid (timer_of three (pos 0)).map
unfolding head_of
three-Valid = record {
  keeps = record { sized = omega arith; sorted = omega arith };
  proper = omega arith;
  held = (refl, (refl, (refl, tt)));
  distinct = omega arith;
  here = omega arith;
}

one-Valid : (n : ℤ) → Valid (timer_of [] n).map
unfolding head_of
one-Valid n = record {
  keeps = record { sized = omega arith; sorted = omega arith };
  proper = (tt, tt);
  held = (refl, tt);
  distinct = (tt, tt);
  here = omega arith;
}

find_one : find_item (to_list (timer_of three (pos 0)).map.tree) 10 ≡ some (node_of three (pos 0))
unfolding find_item
find_one = refl

-- A callback that counts the calls.
abbrev count_call : Item Scheduler → ℕ → Timer (ℕ × ℕ) × ℕ → Timer (ℕ × ℕ) × ℕ
count_call x now s = (s.0, s.1 + 1)

count_call-Quiet : Quiet counting count_call
count_call-Quiet x now t w = refl

run_settles_example :
    (calls : List (Item Scheduler)) × (s' : Timer (ℕ × ℕ) × ℕ) × (run counting count_call 12
        (timer_of three (pos 0), 0)
      ≡ some (calls, s'))
    × (length calls ≤ 10001)
    × Due 12 calls
    × ((length calls ≡ 10001) ⊎ AtLeast 12 (items s'.0.map))
    × Valid s'.0.map
run_settles_example =
    run_settles counting count_call 12 (timer_of three (pos 0)) 0
      (Quiet-Behaves counting count_call count_call-Quiet) three-Valid

run-fire_example :
    (calls : List (Item Scheduler)) × (t' : Timer (ℕ × ℕ)) × (w' : ℕ) × (run counting count_call 12
        (timer_of three (pos 0), 0)
      ≡ some (calls, (t', w')))
    × ((calls, items t'.map) ≡ fire 10001 12 (items (timer_of three (pos 0)).map))
    × Valid t'.map
run-fire_example =
    run-fire counting count_call 12 (timer_of three (pos 0)) 0 count_call-Quiet three-Valid

run_in_order_example :
    (calls : List (Item Scheduler)) × (s' : Timer (ℕ × ℕ) × ℕ) × (run counting count_call 12
        (timer_of three (pos 0), 0)
      ≡ some (calls, s'))
    × Ascending calls
unfolding head_of
run_in_order_example =
    run_in_order counting count_call 12 (timer_of three (pos 0)) 0 count_call-Quiet three-Valid
      (omega arith) (omega arith)

run_repeats_example :
    (calls : List (Item Scheduler)) × (t' : Timer (ℕ × ℕ)) × (w' : ℕ) × (run counting count_call 21
        (timer_of [] (pos 2), 0)
      ≡ some (calls, (t', w')))
    × (map (λ x. x.key) calls ≡ 10 ∷ 15 ∷ 20 ∷ [])
    × (items t'.map ≡ [])
unfolding head_of
run_repeats_example =
    run_repeats counting count_call 21 2 (timer_of [] (pos 2)) 0 (timer 1 (pos 2)) count_call-Quiet
      (one-Valid (pos 2)) refl refl (omega arith) (omega arith) (omega arith)

items-set_timer_example :
    (m : MultiMap Scheduler) × (set_timer counting 5 (pos 0) 900 7 (timer_of three (pos 0))
      ≡ some (some 50, record { pool = (1, 0); map = m; running = 0 }))
    × (items m ≡ insert_entry (timer_at 50 5 (pos 0) 900 7) (items (timer_of three (pos 0)).map))
    × Valid m
items-set_timer_example =
    items-set_timer counting 5 (pos 0) 900 7 (timer_of three (pos 0)) 50 (1, 0) three-Valid refl
      refl

items-kill_timer_example :
    (m : MultiMap Scheduler) × (kill_timer counting (timer 1 (pos 0)) (timer_of three (pos 0))
      ≡ some (some 900, record { pool = (0, 1); map = m; running = 0 }))
    × (items m ≡ erase_entry (timer 1 (pos 0)) (items (timer_of three (pos 0)).map))
    × Valid m
items-kill_timer_example =
    items-kill_timer counting (timer 1 (pos 0)) (timer_of three (pos 0)) (node_of three (pos 0))
      (omega arith) three-Valid find_one (inl refl)

kill_orphan_example :
    (t' t'' : Timer (ℕ × ℕ)) × (kill_timer counting (timer 1 (pos 0)) (timer_of three (pos 0))
      ≡ some (some 900, t'))
    × (kill_timer counting (timer 2 (pos 0)) t' ≡ some (some 900, t''))
    × (t''.pool ≡ (0, 2))
    × HasAddr 2 (items t''.map)
unfolding find_sibling
kill_orphan_example =
    kill_orphan counting (timer_of three (pos 0)) (timer 1 (pos 0)) (node_of three (pos 0))
      (sibling 3 2) (sibling 2 0) (sibling 2 0 ∷ []) three-Valid find_one refl refl refl refl refl
      (omega arith) (omega arith)

-- What `KillTimer` of the running timer leaves.
abbrev killed : Timer (ℕ × ℕ)
killed = with_running 1 (timer_of [] (pos 0))

-- A callback that kills its own timer.
abbrev kill_own : Item Scheduler → ℕ → Timer (ℕ × ℕ) × ℕ → Timer (ℕ × ℕ) × ℕ
kill_own x now s = (killed, s.1)

kill_own_answer :
    kill_timer counting (timer 1 (pos 7)) (with_running 1 (timer_of [] (pos 7)))
    ≡ some (none, killed)
unfolding kill_timer write_at write_node write_item write_siblings stop
kill_own_answer = refl

kill_itself_example :
    (t' : Timer (ℕ × ℕ)) × (w' : ℕ) × (round counting kill_own 12
        (timer 1 (pos 7))
        (timer_of [] (pos 7), 0)
      ≡ some (t', w'))
    × (items t'.map ≡ [])
    × (◌≡◌ {A = Option ℕ} none none)
    × Valid t'.map
unfolding head_of
kill_itself_example =
    kill_itself counting kill_own 12 (timer 1 (pos 7)) [] (timer_of [] (pos 7)) killed 0 none
      (one-Valid (pos 7)) refl kill_own_answer refl
