-- ===== src/Route/Tests.antt =====
-- Routes at concrete ranges.
use zephyr_server.Common.{ℕ, ◌≡◌, refl, ◌↔◌, true, arith}
use zephyr_server.Doid.{Doid, equals}
use zephyr_server.Doid.Order.{equals_iff}
use zephyr_server.Route.{Route, merge, split, separate}
use zephyr_server.Route.Ranges.{Serves, ServedAfter, separate-Serves}

abbrev place : Doid
place = record { obj_id = 1; srv_id = 2; virtual_ip = 3; node_id = 4 }

abbrev range : ℕ → ℕ → Route
range b e = record { key = 9; id_begin = b; id_end = e; priority = 5; route_to = place }

same-place : equals place place ≡ true
same-place = (equals_iff place place (omega arith) (omega arith)).1 refl

split-middle : separate (range 10 20) (range 12 15) ≡ (split, range 10 12, range 15 20)
unfolding separate
split-middle = rw same-place refl

merge-touching : merge (range 10 20) (range 5 10) ≡ (true, range 5 20)
unfolding merge
merge-touching = rw same-place refl

merge-apart : merge (range 10 20) (range 30 40) ≡ (true, range 10 20)
unfolding merge
merge-apart = rw same-place refl

separate-Serves_example :
    ServedAfter (separate (range 10 20) (range 12 15)) 16
    ↔ (Serves (range 10 20) 16 × ¬ Serves (range 12 15) 16)
separate-Serves_example = separate-Serves (range 10 20) (range 12 15) same-place (omega arith) 16
