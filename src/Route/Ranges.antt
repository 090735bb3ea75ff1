-- ===== src/Route/Ranges.antt =====
-- Merging and separating routes against the sets of service ids that they serve.
use zephyr_server.Common.{ℕ, ◌≤◌, ◌<◌, ◌≡◌, ◌↔◌, ◌⊎◌, true, false, arith}
use zephyr_server.Doid.{equals}
use zephyr_server.Route.{
  Route, merge, Separated, mismatch, shrunk, swallowed, split, matched, separate,
}

-- The route serves the id.
abbrev pub Serves : Route → ℕ → Type 0
Serves r id = (r.id_begin ≤ id) × (id < r.id_end)

-- The id is served after `Separate`, as its comment tells the caller to act on the result: by no route
-- where it is to delete the route, by the route and the part handed back where there are two.
pub ServedAfter : Separated × Route × Route → ℕ → Type 0
ServedAfter (mismatch, r, rest) id = Serves r id
ServedAfter (shrunk, r, rest) id = Serves r id
ServedAfter (swallowed, r, rest) id = ⊥
ServedAfter (split, r, rest) id = Serves r id ⊎ Serves rest id
ServedAfter (matched, r, rest) id = ⊥

-- After `Separate` of a part of the same address, whose end is not before its begin, exactly the ids
-- of the route outside the part are served.
pub separate-Serves :
    (r rmv : Route)
    → equals r.route_to rmv.route_to ≡ true
    → rmv.id_begin ≤ rmv.id_end
    → (id : ℕ) → ServedAfter (separate r rmv) id ↔ (Serves r id × ¬ Serves rmv id)
unfolding separate ServedAfter
separate-Serves r rmv e h id = rw e (ground arith)

-- `Separate` of a part of the same address that is not empty answers -1 exactly where the route, not
-- empty itself, shares no id with the part, and 3 exactly where the two are the same range.
pub separate-results :
    (r rmv : Route)
    → equals r.route_to rmv.route_to ≡ true
    → r.id_begin < r.id_end
    → rmv.id_begin < rmv.id_end
    → (((separate r rmv).0 ≡ mismatch) ↔ ((id : ℕ) → Serves r id → ¬ Serves rmv id))
      × (((separate r rmv).0 ≡ matched) ↔ ((r.id_begin ≡ rmv.id_begin) × (r.id_end ≡ rmv.id_end)))
unfolding separate
separate-results r rmv e h k = rw e (
  (
    (λ q id s t. ground arith),
    (λ apart. (let a = apart r.id_begin in let b = apart rmv.id_begin in ground arith)),
  ),
  ground arith,
)

-- `Merge` of a route of the same address that begins earlier succeeds exactly where no id lies between
-- the two, and then the route serves the ids of both and no other, with the new priority.
pub merge-earlier :
    (r new : Route)
    → equals r.route_to new.route_to ≡ true
    → new.id_begin < r.id_begin
    → r.id_begin ≤ r.id_end
    → let (merged, r') = merge r new in
      ((merged ≡ true) ↔ (r.id_begin ≤ new.id_end))
      × ((merged ≡ true)
          → (r'.priority ≡ new.priority)
            × ((id : ℕ) → Serves r' id ↔ (Serves r id ⊎ Serves new id)))
      × ((merged ≡ false) → r' ≡ r)
unfolding merge
merge-earlier r new e h k = rw e (ground arith)

-- `Merge` of a route of the same address that does not begin earlier and ends behind the begin of this
-- one always succeeds, also where ids lie between the two; no id of the new route that was not served
-- before is served then, and those of this route from the end of the new one on are lost.
pub merge-later_loses :
    (r new : Route)
    → equals r.route_to new.route_to ≡ true
    → r.id_begin ≤ new.id_begin
    → new.id_begin ≤ new.id_end
    → let (merged, r') = merge r new in
      (merged ≡ true) × ((id : ℕ) → Serves r' id ↔ (Serves r id × (id < new.id_end)))
unfolding merge
merge-later_loses r new e h k = rw e (ground arith)
