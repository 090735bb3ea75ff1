-- ===== src/Route.antt =====
-- A route of the gateway: `CRoute` (ServiceTemplate/Service/include/Route.h), a range of service ids
-- that one address serves. `AddRoute` tests `uEnd - 1`: the range has its begin and not its end.
pub mod Ranges
mod Tests
use zephyr_server.Common.{ℕ, Bool, true, false, ltb, leb, ◌==◌, if◌then◌else◌, ◌&&◌}
use zephyr_server.Doid.{Doid, equals}

pub record Route : Type 0 where
  pub key : ℕ
  pub id_begin : ℕ
  pub id_end : ℕ
  pub priority : ℕ
  pub route_to : Doid

-- `CRoute()`, with the address that `CDoid()` leaves in place.
pub new_route : Doid → Route
new_route to = record { key = 0; id_begin = 0; id_end = 0; priority = 0; route_to = to }

-- `Merge`: the result and the route.
pub merge : Route → Route → Bool × Route
merge r new =
    let before = record r {
      id_begin = new.id_begin;
      id_end = if ltb r.id_end new.id_end then new.id_end else r.id_end;
      priority = new.priority;
    } in
    let behind = record r {
      id_end = if ltb new.id_end r.id_end then new.id_end else r.id_end;
      priority = new.priority;
    } in
    if equals r.route_to new.route_to
    then (if ltb new.id_begin r.id_begin
        then (if leb r.id_begin new.id_end then (true, before) else (false, r))
        else if leb r.id_begin new.id_end
        then (true, behind)
        else (false, r))
    else (false, r)

-- The results of `Separate`: -1, 0, 1, 2 and 3.
pub data Separated : Type 0 where
  mismatch shrunk swallowed split matched : Separated

-- `Separate`: the result, the route and what `rRmvPart` is set to.
pub separate : Route → Route → Separated × Route × Route
separate r rmv =
    let front = record r { id_end = rmv.id_begin } in
    let rest = record rmv { id_begin = rmv.id_end; id_end = r.id_end } in
    let back = record r { id_begin = rmv.id_end } in
    if equals r.route_to rmv.route_to
    then (if ltb r.id_begin rmv.id_begin
        then (if ltb rmv.id_begin r.id_end
            then (if ltb rmv.id_end r.id_end then (split, front, rest) else (shrunk, front, rmv))
            else (mismatch, r, rmv))
        else if ltb r.id_begin rmv.id_end
        then (if leb r.id_end rmv.id_end
            then (if r.id_begin == rmv.id_begin && r.id_end == rmv.id_end
                then (matched, r, rmv)
                else (swallowed, r, rmv))
            else (shrunk, back, rmv))
        else (mismatch, r, rmv))
    else (mismatch, r, rmv)
