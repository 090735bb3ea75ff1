-- ===== src/Clock/Gaps.antt =====
-- The times that the clock gives against the time that has passed.
use zephyr_server.Common.{ℕ, ◌+◌, ◌-◌, ◌^◌, ◌≤◌, ◌<◌, ◌≡◌, arith}
use zephyr_server.Clock.{
  Clock, new_clock, gap_between, get_time_gap, platform_time_at, set_platform_time, add_gap, update,
  get_platform_time,
}

-- `GetTimeGap` gives the time from `last` to the clock's where the counter has not wrapped round
-- between the two, and one millisecond less than that where it has.
pub get_time_gap_lem :
    (c : Clock) (last : ℕ)
    → c.time_now < 2 ^ 32
    → last < 2 ^ 32
    → (last ≤ c.time_now → last + get_time_gap c last ≡ c.time_now)
      × (c.time_now < last → last + get_time_gap c last + 1 ≡ c.time_now + 2 ^ 32)
unfolding get_time_gap gap_between
get_time_gap_lem c last h k = (ground arith, ground arith)

-- Forward by less than 2 ^ 31 milliseconds.
gap_forward : (last now : ℕ) → last ≤ now → gap_between last now ≡ now - last
unfolding gap_between
gap_forward last now h = ground arith

add_gap_forward : (t gap : ℕ) → gap < 2 ^ 31 → t + gap < 2 ^ 64 → add_gap t gap ≡ t + gap
unfolding add_gap
add_gap_forward t gap h k = ground arith

-- What all four elements count together.
abbrev pub total : Clock → ℕ
total c = c.time0 + c.time1 + c.time2 + c.time3

-- `Update` at a time not before the last one, by less than 2 ^ 31 milliseconds, adds the time passed to
-- the element it stands at alone: it is the four elements together that count the time.
pub total-update :
    (now : ℕ) (c : Clock)
    → c.time_idx < 4
    → c.time_now ≤ now
    → now < 2 ^ 32
    → now < c.time_now + 2 ^ 31
    → total c + 2 ^ 32 < 2 ^ 64
    → let c' = update now c in
      (total c' + c.time_now ≡ total c + now) × (c'.time_idx < 4) × (c'.time_now ≡ now)
unfolding update platform_time_at set_platform_time
total-update now c i h k s t =
    let e = gap_forward c.time_now now h in
    let f = add_gap_forward (platform_time_at c c.time_idx) (gap_between c.time_now now) in
    ground (arith, e, f (omega arith))

-- After four updates of a new clock `GetPlatformTime` gives the time up to the first of them, not that
-- up to the last: each `Update` adds to the element that it added to four updates before.
pub get_platform_time_lags :
    (s a b c d : ℕ)
    → s ≤ a
    → a < 2 ^ 31
    → get_platform_time (update d (update c (update b (update a (new_clock s))))) + s ≡ a
unfolding get_platform_time platform_time_at update set_platform_time new_clock
get_platform_time_lags s a b c d h k =
    let e = gap_forward s a h in
    let f = add_gap_forward 0 (gap_between s a) (omega arith) (omega arith) in omega (arith, e, f)
