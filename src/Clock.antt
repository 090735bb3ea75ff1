-- ===== src/Clock.antt =====
-- The clock of the platform: `CClock` (Public/include/Clock.h, Public/source/Clock.cpp). The system's
-- time is an argument; `GetPlatformTime` is modelled where no `Update` runs beside it, so that its
-- second load of `m_timeIdx` gives what the first gave.
pub mod Gaps
mod Tests
use zephyr_server.Common.{
  ℕ, ◌+◌, ◌-◌, ◌%◌, ◌^◌, leb, ◌==◌, if◌then◌else◌, sub32, add32, is_negative,
}

-- The four elements of `m_nPlatformTime` are fields.
pub record Clock : Type 0 where
  pub time0 : ℕ
  pub time1 : ℕ
  pub time2 : ℕ
  pub time3 : ℕ
  pub time_idx : ℕ
  pub time_now : ℕ

-- `CClock()`
pub new_clock : ℕ → Clock
new_clock now = record { time0 = 0; time1 = 0; time2 = 0; time3 = 0; time_idx = 0; time_now = now }

-- `GetLocalTime`
pub get_local_time : Clock → ℕ
get_local_time c = c.time_now

-- The time from `last` to `now` by the counter of 32 bits: in `GetTimeGap` and in `Update`.
pub gap_between : ℕ → ℕ → ℕ
gap_between last now = if leb last now then now - last else add32 (sub32 (2 ^ 32 - 1) last) now

pub get_time_gap : Clock → ℕ → ℕ
unfolding gap_between
get_time_gap c last = gap_between last c.time_now

-- `m_nPlatformTime[i & 3]`
pub platform_time_at : Clock → ℕ → ℕ
platform_time_at c i =
    if i % 4 == 0
    then c.time0
    else if i % 4 == 1
    then c.time1
    else if i % 4 == 2
    then c.time2
    else c.time3

pub set_platform_time : Clock → ℕ → ℕ → Clock
set_platform_time c i t =
    if i % 4 == 0
    then record c { time0 = t }
    else if i % 4 == 1
    then record c { time1 = t }
    else if i % 4 == 2
    then record c { time2 = t }
    else record c { time3 = t }

-- `gap`, an `int`, added to a `TUInt64`.
pub add_gap : ℕ → ℕ → ℕ
add_gap t gap =
    if is_negative gap then (t + gap + (2 ^ 64 - 2 ^ 32)) % 2 ^ 64 else (t + gap) % 2 ^ 64

-- `Update` at the time `now`.
pub update : ℕ → Clock → Clock
unfolding gap_between platform_time_at set_platform_time add_gap
update now c =
    let t = add_gap (platform_time_at c c.time_idx) (gap_between c.time_now now) in
    let c' = set_platform_time c c.time_idx t in
    record c' { time_idx = if leb 4 (c.time_idx + 1) then 0 else c.time_idx + 1; time_now = now }

-- `GetPlatformTime`
pub get_platform_time : Clock → ℕ
unfolding platform_time_at
get_platform_time c = platform_time_at c c.time_idx
