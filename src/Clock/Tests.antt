-- ===== src/Clock/Tests.antt =====
-- The clock at concrete times.
use zephyr_server.Common.{◌≡◌, refl}
use zephyr_server.Clock.{Clock, get_time_gap, gap_between}

abbrev running : Clock
running = record { time0 = 16; time1 = 15; time2 = 0; time3 = 0; time_idx = 2; time_now = 1031 }

gap-round : get_time_gap running 4294967295 ≡ 1031
unfolding get_time_gap gap_between
gap-round = refl
