-- ===== src/Clock/Tests.antt =====
-- Readings.
use wate_rmq.Common.{ℕ, ◌≡◌, ◌<◌, ◌⊎◌, arith}
use wate_rmq.Clock.{now_microseconds}
use wate_rmq.Clock.Readings.{time, now_microseconds-grows}

now_microseconds-grows_run :
    (now_microseconds (time 5 7) ≡ 5000007)
    × (5 < 6 ⊎ (◌≡◌ {A = ℕ} 5 6 × (7 < 3))
        → now_microseconds (time 5 7) < now_microseconds (time 6 3))
now_microseconds-grows_run =
    now_microseconds-grows 5 7 6 3 (omega arith, omega arith) (omega arith, omega arith)
