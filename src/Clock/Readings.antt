-- ===== src/Clock/Readings.antt =====
-- How the readings of the clock follow the time.
use wate_rmq.Common.{ℕ, ◌+◌, ◌*◌, ◌^◌, ◌≡◌, ◌≤◌, ◌<◌, ◌⊎◌, inl, inr, pos, arith}
use wate_rmq.Clock.{Timeval, FileTime, now_microseconds, now_windows}

abbrev pub time : ℕ → ℕ → Timeval
time sec usec = record { tv_sec = pos sec; tv_usec = pos usec }

-- A time after 1970 and before the microseconds no longer fit 64 bits.
abbrev pub IsTime : ℕ → ℕ → Type 0
IsTime sec usec = (usec < 1000000) × (sec < 2 ^ 44)

exact : (sec usec : ℕ) → IsTime sec usec → now_microseconds (time sec usec) ≡ sec * 1000000 + usec
unfolding now_microseconds
exact sec usec (h, k) = omega arith

-- Until the year 500000 the reading is exact, and a later time reads as more: by the microseconds
-- that have passed.
pub now_microseconds-grows :
    (sec usec sec' usec' : ℕ)
    → IsTime sec usec
    → IsTime sec' usec'
    → (now_microseconds (time sec usec) ≡ sec * 1000000 + usec)
      × (sec < sec' ⊎ ((sec ≡ sec') × (usec < usec'))
          → now_microseconds (time sec usec) < now_microseconds (time sec' usec'))
now_microseconds-grows sec usec sec' usec' h k = (
  exact sec usec h,
  λ earlier. omega (arith, exact sec usec h, exact sec' usec' k, before earlier),
)
  where
    before :
        sec < sec' ⊎ ((sec ≡ sec') × (usec < usec')) → sec * 1000000 + usec < sec' * 1000000 + usec'
    before (inl e) = omega (arith, h.0)
    before (inr (e, f)) = omega arith

-- On Windows a later time never reads as less, and a microsecond, ten steps, as one more.
pub now_windows-grows :
    (a b : FileTime)
    → a.high < 2 ^ 32
    → a.low < 2 ^ 32
    → b.high < 2 ^ 32
    → b.low < 2 ^ 32
    → a.high * 2 ^ 32 + a.low + 10 ≤ b.high * 2 ^ 32 + b.low
    → now_windows a + 1 ≤ now_windows b
unfolding now_windows
now_windows-grows a b h k l m e = omega arith
