-- ===== src/Clock.antt =====
-- The clock and the sleep of BackendC/librabbitmq/watermq/unix/platform_utils.c and
-- win32/platform_utils.c. The time that the system gives, and its refusal to sleep for more than a
-- second of nanoseconds, are those that gettimeofday, GetSystemTimeAsFileTime and nanosleep document.
pub mod Readings
mod Tests
use wate_rmq.Common.{
  ℕ, suc, ◌+◌, ◌-◌, ◌*◌, ◌/◌, ◌%◌, ◌^◌, Bool, true, false, ◌&&◌, ℤ, pos, negsuc, ltb, leb, ◌==◌,
  if◌then◌else◌,
}
use wate_rmq.Memory.{Fault, int_range}

-- `struct timeval`
pub record Timeval : Type 0 where
  pub tv_sec : ℤ
  pub tv_usec : ℤ

-- The conversion to `uint64_t`.
abbrev pub to_u64 : ℤ → ℕ
to_u64 (pos n) = n % 2 ^ 64
to_u64 (negsuc n) = 2 ^ 64 - 1 - n % 2 ^ 64

-- `now_microseconds` on Unix.
unfoldable pub now_microseconds : Timeval → ℕ
now_microseconds tv = (to_u64 tv.tv_sec * 1000000 + to_u64 tv.tv_usec) % 2 ^ 64

-- `FILETIME`: two numbers of 32 bits, counting tenths of a microsecond.
pub record FileTime : Type 0 where
  pub high : ℕ
  pub low : ℕ

-- `now_microseconds` on Windows: the two halves do not overlap, so `|` is their sum.
unfoldable pub now_windows : FileTime → ℕ
now_windows ft = ((ft.high % 2 ^ 32) * 2 ^ 32 + ft.low % 2 ^ 32) / 10

-- What becomes of a sleep: so many nanoseconds, none because the request is refused, or a fault.
pub data Sleep : Type 0 where
  nanoseconds : ℕ → Sleep
  refused : Sleep
  overflow : Fault → Sleep

-- `nanosleep` of no seconds and so many nanoseconds.
abbrev pub nanosleep : ℤ → Sleep
nanosleep (pos n) = if ltb n 1000000000 then nanoseconds n else refused
nanosleep (negsuc n) = refused

-- `1000 * usec`, an `int`.
abbrev pub thousandfold : ℤ → ℤ
thousandfold (pos n) = pos (1000 * n)
thousandfold (negsuc n) = negsuc (1000 * n + 999)

abbrev pub is_int : ℤ → Bool
is_int (pos n) = ltb n (2 ^ 31)
is_int (negsuc n) = ltb n (2 ^ 31)

-- `microsleep` on Unix.
unfoldable pub microsleep : ℤ → Sleep
microsleep usec =
    if is_int (thousandfold usec) then nanosleep (thousandfold usec) else overflow int_range

-- `microsleep` on Windows: the milliseconds of `Sleep(usec / 1000)`, an unsigned number of 32 bits.
unfoldable pub sleep_milliseconds : ℤ → ℕ
sleep_milliseconds (pos n) = n / 1000
sleep_milliseconds (negsuc n) = (2 ^ 32 - suc n / 1000) % 2 ^ 32
