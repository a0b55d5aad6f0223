-- ===== src/Timeouts.antt =====
-- libs/ntdll/sync.c: `interval_to_timespec` and `NtDelayExecution`.
-- `QuadPart` is 0, a negative number of 100 ns units (a relative interval), or a positive one (a time
-- since 1601). `overflow` is a result out of 64 bits, which C leaves undefined. The clock, as
-- `gettimeofday` gives it, is a parameter.
pub mod Exact
use nloader.Base.{ℕ, ◌+◌, ◌-◌, ◌*◌, ◌/◌, ◌%◌, ◌^◌, Option, none, some, ltb, leb, if◌then◌else◌}

pub data Interval : Type 0 where
  zero_part : Interval
  relative : ℕ → Interval
  absolute : ℕ → Interval

-- `struct timespec`
pub record Timespec : Type 0 where
  pub sec : ℕ
  pub nsec : ℕ

-- `struct timeval`
pub record Timeval : Type 0 where
  pub tv_sec : ℕ
  pub tv_usec : ℕ

pub data Deadline : Type 0 where
  forever : Deadline
  at : Timespec → Deadline
  overflow : Deadline

abbrev pub ticks_1601_to_1970 : ℕ
ticks_1601_to_1970 = 116444736000000000

abbrev pub max_longlong : ℕ
max_longlong = 0x7fffffffffffffff

-- The end of `interval_to_timespec`.
unfoldable pub add_offset : Timeval → ℕ → Timespec
add_offset now ns_offset =
    let sec = now.tv_sec + ns_offset / 1000000000 in
    let nsec = now.tv_usec * 1000 + ns_offset % 1000000000 in
    if leb 1000000000 nsec
    then record { sec = sec + 1; nsec = nsec - 1000000000 }
    else record { sec = sec; nsec = nsec }

-- The clock in 100 ns units.
unfoldable pub now_100ns : Timeval → ℕ
now_100ns now = now.tv_sec * 10000000 + now.tv_usec * 10

-- The offset of an absolute time: `late` is what it lies before the clock, `ahead` what it lies
-- behind it; one of them is 0.
unfoldable pub absolute_deadline : ℕ → ℕ → Timeval → Deadline
unfolding add_offset
absolute_deadline late ahead now =
    if ltb max_longlong (late * 100)
    then overflow
    else if ltb max_longlong (ahead * 100)
    then overflow
    else at (add_offset now (ahead * 100))

-- `interval_to_timespec`; a null pointer is `none`.
unfoldable pub interval_to_timespec : Option Interval → Timeval → Deadline
unfolding add_offset now_100ns absolute_deadline
interval_to_timespec none now = forever
interval_to_timespec (some zero_part) now = forever
interval_to_timespec (some (relative n)) now =
    if ltb max_longlong (n * 100) then overflow else at (add_offset now (n * 100))
interval_to_timespec (some (absolute t)) now =
    let epoch = ticks_1601_to_1970 + now_100ns now in absolute_deadline (epoch - t) (t - epoch) now

-- `NtDelayExecution`: the time that the thread sleeps, if it does.
unfoldable pub delay_execution : Option Interval → Deadline
delay_execution none = at (record { sec = 0; nsec = 0 })
delay_execution (some zero_part) = at (record { sec = 0; nsec = 0 })
delay_execution (some (relative n)) =
    if ltb max_longlong (n * 100)
    then overflow
    else at (record { sec = n * 100 / 1000000000; nsec = n * 100 % 1000000000 })
delay_execution (some (absolute t)) = at (record { sec = 0; nsec = 0 })
