-- ===== src/Tests/Timeouts.antt =====
-- libs/ntdll/sync.c: deadlines at a fixed clock.
use nloader.Base.{◌+◌, ◌-◌, ◌*◌, ◌<◌, ℕ, arith}
use nloader.Timeouts.{Timeval, ticks_1601_to_1970, now_100ns}

abbrev noon : Timeval
noon = record { tv_sec = 1700000000; tv_usec = 999999 }

abbrev later : ℕ
later = 116444736000000000 + 18000000000000000

long_past : 0x7fffffffffffffff < (ticks_1601_to_1970 + now_100ns noon - 1) * 100
unfolding now_100ns
long_past = omega arith
