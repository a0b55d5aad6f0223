-- ===== src/Timeouts/Exact.antt =====
-- libs/ntdll/sync.c: the deadlines that the waits compute.
use nloader.Base.{
  ℕ, ◌+◌, ◌-◌, ◌*◌, ◌%◌, ◌≤◌, ◌<◌, ◌≡◌, refl, false, some, arith, ltb, leb, Bool-cases, inl, inr,
  ◌⊎◌,
}
use nloader.Timeouts.{
  relative, absolute, Timespec, Timeval, at, overflow, ticks_1601_to_1970, max_longlong, add_offset,
  now_100ns, absolute_deadline, interval_to_timespec,
}

-- A time in nanoseconds.
abbrev pub nanoseconds : Timespec → ℕ
nanoseconds t = t.sec * 1000000000 + t.nsec

abbrev pub clock : Timeval → ℕ
clock now = now.tv_sec * 1000000000 + now.tv_usec * 1000

-- The time is normal, and it is the given one.
abbrev pub IsTime : ℕ → Timespec → Type 0
IsTime ns t = (nanoseconds t ≡ ns) × (t.nsec < 1000000000)

add_offset-IsTime :
    (now : Timeval) (ns : ℕ) → now.tv_usec < 1000000 → IsTime (clock now + ns) (add_offset now ns)
unfolding add_offset
add_offset-IsTime now ns h =
    elim (Bool-cases (leb 1000000000 (now.tv_usec * 1000 + ns % 1000000000))) [
      | inl l ↦
          let carry : 1000000000 ≤ now.tv_usec * 1000 + ns % 1000000000 = ground arith in
          rw l (omega arith, omega arith)
      | inr l ↦
          let small : now.tv_usec * 1000 + ns % 1000000000 < 1000000000 = ground arith in
          rw l (omega arith, omega arith)
    ]

-- The deadline of a relative interval that fits 64 bits in nanoseconds is exactly that much behind
-- the clock, with fewer than 10 ^ 9 nanoseconds beside the seconds.
pub interval_to_timespec-relative :
    (n : ℕ) (now : Timeval)
    → now.tv_usec < 1000000
    → n * 100 ≤ max_longlong
    → (t : Timespec) × (interval_to_timespec (some (relative n)) now ≡ at t)
      × IsTime (clock now + n * 100) t
unfolding interval_to_timespec
interval_to_timespec-relative n now h k =
    (add_offset now (n * 100), ground arith, add_offset-IsTime now (n * 100) h)

-- The deadline of an absolute time from 1970 on is that time, or the clock where the time is past,
-- if the time and the clock, in nanoseconds since 1970, both fit 63 bits.
pub interval_to_timespec-absolute :
    (time : ℕ) (now : Timeval)
    → now.tv_usec < 1000000
    → ticks_1601_to_1970 ≤ time
    → (time - ticks_1601_to_1970) * 100 ≤ max_longlong
    → clock now ≤ max_longlong
    → (t : Timespec) × (interval_to_timespec (some (absolute time)) now ≡ at t)
      × (IsTime ((time - ticks_1601_to_1970) * 100) t
          ⊎ ((time - ticks_1601_to_1970) * 100 < clock now) × IsTime (clock now) t)
unfolding interval_to_timespec now_100ns absolute_deadline
interval_to_timespec-absolute time now h first fits clocked =
    let epoch : ℕ = ticks_1601_to_1970 + (now.tv_sec * 10000000 + now.tv_usec * 10) in
    let late : (epoch - time) * 100 ≤ max_longlong = omega arith in
    let ahead : (time - epoch) * 100 ≤ max_longlong = omega arith in
    let no_late : ltb max_longlong ((epoch - time) * 100) ≡ false = ground (arith, late) in
    let no_ahead : ltb max_longlong ((time - epoch) * 100) ≡ false = ground (arith, ahead) in
    let (sum, normal) = add_offset-IsTime now ((time - epoch) * 100) h in
    (
      add_offset now ((time - epoch) * 100),
      rw (no_late, no_ahead) refl,
      elim (Bool-cases (ltb ((time - ticks_1601_to_1970) * 100) (clock now))) [
        | inl l ↦
            let past : (time - ticks_1601_to_1970) * 100 < clock now = ground arith in
            inr (past, (omega arith, normal))
        | inr l ↦
            let future : clock now ≤ (time - ticks_1601_to_1970) * 100 = ground arith in
            inl (omega arith, normal)
      ],
    )

-- For an absolute time that is at least 2 ^ 63 nanoseconds before the clock the computation of the
-- deadline overflows.
pub interval_to_timespec_overflow :
    (time : ℕ) (now : Timeval)
    → max_longlong < (ticks_1601_to_1970 + now_100ns now - time) * 100
    → interval_to_timespec (some (absolute time)) now ≡ overflow
unfolding interval_to_timespec absolute_deadline
interval_to_timespec_overflow time now h = ground arith
