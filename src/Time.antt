-- ===== src/Time.antt =====
-- app/src/main/cpp/iperf/iperf_time.h and iperf_time.c: time stamps in seconds and microseconds.
-- The fields are uint32_t; every write wraps at 2 ^ 32, written `u32`.
pub mod Order
pub mod Diff
pub mod Add
pub mod Examples
use sber_wifi.Prelude.{
  ℕ, ◌+◌, ◌-◌, ◌*◌, ◌/◌, ◌%◌, ◌^◌, ◌<◌, Bool, true, false, Option, none, some, ltb, leb, ◌==◌,
  if◌then◌else◌,
}
use sber_wifi.Prelude.Int.{ℤ, pos, negsuc}

pub record IperfTime : Type 0 where
  pub secs : ℕ
  pub usecs : ℕ

abbrev pub u32 : ℕ → ℕ
u32 n = n % 2 ^ 32

-- 1000000L
abbrev pub sec_to_us : ℕ
sec_to_us = 1000000

-- `clock_gettime(CLOCK_MONOTONIC, &ts)`: `none` for a failing call, else tv_sec and tv_nsec.
-- The cast applies to tv_nsec before the division.
unfoldable pub iperf_time_now : Option (ℕ × ℕ) → Option IperfTime
iperf_time_now none = none
iperf_time_now (some (sec, nsec)) = some (record { secs = u32 sec; usecs = u32 nsec / 1000 })

-- The second half of iperf_time_add_usecs carries whole seconds out of `usecs`.
abbrev carry : IperfTime → IperfTime
carry t =
    if leb sec_to_us t.usecs
    then record { secs = u32 (t.secs + t.usecs / sec_to_us); usecs = t.usecs % sec_to_us }
    else t

-- `usecs` is uint64_t.
unfoldable pub iperf_time_add_usecs : IperfTime → ℕ → IperfTime
iperf_time_add_usecs t usecs =
    carry (record {
      secs = u32 (t.secs + usecs / sec_to_us);
      usecs = u32 (t.usecs + usecs % sec_to_us);
    })

-- 1000000LL makes the product a 64-bit one, and 2 ^ 32 * 1000001 is far below 2 ^ 63.
unfoldable pub iperf_time_in_usecs : IperfTime → ℕ
iperf_time_in_usecs t = t.secs * sec_to_us + t.usecs

unfoldable pub iperf_time_compare : IperfTime → IperfTime → ℤ
iperf_time_compare time1 time2 =
    if ltb time1.secs time2.secs
    then negsuc 0
    else if ltb time2.secs time1.secs
    then pos 1
    else if ltb time1.usecs time2.usecs
    then negsuc 0
    else if ltb time2.usecs time1.usecs
    then pos 1
    else pos 0

-- a - b on uint32_t
abbrev pub sub_u32 : ℕ → ℕ → ℕ
sub_u32 a b = u32 (a + 2 ^ 32 - b)

-- The later time minus the earlier one, with the borrow of a second.
abbrev borrow : IperfTime → IperfTime → IperfTime
borrow late early =
    if ltb late.usecs early.usecs
    then record {
      secs = sub_u32 (sub_u32 late.secs early.secs) 1;
      usecs = sub_u32 (u32 (late.usecs + 1000000)) early.usecs;
    }
    else record { secs = sub_u32 late.secs early.secs; usecs = sub_u32 late.usecs early.usecs }

-- The returned flag `past`, and `*diff`.
unfoldable pub iperf_time_diff : IperfTime → IperfTime → Bool × IperfTime
unfolding iperf_time_compare
iperf_time_diff time1 time2 = elim (iperf_time_compare time1 time2) [
  | pos n ↦
      if n == 0
      then (true, record { secs = 0; usecs = 0 })
      else if n == 1
      then (false, borrow time1 time2)
      else (true, borrow time2 time1)
  | negsuc n ↦ (true, borrow time2 time1)
]

-- A time stamp that fits its fields and has less than a second of microseconds.
pub record IsNormal (t : IperfTime) : Type 0 where
  pub secs_fit : t.secs < 2 ^ 32
  pub usecs_small : t.usecs < sec_to_us
