-- ===== src/Flow/Duration.antt =====
-- DurationStorage of src/libs/flow/src/engine/types/builtin/duration.cpp. The system clock counts
-- nanoseconds in 64 bits with a sign, as libstdc++ has it. A count is a size_t, which becomes a signed
-- number of the unit.
mod Tests
use ez_cpp.Prelude.{
  ℕ, ◌+◌, ◌-◌, ◌*◌, ◌%◌, ◌^◌, ◌<◌, ◌≡◌, Option, none, some, ltb, leb, if◌then◌else◌, arith,
}
use ez_cpp.Prelude.Int.{ℤ, pos, negsuc}
use ez_cpp.Flow.Ast.{DurationUnit}

pub record DurationStorage : Type 0 where
  pub count : ℕ
  pub unit : DurationUnit

-- std::chrono's units, in nanoseconds.
unfoldable pub ticks : DurationUnit → ℕ
ticks DurationUnit.ms = 1000000
ticks DurationUnit.sec = 1000000000
ticks DurationUnit.min = 60000000000
ticks DurationUnit.day = 86400000000000
ticks DurationUnit.week = 604800000000000

-- The number of 64 bits with a sign that has the bits of a size_t.
abbrev pub signed : ℕ → ℤ
signed n = if ltb n (2 ^ 63) then pos n else negsuc (2 ^ 64 - n - 1)

-- The conversion to the clock's unit is a signed product, `none` where it overflows.
abbrev pub in_ticks : ℤ → ℕ → Option ℤ
in_ticks (pos n) unit = if ltb (n * unit) (2 ^ 63) then some (pos (n * unit)) else none
in_ticks (negsuc n) unit =
    if leb ((n + 1) * unit) (2 ^ 63) then some (negsuc ((n + 1) * unit - 1)) else none

unfoldable pub to_std_duration : DurationStorage → Option ℤ
to_std_duration d = in_ticks (signed d.count) (ticks d.unit)

-- The products are of the type of the count, 64 bits without a sign.
unfoldable pub factor : DurationUnit → ℕ
factor DurationUnit.ms = 1
factor DurationUnit.sec = 1000
factor DurationUnit.min = 1000 * 60
factor DurationUnit.day = 1000 * 60 * 24
factor DurationUnit.week = 1000 * 60 * 24 * 7

unfoldable pub to_milliseconds : DurationStorage → ℤ
to_milliseconds d = signed (d.count * factor d.unit % 2 ^ 64)

-- How much longer a unit is than `to_milliseconds` takes it for.
abbrev pub shortfall : DurationUnit → ℕ
shortfall DurationUnit.day = 60
shortfall DurationUnit.week = 60
shortfall _ = 1

-- For a duration that the clock can hold, to_milliseconds gives a number of milliseconds and
-- to_std_duration a number of nanoseconds: on milliseconds, seconds and minutes they are the same
-- duration, and on days and weeks to_milliseconds gives a sixtieth of it.
pub to_milliseconds_agrees :
    (n : ℕ) (unit : DurationUnit)
    → n * ticks unit < 2 ^ 63
    → (ms : ℕ) × (to_milliseconds (record { count = n; unit = unit }) ≡ pos ms)
      × (to_std_duration (record { count = n; unit = unit })
          ≡ some (pos (ms * 1000000 * shortfall unit)))
unfolding to_milliseconds to_std_duration ticks factor
to_milliseconds_agrees n DurationUnit.ms h = (n, ground arith, ground arith)
to_milliseconds_agrees n DurationUnit.sec h = (n * 1000, ground arith, ground arith)
to_milliseconds_agrees n DurationUnit.min h = (n * 60000, ground arith, ground arith)
to_milliseconds_agrees n DurationUnit.day h = (n * 1440000, ground arith, ground arith)
to_milliseconds_agrees n DurationUnit.week h = (n * 10080000, ground arith, ground arith)
