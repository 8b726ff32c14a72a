-- ===== src/Flow/Duration/Tests.antt =====
-- Two days, three weeks, and a count that the clock cannot hold.
use ez_cpp.Prelude.{ℕ, ◌*◌, ◌≡◌, refl, none, some, arith, ◌^◌, ◌<◌}
use ez_cpp.Prelude.Int.{pos, negsuc}
use ez_cpp.Flow.Ast.{DurationUnit}
use ez_cpp.Flow.Duration.{
  to_milliseconds, to_std_duration, to_milliseconds_agrees, factor, ticks, shortfall,
}

two_days : to_milliseconds (record { count = 2; unit = DurationUnit.day }) ≡ pos 2880000
unfolding to_milliseconds factor
two_days = refl

too_many_weeks : to_std_duration (record { count = 15251; unit = DurationUnit.week }) ≡ none
unfolding to_std_duration ticks
too_many_weeks = refl

-- The greatest size_t is a negative number.
greatest_count :
    to_std_duration (record { count = 18446744073709551615; unit = DurationUnit.ms })
    ≡ some (negsuc 999999)
unfolding to_std_duration ticks
greatest_count = refl

weeks_fit : 3 * ticks DurationUnit.week < 2 ^ 63
unfolding ticks
weeks_fit = omega arith

to_milliseconds_agrees_example :
    (ms : ℕ) × (to_milliseconds (record { count = 3; unit = DurationUnit.week }) ≡ pos ms)
    × (to_std_duration (record { count = 3; unit = DurationUnit.week })
        ≡ some (pos (ms * 1000000 * shortfall DurationUnit.week)))
to_milliseconds_agrees_example = to_milliseconds_agrees 3 DurationUnit.week weeks_fit
