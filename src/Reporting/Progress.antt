-- ===== src/Reporting/Progress.antt =====
-- ExecutionProgress and ExecutionProgressWeight of src/libs/core/headers/ez/reporting/Types.hpp. A
-- progress is the unsigned char `m_value`; its conversions wrap modulo 256 before they clamp.
-- A double is used in one place, the rounded quotient of two sums. Both sums are whole numbers below
-- 2 ^ 53 and the total weight is below 2 ^ 46 (more than 2 ^ 13 reports of the greatest weight), so
-- the rounding of the division cannot move the quotient across a half, and `round_div` is exact.
mod Tests
use native.Mathlib.Nat.{
  mod-eq_of_lt, le-div_iff_mul-le, div-mul-le_self, div-le_of_le-mul, le_trans,
}
use ez_cpp.Prelude.{
  ℕ, suc, ◌+◌, ◌-◌, ◌*◌, ◌/◌, ◌%◌, ◌^◌, ◌≤◌, ◌<◌, ◌≡◌, Bool, Option, none, some, ltb, if◌then◌else◌,
  ◌==◌, arith, refl,
}
use ez_cpp.Prelude.Int.{ℤ, pos, negsuc}

-- `std::clamp`
unfoldable pub clamp : ℕ → ℕ → ℕ → ℕ
clamp v lo hi = if ltb v lo then lo else if ltb hi v then hi else v

-- The conversion of an int to `value_type`: `negsuc n` is -(n + 1).
abbrev pub to_value_type : ℤ → ℕ
to_value_type (pos n) = n % 256
to_value_type (negsuc n) = 255 - n % 256

-- `operator=(value_type)`
unfoldable pub assign : ℕ → ℕ
unfolding clamp
assign value = clamp value 0 100

unfoldable pub of_int : ℤ → ℕ
unfolding assign
of_int value = assign (to_value_type value)

-- `round` of the quotient of two whole numbers, halves away from zero.
abbrev pub round_div : ℕ → ℕ → ℕ
round_div a b = (2 * a + b) / (2 * b)

-- The constructor from a double, at the quotient of two whole numbers.
unfoldable pub of_quotient : ℕ → ℕ → ℕ
unfolding assign
of_quotient a b = assign (round_div a b % 256)

-- The constructor from a current and a total count; the product is a size_t. No total is a division
-- by zero.
unfoldable pub of_counts : ℕ → ℕ → Option ℕ
unfolding assign
of_counts current total =
    if total == 0 then none else some (assign (current * 100 % 2 ^ 64 / total % 256))

unfoldable pub bounded_progress_weight : ℕ → ℕ
unfolding clamp
bounded_progress_weight val = clamp val 1 (2 ^ 32 - 1)

pub assign-le : (v : ℕ) → assign v ≤ 100
unfolding assign
assign-le v = ground arith

abbrev pub smaller : ℕ → ℕ → ℕ
smaller a b = if ltb a b then a else b

-- An int from 0 to 255 becomes the smaller of itself and 100, and -(n + 1) from -256 to -1 the smaller
-- of 255 - n and 100; a multiple of 256 added to a non-negative int, or subtracted from a negative one,
-- changes nothing, since the wrap-around comes before the clamp.
pub of_int_wraps :
    (n k : ℕ)
    → n < 256
    → (of_int (pos n) ≡ smaller n 100)
      × (of_int (negsuc n) ≡ smaller (255 - n) 100)
      × (of_int (pos (n + 256 * k)) ≡ of_int (pos n))
      × (of_int (negsuc (n + 256 * k)) ≡ of_int (negsuc n))
unfolding of_int
of_int_wraps n k h =
    let around : (n + 256 * k) % 256 ≡ n % 256 = omega arith in
    (ground arith, ground arith, rw around refl, rw around refl)

-- A count that does not pass its total, and does not overflow, becomes its percentage rounded down,
-- which grows with the count.
pub of_counts_exact :
    (current more total : ℕ)
    → current ≤ more
    → more ≤ total
    → 0 < total
    → total * 100 < 2 ^ 64
    → (of_counts current total ≡ some (current * 100 / total))
      × (current * 100 / total ≤ more * 100 / total)
      × (more * 100 / total ≤ 100)
unfolding of_counts
of_counts_exact current more total h k some_total fits =
    let whole : current * 100 % 2 ^ 64 ≡ current * 100 = mod-eq_of_lt (omega arith) in
    let monotone : current * 100 / total ≤ more * 100 / total =
      (le-div_iff_mul-le some_total).1
        (le_trans (div-mul-le_self (current * 100) total) (omega arith)) in
    let bound : more * 100 / total ≤ 100 = div-le_of_le-mul total (omega arith) in
    (rw whole (ground arith), monotone, bound)

-- `bounded_progress_weight` gives a weight from 1 to the greatest 32 bit number, and leaves such a
-- weight as it is.
pub bounded_progress_weight_range :
    (v : ℕ)
    → (1 ≤ bounded_progress_weight v)
      × (bounded_progress_weight v < 2 ^ 32)
      × (1 ≤ v → v < 2 ^ 32 → bounded_progress_weight v ≡ v)
unfolding bounded_progress_weight
bounded_progress_weight_range v = (ground arith, ground arith, λ h k. ground arith)
