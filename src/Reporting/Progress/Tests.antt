-- ===== src/Reporting/Progress/Tests.antt =====
-- The progress theorems at concrete values, and the wrap-around.
use ez_cpp.Prelude.{◌*◌, ◌/◌, ◌≤◌, ◌≡◌, refl, some, arith}
use ez_cpp.Prelude.Int.{pos, negsuc}
use ez_cpp.Reporting.Progress.{of_int, of_counts, of_quotient, of_counts_exact}

of_counts_exact_example :
    (of_counts 1 3 ≡ some (1 * 100 / 3)) × (1 * 100 / 3 ≤ 2 * 100 / 3) × (2 * 100 / 3 ≤ 100)
of_counts_exact_example =
    of_counts_exact 1 2 3 (omega arith) (omega arith) (omega arith) (omega arith)

three_hundred_percent : of_int (pos 300) ≡ 44
unfolding of_int
three_hundred_percent = refl

minus_one : of_int (negsuc 0) ≡ 100
unfolding of_int
minus_one = refl

halves_go_up : of_quotient 101 2 ≡ 51
unfolding of_quotient
halves_go_up = refl
