-- ===== src/Price/Tests.antt =====
-- Runs of the price arithmetic at concrete prices.
use speedex.Prelude.{ℕ, ◌*◌, ◌/◌, ◌^◌, ◌≡◌, arith}
use speedex.Price.{wide_multiply_val_by_a_over_b}
use speedex.Price.Compare.{wide_multiply_exact}

-- The prices 3 and 2.
abbrev three : ℕ
three = 3 * 2 ^ 24

abbrev two : ℕ
two = 2 * 2 ^ 24

wide_multiply_exact_example : wide_multiply_val_by_a_over_b 1001 three two ≡ 1001 * three / two
wide_multiply_exact_example =
    wide_multiply_exact 1001 three two (omega arith) (omega arith) (omega arith) (omega arith)
