-- ===== src/Price/Compare.antt =====
-- The comparisons of prices and the wide multiplication are exact: where the prices are valid,
-- nothing is lost in 128 bits.
use native.Mathlib.Nat.{mul-le-mul, mul-add-div_right}
use native.Mathlib.Nat.{mod-lt, mod-eq_of_lt, div-add-mod'}
use speedex.Prelude.{ℕ, ◌+◌, ◌*◌, ◌/◌, ◌%◌, ◌≤◌, ◌<◌, ◌^◌, ◌≡◌, ◌↔◌, sym, ap, ◌∙◌, true, arith}
use speedex.Price.{max_price, a_over_b_leq_c, a_over_b_lt_c, wide_multiply_val_by_a_over_b}

product-lt : (b c : ℕ) → b ≤ max_price → c ≤ max_price → b * c < 2 ^ 96
product-lt b c hb hc = omega (arith, mul-le-mul hb hc)

-- For prices of 48 bits the test decides a * 2^24 ≤ b * c, so that a / b is at most the price c.
pub a_over_b_leq_c_iff :
    (a b c : ℕ)
    → a ≤ max_price
    → b ≤ max_price
    → c ≤ max_price
    → (a_over_b_leq_c a b c ≡ true) ↔ (a * 2 ^ 24 ≤ b * c)
unfolding a_over_b_leq_c
a_over_b_leq_c_iff a b c ha hb hc =
    let fits : b * c < 2 ^ 96 = product-lt b c hb hc in (λ h. ground arith, λ h. ground arith)

-- For prices of 48 bits the strict test decides a * 2^24 < b * c, so that a / b is below the price c.
pub a_over_b_lt_c_iff :
    (a b c : ℕ)
    → a ≤ max_price
    → b ≤ max_price
    → c ≤ max_price
    → (a_over_b_lt_c a b c ≡ true) ↔ (a * 2 ^ 24 < b * c)
unfolding a_over_b_lt_c
a_over_b_lt_c_iff a b c ha hb hc =
    let fits : b * c < 2 ^ 96 = product-lt b c hb hc in (λ h. ground arith, λ h. ground arith)

-- The two parts of the product, before they are reduced to 128 bits.
split_product : (value a b : ℕ) → 0 < b → value * a / b ≡ value / b * a + value % b * a / b
split_product value a b hb =
    ap (λ (t : ℕ). t / b) whole ∙ mul-add-div_right hb (value / b * a) (value % b * a)
  where
    whole : value * a ≡ value / b * a * b + value % b * a
    whole = grind (arith, div-add-mod' value b)

-- For prices of 48 bits, b not 0, the result is the exact quotient value * a / b rounded down,
-- wherever that quotient fits 128 bits.
pub wide_multiply_exact :
    (value a b : ℕ)
    → 0 < b
    → a ≤ max_price
    → b ≤ max_price
    → value * a / b < 2 ^ 128
    → wide_multiply_val_by_a_over_b value a b ≡ value * a / b
unfolding wide_multiply_val_by_a_over_b
wide_multiply_exact value a b hb ha hb' fits =
    let parts = split_product value a b hb in
    let low : value % b * a < 2 ^ 128 =
      omega (arith, product-lt (value % b) a (omega (arith, mod-lt value hb)) ha) in
    let high : value / b * a < 2 ^ 128 = omega (arith, parts) in
    rw (mod-eq_of_lt high, mod-eq_of_lt low) (mod-eq_of_lt (rw (← parts) fits) ∙ sym parts)
