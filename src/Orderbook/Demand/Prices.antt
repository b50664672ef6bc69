-- ===== src/Orderbook/Demand/Prices.antt =====
-- The execution prices, and the product that drops the lowest 24 bits.
use native.Mathlib.Nat.{mul-le-mul, mul-le-mul_right, div-add-mod'}
use speedex.Prelude.{ℕ, ◌+◌, ◌-◌, ◌*◌, ◌/◌, ◌%◌, ◌≤◌, ◌<◌, ◌^◌, ◌≡◌, ap, arith}
use speedex.Price.{max_price}
use speedex.Orderbook.Demand.{get_execution_prices, wide_multiply_safe}

-- No price above the exact quotient is executed, and the smoothed price is not above the other.
pub execution_prices_le :
    (sell buy k : ℕ)
    → 0 < buy
    → ((get_execution_prices sell buy k).1 * buy ≤ sell * 2 ^ 24)
      × ((get_execution_prices sell buy k).0 ≤ (get_execution_prices sell buy k).1)
unfolding get_execution_prices
execution_prices_le sell buy k h =
    let q = sell * 2 ^ 64 / buy in
    let whole = div-add-mod' (sell * 2 ^ 64) buy in
    let r = q / 2 ^ 40 % 2 ^ 64 in
    let scaled : r * 2 ^ 40 * buy ≤ q * buy = mul-le-mul_right buy (omega arith) in
    (omega (arith, whole, scaled), ground arith)

pub wide_multiply_safe_bounds :
    (x price : ℕ)
    → price ≤ max_price
    → x * price < 2 ^ 135
    → (wide_multiply_safe x price * 2 ^ 24 ≤ x * price)
      × (x * price < (wide_multiply_safe x price + 1) * 2 ^ 24)
unfolding wide_multiply_safe
wide_multiply_safe_bounds x price hp fits =
    let parts : x * price ≡ (x / 2 ^ 64 * 2 ^ 64 + x % 2 ^ 64) * price =
      ap (λ (t : ℕ). t * price) (omega arith) in
    let low : x % 2 ^ 64 * price ≤ (2 ^ 64 - 1) * max_price =
      mul-le-mul {n₂ = 2 ^ 64 - 1} (omega arith) hp in
    omega (arith, parts, low)
