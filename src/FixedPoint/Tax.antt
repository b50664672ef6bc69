-- ===== src/FixedPoint/Tax.antt =====
-- What rounding and taxing do to an amount.
use native.Mathlib.Nat.{
  one-le-pow, mod-lt, div-add-mod', add-zero, le_trans, lt_of_lt_of_le, mul-le-mul_right,
}
use speedex.Prelude.{
  ℕ, ◌+◌, ◌-◌, ◌*◌, ◌/◌, ◌%◌, ◌≤◌, ◌<◌, ◌^◌, ◌≡◌, arith, if◌then◌else◌, ◌==◌, false, subst, zero,
  suc,
}
use speedex.FixedPoint.{FractionalAsset, ceil, tax_of, tax_and_round}

-- `ceil` is the least number of whole units that is not below the amount.
pub ceil_lem :
    (x : FractionalAsset)
    → x.value < 2 ^ 128
    → (x.value ≤ ceil x * 2 ^ 10) × (ceil x * 2 ^ 10 < x.value + 2 ^ 10)
unfolding ceil
ceil_lem x h = ground arith

-- `v` less a tax of one `p`-th, rounded up, with `v` split by the division by `p`, which is `k + 1`.
exact_tax : (q k : ℕ) → let v = q * (k + 1) in (v - q) * (k + 1) ≡ v * k
exact_tax q k = let e : q * (k + 1) - q ≡ q * k = omega arith in rw e (omega arith)

round_tax :
    (q r k : ℕ)
    → r < k
    → let v = q * (k + 1) + suc r in
      (q + 1 ≤ v) × ((v - (q + 1)) * (k + 1) ≤ v * k) × (v * k < (v - (q + 1) + 1) * (k + 1))
round_tax q r k l =
    let e : q * (k + 1) + suc r - (q + 1) ≡ q * k + r = omega arith in
    rw e (omega arith, omega arith, omega arith)

Bounds : ℕ → ℕ → ℕ → ℕ → Type 0
Bounds v p k u = (u ≤ v) × ((v - u) * p ≤ v * k) × (v * k < (v - u + 1) * p)

Bounds-of_parts :
    (q s k : ℕ) → s < k + 1 → Bounds (q * (k + 1) + s) (k + 1) k (if s == 0 then q else q + 1)
unfolding Bounds
Bounds-of_parts q zero k l =
    rw (add-zero (q * (k + 1)), exact_tax q k)
      (omega arith, omega arith, omega (arith, exact_tax q k))
Bounds-of_parts q (suc r) k l =
    let taxed : (suc r == 0) ≡ false = ground arith in rw taxed (round_tax q r k (omega arith))

abbrev up : ℕ → ℕ → ℕ
up v p = if v % p == 0 then v / p else v / p + 1

up_bounds :
    (v p : ℕ)
    → 1 ≤ p
    → (up v p ≤ v) × ((v - up v p) * p ≤ v * (p - 1)) × (v * (p - 1) < (v - up v p + 1) * p)
unfolding Bounds
up_bounds v p h =
    let ep : p - 1 + 1 ≡ p = omega arith in
    let parts = Bounds-of_parts (v / p) (v % p) (p - 1) (rw ep (mod-lt v h)) in
    subst (λ t. Bounds t p (p - 1) (up v p)) (div-add-mod' v p)
      (subst (λ t. Bounds (v / p * t + v % p) t (p - 1) (up v p)) ep parts)

tax-up :
    (x : FractionalAsset) (tax_rate : ℕ)
    → x.value < 2 ^ 128
    → tax_of x tax_rate ≡ up x.value (2 ^ tax_rate)
unfolding tax_of
tax-up x tax_rate h =
    ground (arith, up_bounds x.value (2 ^ tax_rate) (one-le-pow tax_rate 2 (omega arith)))

-- For an amount of 128 bits, the result is the largest number of whole units that is at most the
-- amount less its 2^-tax_rate part: taxing and rounding lose less than one unit, and never round
-- in favour of the taxed.
pub tax_and_round_lem :
    (x : FractionalAsset) (tax_rate : ℕ)
    → x.value < 2 ^ 128
    → let r = tax_and_round x tax_rate in
      (r * 2 ^ 10 * 2 ^ tax_rate ≤ x.value * (2 ^ tax_rate - 1))
      × (x.value * (2 ^ tax_rate - 1) < (r + 1) * 2 ^ 10 * 2 ^ tax_rate)
unfolding tax_and_round
tax_and_round_lem x tax_rate h =
    let p = 2 ^ tax_rate in
    let bounds = up_bounds x.value p (one-le-pow tax_rate 2 (omega arith)) in
    let taxed : tax_of x tax_rate ≡ up x.value p = tax-up x tax_rate h in
    let d = x.value - up x.value p in
    let left : (x.value + 2 ^ 128 - tax_of x tax_rate) % 2 ^ 128 ≡ d = omega (arith, bounds.0) in
    let low : d / 2 ^ 10 * 2 ^ 10 ≤ d = omega arith in
    let high : d + 1 ≤ (d / 2 ^ 10 + 1) * 2 ^ 10 = omega arith in
    rw left (
      le_trans (mul-le-mul_right p low) bounds.1,
      lt_of_lt_of_le bounds.2 (mul-le-mul_right p high),
    )
