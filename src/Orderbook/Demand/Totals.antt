-- ===== src/Orderbook/Demand/Totals.antt =====
-- What the totals of an orderbook mean: sums over its offers up to a price.
use native.Mathlib.Nat.{mul-le-mul_left}
use speedex.Prelude.{
  ℕ, ◌+◌, ◌*◌, ◌≤◌, ◌<◌, ◌^◌, ◌≡◌, if◌then◌else◌, leb, List, [], ◌∷◌, All, Bool-cases, inl, inr,
  arith, ◌⊎◌,
}
use speedex.Types.{Offer}
use speedex.Price.{max_price}
use speedex.Orderbook.Demand.{EndowAccumulator, no_endow, of_metadata, add_endow}

-- The accumulator over the offers whose limit price is at most `p`.
unfoldable pub total : ℕ → List Offer → EndowAccumulator
unfolding of_metadata add_endow
total p [] = no_endow
total p (o ∷ os) =
    if leb o.min_price p
    then add_endow (of_metadata o.min_price o.amount) (total p os)
    else total p os

-- The same sums without reduction.
unfoldable pub amount_upto : ℕ → List Offer → ℕ
amount_upto p [] = 0
amount_upto p (o ∷ os) = (if leb o.min_price p then o.amount else 0) + amount_upto p os

unfoldable pub value_upto : ℕ → List Offer → ℕ
value_upto p [] = 0
value_upto p (o ∷ os) = (if leb o.min_price p then o.amount * o.min_price else 0) + value_upto p os

-- No price separates the two bounds.
pub total-eq :
    (k p : ℕ) (os : List Offer)
    → k ≤ p
    → All (λ o. (o.min_price ≤ k) ⊎ (p < o.min_price)) os
    → total k os ≡ total p os
unfolding total
total-eq k p [] h gap = ground arith
total-eq k p (o ∷ os) h (inl low, gap) = ground (arith, total-eq k p os h gap)
total-eq k p (o ∷ os) h (inr high, gap) = ground (arith, total-eq k p os h gap)

abbrev pub HasValidPrices : List Offer → Type 0
HasValidPrices os = All (λ o. (1 ≤ o.min_price) × (o.min_price ≤ max_price)) os

pub value-le-amount :
    (p : ℕ) (os : List Offer) → HasValidPrices os → value_upto p os ≤ amount_upto p os * max_price
unfolding value_upto amount_upto
value-le-amount p [] valid = omega arith
value-le-amount p (o ∷ os) valid =
    let each : o.amount * o.min_price ≤ o.amount * max_price = mul-le-mul_left o.amount valid.0.1 in
    ground (arith, value-le-amount p os valid.1)

pub amount_mono : (k p : ℕ) (os : List Offer) → k ≤ p → amount_upto k os ≤ amount_upto p os
unfolding amount_upto
amount_mono k p [] h = omega arith
amount_mono k p (o ∷ os) h = ground (arith, amount_mono k p os h)

pub value_mono : (k p : ℕ) (os : List Offer) → k ≤ p → value_upto k os ≤ value_upto p os
unfolding value_upto
value_mono k p [] h = omega arith
value_mono k p (o ∷ os) h = ground (arith, value_mono k p os h)

-- Each offer between two prices is worth at most the higher one.
pub between_le :
    (k p : ℕ) (os : List Offer)
    → k ≤ p
    → value_upto p os + amount_upto k os * p ≤ value_upto k os + amount_upto p os * p
unfolding value_upto amount_upto
between_le k p [] h = omega arith
between_le k p (o ∷ os) h = elim (Bool-cases (leb o.min_price k)) [
  | inl low ↦ ground (arith, between_le k p os h)
  | inr high ↦ elim (Bool-cases (leb o.min_price p)) [
    | inl active ↦
        let each : o.amount * o.min_price ≤ o.amount * p =
          mul-le-mul_left o.amount (ground arith) in
        ground (arith, between_le k p os h)
    | inr never ↦ ground (arith, between_le k p os h)
  ]
]

pub amount_capped :
    (p : ℕ) (os : List Offer) → HasValidPrices os → amount_upto p os ≤ amount_upto max_price os
unfolding amount_upto
amount_capped p [] valid = omega arith
amount_capped p (o ∷ os) valid = ground (arith, amount_capped p os valid.1)

-- Where all amounts together fit 63 bits, the totals are the sums.
pub total_exact :
    (p : ℕ) (os : List Offer)
    → HasValidPrices os
    → amount_upto max_price os < 2 ^ 63
    → total p os ≡ record { endow = amount_upto p os; endow_times_price = value_upto p os }
unfolding total amount_upto value_upto of_metadata add_endow
total_exact p [] valid fits = ground arith
total_exact p (o ∷ os) valid fits =
    let each : o.amount * o.min_price ≤ o.amount * max_price = mul-le-mul_left o.amount valid.0.1 in
    ground
      (arith, total_exact p os valid.1, value-le-amount p os valid.1, amount_capped p os valid.1)
