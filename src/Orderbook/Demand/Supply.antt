-- ===== src/Orderbook/Demand/Supply.antt =====
-- The bounds on what an orderbook sells.
use native.Mathlib.Nat.{
  div-lt_iff_lt-mul, le-div_iff_mul-le, div-div-eq-div-mul, mul-div-mul_right, mod-eq_of_lt,
}
use speedex.Prelude.{
  ℕ, ◌+◌, ◌-◌, ◌*◌, ◌/◌, ◌≤◌, ◌<◌, ◌^◌, ◌≡◌, ◌∙◌, refl, ap, if◌then◌else◌, leb, ◌==◌, List, [], ◌∷◌,
  some, Bool-cases, inl, inr, arith,
}
use speedex.Types.{Offer}
use speedex.Price.{max_price}
use speedex.Orderbook.Demand.{IndexedMetadata, get_execution_prices, get_supply_bounds}
use speedex.Orderbook.Demand.Totals.{total_exact, amount_upto}
use speedex.Orderbook.Demand.Index.{Indexes, get_metadata-total}

-- What the offers sell whose limit price is at most sell / buy.
unfoldable pub payable : ℕ → ℕ → List Offer → ℕ
payable sell buy [] = 0
payable sell buy (o ∷ os) =
    (if leb (o.min_price * buy) (sell * 2 ^ 24) then o.amount else 0) + payable sell buy os

-- Where the exchange rate is below 2 ^ 40, the upper execution price is it, in 2^-24ths.
upper_price-exact :
    (sell buy k : ℕ)
    → 0 < buy
    → sell < 2 ^ 40 * buy
    → (get_execution_prices sell buy k).1 ≡ sell * 2 ^ 24 / buy
unfolding get_execution_prices
upper_price-exact sell buy k pos_buy rate =
    let small : sell * 2 ^ 24 / buy < 2 ^ 64 = (div-lt_iff_lt-mul pos_buy).1 (omega arith) in
    let widened : sell * 2 ^ 64 ≡ sell * 2 ^ 24 * 2 ^ 40 = omega arith in
    let quotient : sell * 2 ^ 64 / buy / 2 ^ 40 ≡ sell * 2 ^ 24 / buy =
      div-div-eq-div-mul (sell * 2 ^ 64) buy (2 ^ 40)
      ∙ ap (λ (t : ℕ). t / (buy * 2 ^ 40)) widened
      ∙ mul-div-mul_right {m = 2 ^ 40} (sell * 2 ^ 24) buy (omega arith) in
    rw quotient (mod-eq_of_lt small)

-- A limit price is at most the quotient exactly if the exchange rate meets it.
meets_iff : (sell buy p : ℕ) → 0 < buy → leb p (sell * 2 ^ 24 / buy) ≡ leb (p * buy) (sell * 2 ^ 24)
meets_iff sell buy p pos_buy =
    let both = le-div_iff_mul-le {x = p} {y = sell * 2 ^ 24} pos_buy in
    elim (Bool-cases (leb p (sell * 2 ^ 24 / buy))) [
      | inl le ↦ let met : p * buy ≤ sell * 2 ^ 24 = both.0 (ground arith) in ground arith
      | inr gt ↦ elim (Bool-cases (leb (p * buy) (sell * 2 ^ 24))) [
        | inl met ↦ let le : p ≤ sell * 2 ^ 24 / buy = both.1 (ground arith) in ground arith
        | inr unmet ↦ rw (gt, unmet) refl
      ]
    ]

lower_price :
    (sell buy k : ℕ)
    → (get_execution_prices sell buy k).0 ≡ (
        if k == 0
        then (get_execution_prices sell buy k).1
        else (get_execution_prices sell buy k).1 - (get_execution_prices sell buy k).1 / 2 ^ k)
unfolding get_execution_prices
lower_price sell buy k = refl

payable-eq :
    (sell buy : ℕ) (os : List Offer)
    → 0 < buy
    → amount_upto (sell * 2 ^ 24 / buy) os ≡ payable sell buy os
unfolding amount_upto payable
payable-eq sell buy [] pos_buy = refl
payable-eq sell buy (o ∷ os) pos_buy =
    rw (meets_iff sell buy o.min_price pos_buy, payable-eq sell buy os pos_buy) refl

-- Where the exchange rate is below 2 ^ 40 and all amounts together fit 63 bits, the upper bound is
-- exactly what the offers sell that the exchange rate meets, and the lower bound what those sell
-- whose limit price is at most that rate, in 2^-24ths and rounded down, less its 2^-k part.
pub get_supply_bounds-exact :
    (index : List IndexedMetadata) (os : List Offer) (sell buy k : ℕ)
    → Indexes index os
    → amount_upto max_price os < 2 ^ 63
    → 0 < buy
    → sell < 2 ^ 40 * buy
    → let rate = sell * 2 ^ 24 / buy in
      get_supply_bounds index sell buy k
      ≡ some (amount_upto (if k == 0 then rate else rate - rate / 2 ^ k) os, payable sell buy os)
unfolding get_supply_bounds
get_supply_bounds-exact [] os sell buy k h fits pos_buy rate = absurd h
get_supply_bounds-exact (e ∷ es) os sell buy k h fits pos_buy rate =
    let upper = upper_price-exact sell buy k pos_buy rate in
    rw
      (
        get_metadata-total (e ∷ es) os (get_execution_prices sell buy k).1 h,
        get_metadata-total (e ∷ es) os (get_execution_prices sell buy k).0 h,
        get_supply_bounds,
      )
      (rw
        (
          total_exact (get_execution_prices sell buy k).1 os h.1 fits,
          total_exact (get_execution_prices sell buy k).0 os h.1 fits,
          lower_price sell buy k,
          upper,
          payable-eq sell buy os pos_buy,
        )
        refl)
