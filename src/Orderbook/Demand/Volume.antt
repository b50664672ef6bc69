-- ===== src/Orderbook/Demand/Volume.antt =====
-- The volume that an orderbook adds to the demands and the supplies, and that it is always found.
use speedex.Prelude.{ℕ, ◌+◌, ◌-◌, ◌*◌, ◌≤◌, ◌<◌, ◌^◌, if◌then◌else◌, leb, ltb, ◌&&◌, List, [], ◌∷◌}
use speedex.Types.{Offer}
use speedex.Price.{max_price}
use speedex.Orderbook.Demand.{wide_multiply_safe}
use speedex.Orderbook.Demand.Totals.{HasValidPrices, amount_upto, value_upto}

-- What the offers with a limit price above `lo` and up to `hi` gain at the prices, in 2^-24ths: each
-- one gains its amount times what the exchange rate exceeds its limit price by.
unfoldable pub surplus : ℕ → ℕ → ℕ → ℕ → List Offer → ℕ
surplus sell buy lo hi [] = 0
surplus sell buy lo hi (o ∷ os) =
    (if leb o.min_price hi && ltb lo o.min_price
      then o.amount * (sell * 2 ^ 24 - o.min_price * buy)
      else 0)
    + surplus sell buy lo hi os

module _ (sell buy lo hi : ℕ) (os : List Offer) (valid : HasValidPrices os)
    (fits : amount_upto max_price os < 2 ^ 63) (sell_le : sell ≤ max_price)
    (buy_le : buy ≤ max_price) (ordered : lo ≤ hi) (below : hi * buy ≤ sell * 2 ^ 24) where
  amount : ℕ
  amount = amount_upto hi os - amount_upto lo os

  value : ℕ
  value = value_upto hi os - value_upto lo os

  -- What the offers between the two prices gain, rounded up.
  gain : ℕ
  gain = sell * amount - wide_multiply_safe value buy
