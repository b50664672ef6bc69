-- ===== src/Orderbook/Clearing.antt =====
-- The clearing of an offer against the batch prices (orderbook/offer_clearing_logic.h), for any
-- database: `transfer_available` is the call of it that the code makes. The reason string that it
-- is passed, for debugging, is left out. An `out` argument is a part of the result.
pub mod Fairness
use speedex.Prelude.{ℕ}
use speedex.Prelude.Int.{ℤ, pos, wrap64}
use speedex.Types.{Offer}
use speedex.FixedPoint.{FractionalAsset, from_raw, from_integral, tax_and_round, ceil}
use speedex.Price.{wide_multiply_val_by_a_over_b}

-- What an offer for `amount` buys at the two prices, before and after the tax.
unfoldable pub buy_amount_fractional : FractionalAsset → ℕ → ℕ → FractionalAsset
buy_amount_fractional amount sell_price buy_price =
    from_raw (wide_multiply_val_by_a_over_b amount.value sell_price buy_price)

module _ {ℓ κ} {Db : Type ℓ} {Ptr : Type κ} (transfer_available : Db → Ptr → ℕ → ℤ → Db) where
  unfoldable pub clear_offer_full : Offer → ℕ → ℕ → ℕ → Db → Ptr → Db
  unfolding buy_amount_fractional
  clear_offer_full offer sell_price buy_price tax_rate db db_idx =
      let amount = from_integral offer.amount in
      transfer_available db db_idx offer.category.buy_asset
        (wrap64 (pos (tax_and_round (buy_amount_fractional amount sell_price buy_price) tax_rate)))

  -- The database, and the amounts sold and bought.
  unfoldable pub clear_offer_partial : Offer → ℕ → ℕ → ℕ → FractionalAsset → Db → Ptr → Db × ℤ × ℤ
  unfolding buy_amount_fractional
  clear_offer_partial offer sell_price buy_price tax_rate remaining_to_clear db db_idx =
      let out_buy_amount = wrap64 (
        pos (
          tax_and_round (buy_amount_fractional remaining_to_clear sell_price buy_price)
            tax_rate)) in
      let out_sell_amount = wrap64 (pos (ceil remaining_to_clear)) in
      (
        transfer_available db db_idx offer.category.buy_asset out_buy_amount,
        out_sell_amount,
        out_buy_amount,
      )
