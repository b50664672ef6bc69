-- ===== src/Orderbook/Demand/Tests.antt =====
-- Runs on an orderbook with two offers, at the limit prices 1 and 5 / 4, at the exchange rate 3 / 2.
use speedex.Prelude.{
  ℕ, ◌+◌, ◌*◌, ◌^◌, ◌≡◌, refl, List, [], ◌∷◌, some, arith, inl, inr, if◌then◌else◌, ◌==◌, ◌-◌, ◌/◌,
}
use speedex.Types.{Offer, OfferCategory}
use speedex.Orderbook.Demand.{
  IndexedMetadata, no_endow, get_metadata, get_execution_prices, get_supply_bounds,
}
use speedex.Orderbook.Demand.Totals.{total, amount_upto}
use speedex.Orderbook.Demand.Index.{Indexes, get_metadata-total}
use speedex.Orderbook.Demand.Supply.{payable, get_supply_bounds-exact}

abbrev category : OfferCategory
category = record { sell_asset = 0; buy_asset = 1; offer_type = 0 }

abbrev offer : ℕ → ℕ → Offer
offer id min_price = record {
  category = category;
  offer_id = id;
  owner = 7;
  amount = 100;
  min_price = min_price;
}

abbrev offers : List Offer
offers = offer 1 (2 ^ 24) ∷ offer 2 (5 * 2 ^ 22) ∷ []

abbrev index : List IndexedMetadata
index =
    record { key = 0; metadata = no_endow }
    ∷ record { key = 2 ^ 24; metadata = record { endow = 100; endow_times_price = 100 * 2 ^ 24 } }
    ∷ record {
      key = 5 * 2 ^ 22;
      metadata = record { endow = 200; endow_times_price = 225 * 2 ^ 24 };
    }
    ∷ []

abbrev prices : List ℕ
prices = (3 * 2 ^ 24) ∷ (2 * 2 ^ 24) ∷ []

at_one :
    get_metadata index (2 ^ 24 + 1)
    ≡ some (record { endow = 100; endow_times_price = 100 * 2 ^ 24 })
unfolding get_metadata
at_one = refl

index-Indexes : Indexes index offers
unfolding total
index-Indexes = (
  refl,
  ((omega arith, omega arith), ((omega arith, omega arith), tt)),
  (
    omega arith,
    (inr (omega arith), (inr (omega arith), tt)),
    refl,
    (
      omega arith,
      (inl (omega arith), (inr (omega arith), tt)),
      refl,
      (omega arith, (omega arith, tt)),
    ),
  ),
  omega arith,
)

get_metadata-total_example : get_metadata index (2 ^ 24 + 1) ≡ some (total (2 ^ 24 + 1) offers)
get_metadata-total_example = get_metadata-total index offers (2 ^ 24 + 1) index-Indexes

get_supply_bounds-exact_example :
    let rate = 3 * 2 ^ 24 * 2 ^ 24 / (2 * 2 ^ 24) in
    get_supply_bounds index (3 * 2 ^ 24) (2 * 2 ^ 24) 2
    ≡ some (
      amount_upto (if 2 == 0 then rate else rate - rate / 2 ^ 2) offers,
      payable (3 * 2 ^ 24) (2 * 2 ^ 24) offers,
    )
unfolding amount_upto
get_supply_bounds-exact_example =
    get_supply_bounds-exact index offers (3 * 2 ^ 24) (2 * 2 ^ 24) 2 index-Indexes (omega arith)
      (omega arith) (omega arith)

-- The rate less its quarter is 9 / 8, between the two limit prices.
bounds_at_rate : get_supply_bounds index (3 * 2 ^ 24) (2 * 2 ^ 24) 2 ≡ some (100, 200)
unfolding get_supply_bounds get_metadata get_execution_prices
bounds_at_rate = refl

-- At the exchange rate 2 ^ 40 the execution price is reduced to 0, and no offer is active.
bounds_wrapped : get_supply_bounds index (2 ^ 40) 1 0 ≡ some (0, 0)
unfolding get_supply_bounds get_metadata get_execution_prices
bounds_wrapped = refl
