-- ===== src/Orderbook/Demand.antt =====
-- The supply and the demand of one orderbook at given prices (orderbook/orderbook.cc and
-- orderbook/helpers.h). The index that the queries search is `Orderbook::indexed_metadata`, which
-- the trie of offers, of a submodule, generates. An `int64_t` or an `int128_t` total is kept as its
-- bit pattern, and the arrays of prices and the workspaces are lists. `none` is a thrown error, an
-- access outside the index, or an index sum past the range of `int`.
pub mod Index
pub mod Totals
pub mod Prices
pub mod Volume
pub mod Supply
mod Tests
use speedex.Prelude.{
  ℕ, zero, suc, ◌+◌, ◌-◌, ◌*◌, ◌/◌, ◌%◌, ◌^◌, Bool, if◌then◌else◌, leb, ltb, ◌==◌, ◌||◌, List, [],
  ◌∷◌, Option, none, some, length, get_or, get_elem?, set,
}
use speedex.Types.{Offer, OfferCategory}
use speedex.Price.{price_radix, wide_multiply_val_by_a_over_b}

pub record EndowAccumulator : Type 0 where
  pub endow : ℕ
  pub endow_times_price : ℕ

abbrev pub no_endow : EndowAccumulator
no_endow = record { endow = 0; endow_times_price = 0 }

-- Of the price and the amount of an offer.
unfoldable pub of_metadata : ℕ → ℕ → EndowAccumulator
of_metadata price endow = record { endow = endow; endow_times_price = endow * price % 2 ^ 128 }

-- `operator+=`
unfoldable pub add_endow : EndowAccumulator → EndowAccumulator → EndowAccumulator
add_endow x other = record {
  endow = (x.endow + other.endow) % 2 ^ 64;
  endow_times_price = (x.endow_times_price + other.endow_times_price) % 2 ^ 128;
}

pub record IndexedMetadata : Type 0 where
  pub key : ℕ
  pub metadata : EndowAccumulator

-- `indexed_metadata.size() - 1`, as the bit pattern of an `int`.
abbrev pub last_index : List IndexedMetadata → ℕ
last_index index = (length index + 2 ^ 64 - 1) % 2 ^ 32

-- The loop of `get_metadata`, on fuel.
unfoldable pub search_metadata : ℕ → List IndexedMetadata → ℕ → ℕ → ℕ → Option EndowAccumulator
search_metadata zero index p start stop = none
search_metadata (suc fuel) index p start stop =
    let mp = (stop + start) / 2 in
    let rest : Option EndowAccumulator = elim (get_elem? index mp) [
      | none ↦ none
      | some entry ↦
          let below = leb entry.key p in
          search_metadata fuel index p (if below then mp + 1 else start)
            (if below then stop else mp)
    ] in
    if leb (2 ^ 31) (stop + start)
    then none
    else if stop == start
    then elim (get_elem? index (stop - 1)) [ none ↦ none | some entry ↦ some entry.metadata ]
    else rest

unfoldable pub get_metadata : List IndexedMetadata → ℕ → Option EndowAccumulator
unfolding search_metadata
get_metadata index p =
    let stop = last_index index in
    if stop == 0 || leb (2 ^ 31) stop then some no_endow else elim (get_elem? index stop) [
      | none ↦ none
      | some entry ↦
          if leb entry.key p
          then some entry.metadata
          else search_metadata (length index) index p 1 stop
    ]

-- The price below which every offer is cleared, and the one above which none is. The divisor is
-- not 0: the code divides by it unchecked.
unfoldable pub get_execution_prices : ℕ → ℕ → ℕ → ℕ × ℕ
get_execution_prices sell_price buy_price smooth_mult =
    let extra_bits_len = 64 - price_radix in
    let ratio = sell_price * 2 ^ 64 / buy_price / 2 ^ extra_bits_len in
    let upper_bound_price = ratio % 2 ^ 64 in
    let smoothed = upper_bound_price - upper_bound_price / 2 ^ smooth_mult in
    (if smooth_mult == 0 then upper_bound_price else smoothed, upper_bound_price)

unfoldable pub get_supply_bounds : List IndexedMetadata → ℕ → ℕ → ℕ → Option (ℕ × ℕ)
get_supply_bounds index sell_price buy_price smooth_mult =
    let (lower_bound_price, upper_bound_price) =
      get_execution_prices sell_price buy_price smooth_mult in
    elim (get_metadata index upper_bound_price) [
      | none ↦ none
      | some upper ↦ elim (get_metadata index lower_bound_price) [
        | none ↦ none
        | some lower ↦ some (lower.endow, upper.endow)
      ]
    ]

-- `wide_multiply_safe`, the product of a total and a price without the lowest 24 bits.
unfoldable pub wide_multiply_safe : ℕ → ℕ → ℕ
wide_multiply_safe endow_times_limit_price price =
    let upper = endow_times_limit_price / 2 ^ 64 * price % 2 ^ 128 in
    let lower = endow_times_limit_price % 2 ^ 64 * price % 2 ^ 128 in
    (upper * 2 ^ (64 - price_radix) % 2 ^ 128 + lower / 2 ^ price_radix) % 2 ^ 128

-- The order of two `int128_t`.
abbrev pub less_int128 : ℕ → ℕ → Bool
less_int128 a b = ltb ((a + 2 ^ 127) % 2 ^ 128) ((b + 2 ^ 127) % 2 ^ 128)

-- `workspace[asset] += amount`
unfoldable pub add_amount : List ℕ → ℕ → ℕ → List ℕ
add_amount workspace asset amount =
    set workspace asset ((get_or workspace asset 0 + amount) % 2 ^ 128)

-- The volume that `calculate_demands_and_supplies_times_prices_from_metadata` adds.
unfoldable pub trade_volume : ℕ → ℕ → ℕ → EndowAccumulator → EndowAccumulator → Option ℕ
trade_volume sell_price buy_price smooth_mult partial full =
    let partial_exec_endow = (partial.endow + 2 ^ 64 - full.endow) % 2 ^ 64 in
    let partial_exec_endow_times_price =
      (partial.endow_times_price + 2 ^ 128 - full.endow_times_price) % 2 ^ 128 in
    let full_exec_trade_volume = full.endow * sell_price % 2 ^ 128 in
    let part1 = sell_price * partial_exec_endow % 2 ^ 128 in
    let part2 = wide_multiply_safe partial_exec_endow_times_price buy_price in
    let smoothed = (part1 - part2) * 2 ^ smooth_mult % 2 ^ 128 in
    if less_int128 partial.endow_times_price full.endow_times_price
    then none
    else if smooth_mult == 0
    then some full_exec_trade_volume
    else if ltb part1 part2
    then none
    else some ((full_exec_trade_volume + smoothed) % 2 ^ 128)

-- The workspaces of demands and of supplies, in this order.
unfoldable pub calculate_demands_and_supplies_times_prices_from_metadata :
    OfferCategory
    → List ℕ
    → List ℕ
    → List ℕ
    → ℕ
    → EndowAccumulator
    → EndowAccumulator
    → Option (List ℕ × List ℕ)
calculate_demands_and_supplies_times_prices_from_metadata category prices demands supplies
      smooth_mult partial full =
    elim (trade_volume (get_or prices category.sell_asset 0) (get_or prices category.buy_asset 0)
      smooth_mult partial full) [
        | none ↦ none
        | some total_trade_volume ↦ some (
          add_amount demands category.buy_asset total_trade_volume,
          add_amount supplies category.sell_asset total_trade_volume,
        )
      ]

-- The totals at the price above which no offer is cleared, and at the one below which all are.
unfoldable pub metadata_at :
    List IndexedMetadata → ℕ → ℕ → ℕ → Option (EndowAccumulator × EndowAccumulator)
metadata_at index sell_price buy_price smooth_mult =
    let (full_exec_p, partial_exec_p) = get_execution_prices sell_price buy_price smooth_mult in
    elim (get_metadata index partial_exec_p) [
      | none ↦ none
      | some partial ↦
          if smooth_mult == 0
          then some (partial, partial)
          else elim (get_metadata index full_exec_p) [
            | none ↦ none
            | some full ↦ some (partial, full)
          ]
    ]

unfoldable pub calculate_demands_and_supplies_times_prices :
    List IndexedMetadata → OfferCategory → List ℕ → List ℕ → List ℕ → ℕ → Option (List ℕ × List ℕ)
unfolding calculate_demands_and_supplies_times_prices_from_metadata
calculate_demands_and_supplies_times_prices index category prices demands supplies smooth_mult =
    elim (metadata_at index (get_or prices category.sell_asset 0)
      (get_or prices category.buy_asset 0) smooth_mult) [
        | none ↦ none
        | some (partial, full) ↦
            calculate_demands_and_supplies_times_prices_from_metadata category prices demands
              supplies smooth_mult partial full
      ]
