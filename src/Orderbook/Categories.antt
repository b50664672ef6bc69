-- ===== src/Orderbook/Categories.antt =====
-- The index of the orderbook of each (sell, buy) pair (orderbook/utils.h). The arithmetic is in 32
-- bits, and the results stay below 2 ^ 31 for fewer than 2 ^ 15 assets. `none` is a thrown error,
-- or a division by zero.
pub mod Bijection
use speedex.Prelude.{
  ℕ, ◌+◌, ◌-◌, ◌*◌, ◌/◌, ◌%◌, ◌^◌, Bool, true, false, if◌then◌else◌, leb, ltb, ◌==◌, ◌||◌, not,
  ◌&&◌, Option, none, some,
}
use speedex.Types.{OfferCategory}

unfoldable pub map_type_to_int : ℕ → Option ℕ
map_type_to_int offer_type = if offer_type == 0 then some 0 else none

-- Any other number becomes the `OfferType` of bit pattern -1.
unfoldable pub map_int_to_type : ℕ → ℕ
map_int_to_type n = if n == 0 then 0 else 2 ^ 32 - 1

unfoldable pub category_to_idx : OfferCategory → ℕ → Option ℕ
unfolding map_type_to_int
category_to_idx id asset_count =
    if leb asset_count id.sell_asset || leb asset_count id.buy_asset
    then none
    else let units_per_order_type = asset_count * (asset_count + 2 ^ 32 - 1) % 2 ^ 32 in
      let shift = if ltb id.sell_asset id.buy_asset then 1 else 0 in
      let idx_in_order_type =
        (id.sell_asset * ((asset_count + 2 ^ 32 - 1) % 2 ^ 32) + (id.buy_asset - shift)) % 2 ^ 32 in
      elim (map_type_to_int id.offer_type) [
        | none ↦ none
        | some t ↦ some ((units_per_order_type * t + idx_in_order_type) % 2 ^ 32)
      ]

unfoldable pub category_from_idx : ℕ → ℕ → Option OfferCategory
unfolding map_int_to_type
category_from_idx idx asset_count =
    let units_per_order_type = asset_count * (asset_count - 1) in
    if units_per_order_type == 0
    then none
    else let remainder = idx % units_per_order_type in
      let sell_asset = remainder / (asset_count - 1) in
      let buy_asset = remainder % (asset_count - 1) in
      some (record {
        sell_asset = sell_asset;
        buy_asset = if leb sell_asset buy_asset then buy_asset + 1 else buy_asset;
        offer_type = map_int_to_type (idx / units_per_order_type);
      })

unfoldable pub validate_category : OfferCategory → ℕ → Bool
validate_category id asset_count =
    if id.sell_asset == id.buy_asset
    then false
    else if leb asset_count id.sell_asset || leb asset_count id.buy_asset
    then false
    else not (not (id.offer_type == 0))

unfoldable pub get_num_orderbooks_by_asset_count : ℕ → ℕ
get_num_orderbooks_by_asset_count asset_count =
    asset_count * ((asset_count + 2 ^ 32 - 1) % 2 ^ 32) % 2 ^ 32
