-- ===== src/Orderbook/CommitmentChecker.antt =====
-- The check of a block header's clearing data, and of the statistics that the validation of a
-- block gathers, against each other (orderbook/commitment_checker.h and .cc). The statistics'
-- mutex makes each `+=` one step. `none` is a division by zero: the one that `category_from_idx` runs
-- into where there are fewer than two assets, and the one by a price of the header.
pub mod Clears
pub mod Stats
use speedex.Prelude.{
  ℕ, zero, suc, ◌+◌, ◌-◌, ◌*◌, Bool, true, false, if◌then◌else◌, leb, ltb, not, ◌==◌, List, [], ◌∷◌,
  ◌++◌, Option, none, some, length, get_or, get_elem?, set, replicate,
}
use speedex.FixedPoint.{
  FractionalAsset, from_raw, zero_asset, from_integral, plus, less, same_value, ceil, tax_and_round,
}
use speedex.Price.{wide_multiply_val_by_a_over_b}
use speedex.Orderbook.Categories.{category_from_idx}

pub record SingleValidationStatistics : Type 0 where
  pub activated_supply : FractionalAsset

abbrev pub no_stats : SingleValidationStatistics
no_stats = record { activated_supply = zero_asset }

abbrev pub ValidationStatistics : Type 0
ValidationStatistics = List SingleValidationStatistics

-- `SingleValidationStatistics::operator+=`
unfoldable pub add_single :
    SingleValidationStatistics → SingleValidationStatistics → SingleValidationStatistics
add_single stats other = record {
  activated_supply = plus stats.activated_supply other.activated_supply;
}

-- `ValidationStatistics::operator+=`: the shorter one is taken to end in empty statistics.
unfoldable pub add_stats : ValidationStatistics → ValidationStatistics → ValidationStatistics
unfolding add_single
add_stats stats [] = stats
add_stats [] (o ∷ os) = add_single no_stats o ∷ add_stats [] os
add_stats (s ∷ ss) (o ∷ os) = add_single s o ∷ add_stats ss os

unfoldable pub make_minimum_size : ValidationStatistics → ℕ → ValidationStatistics
make_minimum_size stats sz =
    if leb (length stats) sz then stats ++ replicate (suc sz - length stats) no_stats else stats

-- A key and the fixed-point amounts are the numbers that their bytes stand for, in big-endian order.
pub record SingleOrderbookStateCommitment : Type 0 where
  pub root_hash : ℕ
  pub fractional_supply_activated : ℕ
  pub partial_exec_threshold_key : ℕ
  pub threshold_key_is_null : ℕ
  pub partial_exec_offer_activation_amount : ℕ

abbrev pub supply_activated : SingleOrderbookStateCommitment → FractionalAsset
supply_activated c = from_raw c.fractional_supply_activated

abbrev pub activation_amount : SingleOrderbookStateCommitment → FractionalAsset
activation_amount c = from_raw c.partial_exec_offer_activation_amount

unfoldable pub check_threshold_key : SingleOrderbookStateCommitment → Bool
check_threshold_key c =
    if not (c.partial_exec_threshold_key == 0)
    then c.threshold_key_is_null == 0
    else c.threshold_key_is_null == 1

pub record OrderbookStateCommitmentChecker : Type 0 where
  pub commitments : List SingleOrderbookStateCommitment
  pub prices : List ℕ
  pub tax_rate : ℕ

-- `v[i] += a`
abbrev pub add_at : List FractionalAsset → ℕ → FractionalAsset → List FractionalAsset
add_at v i a = set v i (plus (get_or v i zero_asset) a)

pub record Flows : Type 0 where
  pub supplies : List FractionalAsset
  pub demands : List FractionalAsset

-- One turn of the first loop of `check_clearing`.
unfoldable pub add_flow : List ℕ → Flows → ℕ → SingleOrderbookStateCommitment → Option Flows
add_flow prices flows i c = elim (category_from_idx i (length prices)) [
  | none ↦ none
  | some category ↦
      let supply = supply_activated c in
      let sell_price = get_or prices category.sell_asset 0 in
      let buy_price = get_or prices category.buy_asset 0 in
      let demanded_raw = wide_multiply_val_by_a_over_b supply.value sell_price buy_price in
      if buy_price == 0
      then none
      else some (record {
        supplies = add_at flows.supplies category.sell_asset (from_integral (ceil supply));
        demands = add_at flows.demands category.buy_asset (from_raw demanded_raw);
      })
]

-- The first loop, from index `i`, over the commitments left.
unfoldable pub add_flows : List ℕ → Flows → ℕ → List SingleOrderbookStateCommitment → Option Flows
unfolding add_flow
add_flows prices flows i [] = some flows
add_flows prices flows i (c ∷ cs) = elim (add_flow prices flows i c) [
  | none ↦ none
  | some next ↦ add_flows prices next (suc i) cs
]

-- The second loop, over the supplies and demands left, which are equally many.
unfoldable pub all_clear : ℕ → List FractionalAsset → List FractionalAsset → Bool
all_clear tax_rate [] demands = true
all_clear tax_rate (s ∷ supplies) [] = true
all_clear tax_rate (s ∷ supplies) (d ∷ demands) =
    let rest = all_clear tax_rate supplies demands in
    if less s (from_integral (tax_and_round d tax_rate)) then false else rest

unfoldable pub check_clearing : OrderbookStateCommitmentChecker → Option Bool
unfolding add_flows all_clear
check_clearing checker =
    let empty = replicate (length checker.prices) zero_asset in
    elim (add_flows checker.prices (record { supplies = empty; demands = empty }) 0
      checker.commitments) [
        | none ↦ none
        | some flows ↦ some (all_clear checker.tax_rate flows.supplies flows.demands)
      ]

-- The loop of `check_stats`, over the commitments left and the statistics from their index on.
-- There are at least as many statistics as commitments, so the case without one is not reached.
unfoldable pub check_each : ValidationStatistics → List SingleOrderbookStateCommitment → Bool
unfolding check_threshold_key
check_each stats [] = true
check_each [] (c ∷ cs) = false
check_each (s ∷ stats) (c ∷ cs) =
    let rest = check_each stats cs in
    if not (same_value (plus s.activated_supply (activation_amount c)) (supply_activated c))
    then false
    else if not (check_threshold_key c)
    then false
    else rest

-- The statistics as the call leaves them, and the result.
unfoldable pub check_stats :
    OrderbookStateCommitmentChecker → ValidationStatistics → ValidationStatistics × Bool
unfolding check_each make_minimum_size
check_stats checker fully_cleared_stats =
    let stats = make_minimum_size fully_cleared_stats (length checker.commitments) in
    (stats, check_each stats checker.commitments)
