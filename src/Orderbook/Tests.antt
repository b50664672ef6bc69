-- ===== src/Orderbook/Tests.antt =====
-- Runs of the orderbooks' arithmetic at concrete offers and headers.
use speedex.Prelude.{
  ℕ, ◌^◌, ◌<◌, ◌≡◌, refl, ◌↔◌, true, some, [], ◌∷◌, if◌then◌else◌, ltb, length, get_or, arith,
}
use speedex.Prelude.Int.{ℤ}
use speedex.Types.{OfferCategory, Offer}
use speedex.FixedPoint.{from_raw}
use speedex.Orderbook.Categories.{
  category_to_idx, category_from_idx, validate_category, get_num_orderbooks_by_asset_count,
}
use speedex.Orderbook.Categories.Bijection.{category_from-to_idx}
use speedex.Orderbook.CommitmentChecker.{
  ValidationStatistics, SingleOrderbookStateCommitment, OrderbookStateCommitmentChecker,
  check_stats,
}
use speedex.Orderbook.CommitmentChecker.Stats.{of_orderbook, Agrees, no_commitment, check_stats_iff}

abbrev category : OfferCategory
category = record { sell_asset = 2; buy_asset = 1; offer_type = 0 }

category_from-to_idx_example :
    (i : ℕ) × (category_to_idx category 3 ≡ some i)
    × (i < get_num_orderbooks_by_asset_count 3)
    × (category_from_idx i 3 ≡ some category)
unfolding validate_category
category_from-to_idx_example = category_from-to_idx category 3 (omega arith) refl

abbrev offer : Offer
offer = record { category = category; offer_id = 256; owner = 7; amount = 100; min_price = 2 ^ 24 }

-- A database of one account, which keeps what that account owns of each asset.
abbrev credit : (ℕ → ℤ) → ℕ → ℕ → ℤ → ℕ → ℤ
credit balances account asset amount a = if ltb a asset then balances a else amount

-- Two assets that are exchanged for each other, 10 units each way.
abbrev exchange : SingleOrderbookStateCommitment
exchange = record {
  root_hash = 1;
  fractional_supply_activated = 10240;
  partial_exec_threshold_key = 5;
  threshold_key_is_null = 0;
  partial_exec_offer_activation_amount = 240;
}

abbrev checker : OrderbookStateCommitmentChecker
checker = record {
  commitments = exchange ∷ exchange ∷ [];
  prices = 2 ^ 24 ∷ 2 ^ 24 ∷ [];
  tax_rate = 10;
}

abbrev gathered : ValidationStatistics
gathered = record { activated_supply = from_raw 10000 } ∷ []

check_stats_iff_example :
    (((check_stats checker gathered).1 ≡ true) ↔ (
      (i : ℕ)
      → i < length checker.commitments
      → Agrees (of_orderbook gathered i) (get_or checker.commitments i no_commitment)))
    × ((i : ℕ) → of_orderbook (check_stats checker gathered).0 i ≡ of_orderbook gathered i)
check_stats_iff_example = check_stats_iff checker gathered
