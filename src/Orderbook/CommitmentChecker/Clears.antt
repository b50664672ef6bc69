-- ===== src/Orderbook/CommitmentChecker/Clears.antt =====
-- What `check_clearing` decides, against sums over the orderbooks.
use speedex.Prelude.{
  ℕ, suc, ◌+◌, ◌%◌, ◌^◌, ◌<◌, ◌≡◌, false, if◌then◌else◌, ◌==◌, List, [], ◌∷◌, Option, none, some,
  length, get_or,
}
use speedex.Types.{OfferCategory}
use speedex.FixedPoint.{FractionalAsset, zero_asset, from_integral, less, ceil, tax_and_round}
use speedex.Price.{wide_multiply_val_by_a_over_b}
use speedex.Orderbook.Categories.{category_from_idx}
use speedex.Orderbook.CommitmentChecker.{SingleOrderbookStateCommitment, supply_activated}

-- The value, if it is of asset `a`.
abbrev if_asset : ℕ → ℕ → ℕ → ℕ
if_asset a b value = if b == a then value else 0

abbrev sold_in : Option OfferCategory → ℕ → SingleOrderbookStateCommitment → ℕ
sold_in none a c = 0
sold_in (some k) a c = if_asset a k.sell_asset (from_integral (ceil (supply_activated c))).value

abbrev bought_in : List ℕ → Option OfferCategory → ℕ → SingleOrderbookStateCommitment → ℕ
bought_in prices none a c = 0
bought_in prices (some k) a c = if_asset a k.buy_asset (
    wide_multiply_val_by_a_over_b c.fractional_supply_activated (get_or prices k.sell_asset 0)
      (get_or prices k.buy_asset 0))

-- What the orderbooks from index `i` on sell of asset `a`, each rounded up to whole units.
abbrev pub sold : ℕ → ℕ → ℕ → List SingleOrderbookStateCommitment → ℕ
sold n a i [] = 0
sold n a i (c ∷ cs) = sold_in (category_from_idx i n) a c + sold n a (suc i) cs

-- What they are owed of asset `a` at the prices.
abbrev pub bought : List ℕ → ℕ → ℕ → List SingleOrderbookStateCommitment → ℕ
bought prices a i [] = 0
bought prices a i (c ∷ cs) =
    bought_in prices (category_from_idx i (length prices)) a c + bought prices a (suc i) cs

-- The entries of `v` are the sums `f`, in 128 bits.
abbrev Reads : ℕ → List FractionalAsset → (ℕ → ℕ) → Type 0
Reads n v f = (length v ≡ n) × ((a : ℕ) → a < n → (get_or v a zero_asset).value ≡ f a % 2 ^ 128)

Balanced : ℕ → List FractionalAsset → List FractionalAsset → ℕ → Type 0
Balanced t s d a =
    less (get_or s a zero_asset) (from_integral (tax_and_round (get_or d a zero_asset) t)) ≡ false
