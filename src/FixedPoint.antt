-- ===== src/FixedPoint.antt =====
-- Amounts of an asset with 10 bits below the point, in 128 bits (`FractionalAsset`,
-- utils/fixed_point_value.h). The conversions from and to `double` are not modelled.
pub mod Tax
mod Tests
use speedex.Prelude.{ℕ, ◌+◌, ◌-◌, ◌*◌, ◌/◌, ◌%◌, ◌^◌, if◌then◌else◌, ltb, ◌==◌, Bool}

abbrev pub radix : ℕ
radix = 10

pub record FractionalAsset : Type 0 where
  pub value : ℕ

abbrev pub from_raw : ℕ → FractionalAsset
from_raw value = record { value = value }

abbrev pub zero_asset : FractionalAsset
zero_asset = from_raw 0

unfoldable pub from_integral : ℕ → FractionalAsset
from_integral value = from_raw (value * 2 ^ radix % 2 ^ 128)

unfoldable pub plus : FractionalAsset → FractionalAsset → FractionalAsset
plus x y = from_raw ((x.value + y.value) % 2 ^ 128)

unfoldable pub minus : FractionalAsset → FractionalAsset → FractionalAsset
minus x y = from_raw ((x.value + 2 ^ 128 - y.value) % 2 ^ 128)

abbrev pub less : FractionalAsset → FractionalAsset → Bool
less x y = ltb x.value y.value

abbrev pub same_value : FractionalAsset → FractionalAsset → Bool
same_value x y = x.value == y.value

unfoldable pub floor : FractionalAsset → ℕ
floor x = x.value / 2 ^ radix

unfoldable pub ceil : FractionalAsset → ℕ
unfolding floor
ceil x = (floor x + (if x.value % 2 ^ radix == 0 then 0 else 1)) % 2 ^ 128

-- The tax, rounded up.
unfoldable pub tax_of : FractionalAsset → ℕ → ℕ
tax_of x tax_rate =
    if x.value % 2 ^ tax_rate == 0
    then x.value / 2 ^ tax_rate
    else (x.value / 2 ^ tax_rate + 1) % 2 ^ 128

unfoldable pub tax : FractionalAsset → ℕ → FractionalAsset
unfolding tax_of
tax x tax_rate = from_raw ((x.value + 2 ^ 128 - tax_of x tax_rate) % 2 ^ 128)

unfoldable pub tax_and_round : FractionalAsset → ℕ → ℕ
unfolding tax_of
tax_and_round x tax_rate = (x.value + 2 ^ 128 - tax_of x tax_rate) % 2 ^ 128 / 2 ^ radix
