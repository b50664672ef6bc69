-- ===== src/FixedPoint/Tests.antt =====
-- A run of the rounding and the tax at a concrete amount.
use speedex.Prelude.{◌≡◌, refl}
use speedex.FixedPoint.{FractionalAsset, from_raw, tax_and_round}

-- 4.5 units.
abbrev four_and_a_half : FractionalAsset
four_and_a_half = from_raw 4608

-- Half of it is 2.25 units.
half_taxed : tax_and_round four_and_a_half 1 ≡ 2
unfolding tax_and_round
half_taxed = refl
