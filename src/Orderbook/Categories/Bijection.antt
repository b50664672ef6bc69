-- ===== src/Orderbook/Categories/Bijection.antt =====
-- The index of a valid category, and the category that `category_from_idx` reads from it.
use native.Mathlib.Nat.{
  div-eq_of_lt, mod-eq_of_lt, mul-add-div_right, mul-add-mod_self_right, mul-le-mul, mul-zero,
  zero-add, mul-le-mul_right,
}
use speedex.Prelude.{
  ℕ, ◌+◌, ◌-◌, ◌*◌, ◌/◌, ◌%◌, ◌≤◌, ◌<◌, ◌^◌, ◌≡◌, true, false, some, arith, if◌then◌else◌, leb, ltb,
  subst, sym, refl, ◌||◌, ◌==◌, suc,
}
use speedex.Types.{OfferCategory}
use speedex.Orderbook.Categories.{
  category_to_idx, category_from_idx, validate_category, get_num_orderbooks_by_asset_count,
}

row-lt : (s b n m : ℕ) → s < n → b < m → s * m + b < n * m
row-lt s b n m hs hb = let row : suc s * m ≤ n * m = mul-le-mul_right m hs in omega (arith, row)

row-div : (s b m : ℕ) → b < m → (s * m + b) / m ≡ s
row-div s b m h =
    let h0 : 0 < m = omega arith in
    let small : b / m ≡ 0 = div-eq_of_lt h in rw (mul-add-div_right h0 s b, small) (omega arith)

row-mod : (s b m : ℕ) → b < m → (s * m + b) % m ≡ b
row-mod s b m h = rw (mul-add-mod_self_right s m b) (mod-eq_of_lt h)

square-lt : (n m : ℕ) → n < 2 ^ 15 → m < 2 ^ 15 → n * m < 2 ^ 31
square-lt n m h g =
    let top : n * m ≤ 2 ^ 15 * 2 ^ 15 =
      mul-le-mul {n₂ = 2 ^ 15} {m₂ = 2 ^ 15} (omega arith) (omega arith) in
    omega (arith, top)

-- The column of `buy` in the row of `sell`, which has no place for `sell` itself.
abbrev column : ℕ → ℕ → ℕ
column s b = b - (if ltb s b then 1 else 0)

abbrev uncolumn : ℕ → ℕ → ℕ
uncolumn s b = if leb s b then b + 1 else b

column-lt : (s b n : ℕ) → ¬ (s ≡ b) → s < n → b < n → column s b < n - 1
column-lt s b n d hs hb = ground arith

uncolumn-column : (s b : ℕ) → ¬ (s ≡ b) → uncolumn s (column s b) ≡ b
uncolumn-column s b d = ground arith

valid_parts :
    (c : OfferCategory) (n : ℕ)
    → validate_category c n ≡ true
    → (¬ (c.sell_asset ≡ c.buy_asset)) × (c.sell_asset < n) × (c.buy_asset < n) × (c.offer_type ≡ 0)
unfolding validate_category
valid_parts c n v = (ground arith, ground arith, ground arith, ground arith)

to_idx :
    (c : OfferCategory) (n : ℕ)
    → n < 2 ^ 15
    → validate_category c n ≡ true
    → category_to_idx c n ≡ some (c.sell_asset * (n - 1) + column c.sell_asset c.buy_asset)
unfolding category_to_idx
to_idx c n h v =
    let (d, hs, hb, t) = valid_parts c n v in
    let wrap : (n + 2 ^ 32 - 1) % 2 ^ 32 ≡ n - 1 = omega arith in
    let inside : (leb n c.sell_asset || leb n c.buy_asset) ≡ false = ground arith in
    let column_lt = column-lt c.sell_asset c.buy_asset n d hs hb in
    let row = row-lt c.sell_asset (column c.sell_asset c.buy_asset) n (n - 1) hs column_lt in
    let square = square-lt n (n - 1) h (omega arith) in
    let i = c.sell_asset * (n - 1) + column c.sell_asset c.buy_asset in
    let small : i % 2 ^ 32 ≡ i = mod-eq_of_lt (omega arith) in
    rw (inside, t, wrap, mul-zero (n * (n + 2 ^ 32 - 1) % 2 ^ 32), small, zero-add i, small) refl

from_idx :
    (s b n : ℕ)
    → s < n
    → b < n - 1
    → category_from_idx (s * (n - 1) + b) n
      ≡ some (record { sell_asset = s; buy_asset = uncolumn s b; offer_type = 0 })
unfolding category_from_idx
from_idx s b n hs hb =
    let row = row-lt s b n (n - 1) hs hb in
    let some_row : (n * (n - 1) == 0) ≡ false = ground arith in
    let whole = mod-eq_of_lt row in
    let no_type = div-eq_of_lt row in
    rw (some_row, no_type, whole, row-div s b (n - 1) hb, row-mod s b (n - 1) hb) refl

-- For fewer than 2 ^ 15 assets, every category that `validate_category` accepts has an index, which
-- is below the number of orderbooks, and `category_from_idx` gives the category back from it.
pub category_from-to_idx :
    (c : OfferCategory) (n : ℕ)
    → n < 2 ^ 15
    → validate_category c n ≡ true
    → (i : ℕ) × (category_to_idx c n ≡ some i)
      × (i < get_num_orderbooks_by_asset_count n)
      × (category_from_idx i n ≡ some c)
unfolding get_num_orderbooks_by_asset_count
category_from-to_idx c n h v =
    let (d, hs, hb, t) = valid_parts c n v in
    let b = column c.sell_asset c.buy_asset in
    let column_lt = column-lt c.sell_asset c.buy_asset n d hs hb in
    let row = row-lt c.sell_asset b n (n - 1) hs column_lt in
    let wrap : (n + 2 ^ 32 - 1) % 2 ^ 32 ≡ n - 1 = omega arith in
    let square = square-lt n (n - 1) h (omega arith) in
    let whole : n * (n - 1) % 2 ^ 32 ≡ n * (n - 1) = mod-eq_of_lt (omega arith) in
    let back = from_idx c.sell_asset b n hs column_lt in
    let same : uncolumn c.sell_asset b ≡ c.buy_asset = uncolumn-column c.sell_asset c.buy_asset d in
    let i = c.sell_asset * (n - 1) + b in
    let with_buy =
      subst
        (λ y.
          category_from_idx i n
          ≡ some (record { sell_asset = c.sell_asset; buy_asset = y; offer_type = 0 }))
        same back in
    let with_type =
      subst
        (λ y.
          category_from_idx i n
          ≡ some (record { sell_asset = c.sell_asset; buy_asset = c.buy_asset; offer_type = y }))
        (sym t) with_buy in
    (i, to_idx c n h v, rw (wrap, whole) row, with_type)
