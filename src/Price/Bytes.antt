-- ===== src/Price/Bytes.antt =====
-- Prices as bytes.
use speedex.Prelude.{ℕ, ◌≤◌, ◌<◌, ◌^◌, ◌≡◌, true, ◌==◌, arith}
use speedex.Price.{
  max_price, write_price_big_endian, read_price_big_endian, is_valid_price, impose_price_bounds,
}

-- Every number of 48 bits, so every valid price, is read back from the bytes that it is written to.
pub read-write_price :
    (p : ℕ) → p ≤ max_price → read_price_big_endian (write_price_big_endian p) ≡ p
unfolding read_price_big_endian write_price_big_endian
read-write_price p h = omega arith

-- Imposing the bounds on a 128-bit value gives a valid price, and leaves the value alone exactly if
-- it was a valid price.
pub impose_price_bounds_lem :
    (val : ℕ)
    → val < 2 ^ 128
    → (is_valid_price (impose_price_bounds val) ≡ true)
      × ((impose_price_bounds val == val) ≡ is_valid_price val)
unfolding impose_price_bounds is_valid_price
impose_price_bounds_lem val h = ground arith
