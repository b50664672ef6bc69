-- ===== src/Price.antt =====
-- Prices in 48 bits with 24 bits below the point, and the 128-bit arithmetic on them (utils/price.h).
-- The conversions from and to `double` are not modelled.
pub mod Bytes
pub mod Compare
pub mod SafeMultiply
mod Tests
use speedex.Prelude.{
  ℕ, zero, suc, ◌-◌, ◌*◌, ◌/◌, ◌%◌, ◌^◌, Bool, true, false, if◌then◌else◌, leb, ltb, ◌==◌, ◌&&◌,
  not, List, [], ◌∷◌, Option, none, some, ◌||◌, ◌+◌,
}

abbrev pub price_radix : ℕ
price_radix = 24

abbrev pub price_bytes : ℕ
price_bytes = 6

abbrev pub max_price : ℕ
max_price = 2 ^ 48 - 1

abbrev pub price_one : ℕ
price_one = 2 ^ 24

-- `smooth_mult`: a price less its 2^-k part.
unfoldable pub smooth_mult : ℕ → ℕ → ℕ
smooth_mult price k = price - price / 2 ^ k

unfoldable pub impose_price_bounds : ℕ → ℕ
impose_price_bounds val =
    if ltb max_price val then max_price else if val == 0 then 1 else val % 2 ^ 64

unfoldable pub is_valid_price : ℕ → Bool
is_valid_price price = leb price max_price && not (price == 0)

-- Comparisons of a quotient of prices with a price, in 128 bits.
unfoldable pub a_over_b_leq_c : ℕ → ℕ → ℕ → Bool
a_over_b_leq_c a b c = leb (a * 2 ^ price_radix % 2 ^ 128) (b * c % 2 ^ 128)

unfoldable pub a_over_b_lt_c : ℕ → ℕ → ℕ → Bool
a_over_b_lt_c a b c = ltb (a * 2 ^ price_radix % 2 ^ 128) (b * c % 2 ^ 128)

-- A value times a / b in 128 bits. The divisor is not 0: the code divides by it unchecked.
unfoldable pub wide_multiply_val_by_a_over_b : ℕ → ℕ → ℕ → ℕ
wide_multiply_val_by_a_over_b value a b =
    let modulo = value / b * a % 2 ^ 128 in
    let remainder = value % b * a % 2 ^ 128 / b in (modulo + remainder) % 2 ^ 128

-- The caps and the shift of the product of the high halves.
abbrev high_part : ℕ → ℕ → ℕ
high_part high_high lowbits_to_drop =
    let used_lowbits = 128 - lowbits_to_drop in
    let used_highbits = if leb used_lowbits 48 then 48 - used_lowbits else 0 in
    let max_highbits = 2 ^ used_highbits - 1 in
    (if ltb max_highbits high_high then max_highbits else high_high) * 2 ^ used_lowbits % 2 ^ 128

abbrev cap : ℕ → ℕ
cap out = if ltb max_price out then max_price else out

-- `none` is the error thrown on a number of bits out of range.
unfoldable pub safe_multiply_and_drop_lowbits : ℕ → ℕ → ℕ → Option ℕ
safe_multiply_and_drop_lowbits first second lowbits_to_drop =
    if ltb lowbits_to_drop 64 || ltb 196 lowbits_to_drop
    then none
    else let first_low = first % 2 ^ 64 in
      let first_high = first / 2 ^ 64 % 2 ^ 64 in
      let second_low = second % 2 ^ 64 in
      let second_high = second / 2 ^ 64 % 2 ^ 64 in
      let low_low = first_low * second_low in
      let low_high = first_low * second_high in
      let high_low = first_high * second_low in
      let high_high = first_high * second_high in
      let lowhigh_offset = lowbits_to_drop - 64 in
      let low = if ltb lowbits_to_drop 128 then low_low / 2 ^ lowbits_to_drop else 0 in
      let out =
        (low + (low_high / 2 ^ lowhigh_offset + high_low / 2 ^ lowhigh_offset) % 2 ^ 128)
        % 2 ^ 128 in
      if leb lowbits_to_drop 128
      then some (cap ((out + high_part high_high lowbits_to_drop) % 2 ^ 128) % 2 ^ 64)
      else some (cap ((out + high_high / 2 ^ (lowbits_to_drop - 128)) % 2 ^ 128) % 2 ^ 64)

-- `round_up_price_times_amount`, whose result is a `uint64_t`.
unfoldable pub round_up_price_times_amount : ℕ → ℕ
round_up_price_times_amount x =
    if x % 2 ^ price_radix == 0
    then x / 2 ^ price_radix % 2 ^ 64
    else (x / 2 ^ price_radix + 1) % 2 ^ 64

-- The loop of `write_price_big_endian`, with `n` bytes left, from the byte at offset 8 (n - 1) down.
unfoldable pub write_from : ℕ → ℕ → List ℕ
write_from zero price = []
write_from (suc n) price = (price / 2 ^ (n * 8) % 2 ^ 8) ∷ write_from n price

unfoldable pub write_price_big_endian : ℕ → List ℕ
unfolding write_from
write_price_big_endian price = write_from price_bytes price

-- The loop of `read_price_big_endian`, with the bytes left and the number read so far.
unfoldable pub read_from : List ℕ → ℕ → ℕ
read_from [] p = p
read_from (b ∷ bs) p = read_from bs ((p * 2 ^ 8 % 2 ^ 64 + b) % 2 ^ 64)

unfoldable pub read_price_big_endian : List ℕ → ℕ
unfolding read_from
read_price_big_endian buf = read_from buf 0
