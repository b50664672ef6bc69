-- ===== src/Price/SafeMultiply.antt =====
-- The capped product of two wide numbers.
use native.Mathlib.Nat.{mod-eq_of_lt, mul-zero, zero-mul, zero-div, mul-le-mul, div-le_self}
use speedex.Prelude.{
  ℕ, ◌+◌, ◌-◌, ◌*◌, ◌/◌, ◌%◌, ◌≤◌, ◌<◌, ◌^◌, ◌≡◌, refl, if◌then◌else◌, ltb, leb, ◌||◌, false, true,
  some, arith, ap,
}
use speedex.Price.{max_price, safe_multiply_and_drop_lowbits}

not_below : (m : ℕ) → ltb m 0 ≡ false
not_below m = ground arith

capped :
    (out : ℕ)
    → out < 2 ^ 128
    → (if ltb max_price ((((out + 0) % 2 ^ 128) + 0) % 2 ^ 128)
          then max_price
          else (((out + 0) % 2 ^ 128) + 0) % 2 ^ 128)
        % 2 ^ 64
      ≡ (if ltb max_price out then max_price else out)
capped out h =
    let same : (((out + 0) % 2 ^ 128) + 0) % 2 ^ 128 ≡ out = omega arith in rw same (ground arith)

no_high : (m : ℕ) → (if ltb m 0 then m else 0) ≡ 0
no_high m = rw (not_below m) refl

-- For two numbers of 64 bits and from 64 to 127 bits to drop, the result is exactly the product
-- without those bits, or the largest price if that is smaller.
pub safe_multiply-exact :
    (first second bits : ℕ)
    → first < 2 ^ 64
    → second < 2 ^ 64
    → 64 ≤ bits
    → bits < 128
    → let product = first * second / 2 ^ bits in
      safe_multiply_and_drop_lowbits first second bits
      ≡ some (if ltb max_price product then max_price else product)
unfolding safe_multiply_and_drop_lowbits
safe_multiply-exact first second bits hf hs low high =
    let inside : (ltb bits 64 || ltb 196 bits) ≡ false = ground arith in
    let short : ltb bits 128 ≡ true = ground arith in
    let short_or_equal : leb bits 128 ≡ true = ground arith in
    let f0 : first / 2 ^ 64 % 2 ^ 64 ≡ 0 = omega arith in
    let s0 : second / 2 ^ 64 % 2 ^ 64 ≡ 0 = omega arith in
    let fl : first % 2 ^ 64 ≡ first = mod-eq_of_lt hf in
    let sl : second % 2 ^ 64 ≡ second = mod-eq_of_lt hs in
    let bound : first * second ≤ (2 ^ 64 - 1) * (2 ^ 64 - 1) =
      mul-le-mul {n₂ = 2 ^ 64 - 1} {m₂ = 2 ^ 64 - 1} (omega arith) (omega arith) in
    let quotient : first * second / 2 ^ bits < 2 ^ 128 =
      omega (arith, bound, div-le_self (first * second) (2 ^ bits)) in
    rw
      (
        inside,
        short,
        short_or_equal,
        f0,
        s0,
        fl,
        sl,
        mul-zero first,
        zero-mul second,
        zero-mul 0,
        zero-div (2 ^ (bits - 64)),
        no_high (2 ^ (if leb (128 - bits) 48 then 48 - (128 - bits) else 0) - 1),
        zero-mul (2 ^ (128 - bits)),
      )
      (ap some (capped (first * second / 2 ^ bits) quotient))
