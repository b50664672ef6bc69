-- ===== src/Prelude/Bits.antt =====
-- Bits of machine words: `|` with one bit, `&` with one bit or with all bits but one, and the
-- position of the highest bit, for words of every width.
use speedex.Prelude.Tests.{◌==◌, if◌then◌else◌}
use Prim.Native.Nat.{
  ℕ, zero, suc, ◌+◌, ◌-◌, ◌*◌, ◌/◌, ◌%◌, ◌^◌, ◌≤◌, ◌<◌, min, max, bit_and, bit_or, digits,
  bit_and-bitwise, bit_or-bitwise,
}
use mathlib.Core.Path.{◌≡◌, refl, ap}
use mathlib.Core.Bool.{Bool, true, false, not, ◌&&◌, ◌||◌}
use native.Mathlib.Nat.{pow-suc, one-le-pow}
use native.Mathlib.Omega.{arith}

-- Whether bit `k` of the word is set.
unfoldable pub test_bit : ℕ → ℕ → Bool
test_bit w zero = w % 2 == 1
test_bit w (suc k) = test_bit (w / 2) k

module _ (z : ℕ → ℕ) (f : ℕ → ℕ → ℕ) where
  digits_enough : (w u a b : ℕ) → a ≤ w → a ≤ u → digits z f w a b ≡ digits z f u a b
  digits_enough zero zero a b p q = refl
  digits_enough zero (suc u) zero b p q = refl
  digits_enough zero (suc u) (suc a) b p q = absurd (omega arith)
  digits_enough (suc w) zero zero b p q = refl
  digits_enough (suc w) zero (suc a) b p q = absurd (omega arith)
  digits_enough (suc w) (suc u) zero b p q = refl
  digits_enough (suc w) (suc u) (suc a) b p q =
      rw (digits_enough w u (suc a / 2) (b / 2) (omega arith) (omega arith))

  digits_half :
      (a b : ℕ)
      → digits z f (suc a) (suc a) b
        ≡ digits z f (suc a / 2) (suc a / 2) (b / 2) * 2 + f (suc a % 2) (b % 2)
  digits_half a b =
      omega (arith, digits_enough a (suc a / 2) (suc a / 2) (b / 2) (omega arith) (omega arith))

-- The lowest digit, and the digits above it.
bit_or_digit : (a b : ℕ) → bit_or a b ≡ bit_or (a / 2) (b / 2) * 2 + max (a % 2) (b % 2)
bit_or_digit zero b = simp bit_or-bitwise (omega arith)
bit_or_digit (suc a) b = simp bit_or-bitwise (digits_half (λ y. y) max a b)

bit_and_digit : (a b : ℕ) → bit_and a b ≡ bit_and (a / 2) (b / 2) * 2 + min (a % 2) (b % 2)
bit_and_digit zero b = simp bit_and-bitwise (omega arith)
bit_and_digit (suc a) b = simp bit_and-bitwise (digits_half (λ y. 0) min a b)

bit_or_nothing : (n a : ℕ) → a ≤ n → bit_or a 0 ≡ a
bit_or_nothing n zero h = refl
bit_or_nothing zero (suc a) h = absurd (omega arith)
bit_or_nothing (suc n) (suc a) h =
    omega (arith, bit_or_digit (suc a) 0, bit_or_nothing n (suc a / 2) (omega arith))

bit_and_nothing : (n a : ℕ) → a ≤ n → bit_and a 0 ≡ 0
bit_and_nothing n zero h = refl
bit_and_nothing zero (suc a) h = absurd (omega arith)
bit_and_nothing (suc n) (suc a) h =
    omega (arith, bit_and_digit (suc a) 0, bit_and_nothing n (suc a / 2) (omega arith))

bit_or_low : (w : ℕ) → bit_or w 1 ≡ w / 2 * 2 + 1
bit_or_low w = omega (arith, bit_or_digit w 1, bit_or_nothing (w / 2) (w / 2) (omega arith))

bit_or_high : (w k : ℕ) → bit_or w (2 ^ suc k) ≡ bit_or (w / 2) (2 ^ k) * 2 + w % 2
bit_or_high w k = rw pow-suc (ground (arith, bit_or_digit w (2 ^ k * 2)))

bit_and_low : (w : ℕ) → bit_and w 1 ≡ w % 2
bit_and_low w = omega (arith, bit_and_digit w 1, bit_and_nothing (w / 2) (w / 2) (omega arith))

bit_and_high : (w k : ℕ) → bit_and w (2 ^ suc k) ≡ bit_and (w / 2) (2 ^ k) * 2
bit_and_high w k = rw pow-suc (ground (arith, bit_and_digit w (2 ^ k * 2)))

-- Setting a bit sets that bit and no other.
pub test_bit-bit_or : (w k j : ℕ) → test_bit (bit_or w (2 ^ k)) j ≡ ((j == k) || test_bit w j)
unfolding test_bit
test_bit-bit_or w zero zero = ground (arith, bit_or_low w)
test_bit-bit_or w zero (suc j) =
    let e : bit_or w 1 / 2 ≡ w / 2 = omega (arith, bit_or_low w) in ground (arith, e)
test_bit-bit_or w (suc k) zero = ground (arith, bit_or_high w k)
test_bit-bit_or w (suc k) (suc j) =
    let e : bit_or w (2 ^ suc k) / 2 ≡ bit_or (w / 2) (2 ^ k) = omega (arith, bit_or_high w k) in
    rw e (ground (arith, test_bit-bit_or (w / 2) k j))

pub bit_or-lt : (n w k : ℕ) → k < n → w < 2 ^ n → bit_or w (2 ^ k) < 2 ^ n
bit_or-lt zero w k h l = absurd (omega arith)
bit_or-lt (suc n) w zero h l = omega (arith, bit_or_low w, pow-suc 2 n)
bit_or-lt (suc n) w (suc k) h l = omega (
  arith,
  bit_or_high w k,
  pow-suc 2 n,
  bit_or-lt n (w / 2) k (omega arith) (omega (arith, pow-suc 2 n)),
)

-- The test `(w & (1 << k)) != 0`.
pub bit_and-test : (w k : ℕ) → (bit_and w (2 ^ k) == 0) ≡ not (test_bit w k)
unfolding test_bit
bit_and-test w zero = ground (arith, bit_and_low w)
bit_and-test w (suc k) = ground (arith, bit_and_high w k, bit_and-test (w / 2) k)

-- All `n` bits set, less bit `k`: the pattern of `~(1 << k)` in a word of `n` bits.
abbrev pub but_bit : ℕ → ℕ → ℕ
but_bit n k = 2 ^ n - 1 - 2 ^ k

bit_and_shape :
    (w b q r : ℕ) → b ≡ q * 2 + r → r < 2 → bit_and w b ≡ bit_and (w / 2) q * 2 + min (w % 2) r
bit_and_shape w b q r e h =
    let half : b / 2 ≡ q = omega arith in
    let low : b % 2 ≡ r = omega arith in rw (bit_and_digit w b, half, low)

bit_and_ones : (n w : ℕ) → w < 2 ^ n → bit_and w (2 ^ n - 1) ≡ w
bit_and_ones zero w h = omega (arith, bit_and_nothing w w (omega arith))
bit_and_ones (suc n) w h =
    let le : 1 ≤ 2 ^ n = one-le-pow n 2 (omega arith) in
    let two : 2 ^ suc n ≡ 2 ^ n * 2 = pow-suc 2 n in
    omega (
      arith,
      bit_and_shape w (2 ^ suc n - 1) (2 ^ n - 1) 1 (omega arith) (omega arith),
      bit_and_ones n (w / 2) (omega arith),
    )

pow-mono-lt : (k n : ℕ) → k < n → 2 ^ k < 2 ^ n
pow-mono-lt zero (suc n) h = omega (arith, pow-suc 2 n, one-le-pow n 2 (omega arith))
pow-mono-lt (suc k) (suc n) h =
    omega (arith, pow-suc 2 n, pow-suc 2 k, pow-mono-lt k n (omega arith))
pow-mono-lt k zero h = absurd (omega arith)

bit_and_but_low : (n w : ℕ) → w < 2 ^ suc n → bit_and w (but_bit (suc n) 0) ≡ w / 2 * 2
bit_and_but_low n w h =
    let le : 1 ≤ 2 ^ n = one-le-pow n 2 (omega arith) in
    let two : 2 ^ suc n ≡ 2 ^ n * 2 = pow-suc 2 n in
    omega (
      arith,
      bit_and_shape w (but_bit (suc n) 0) (2 ^ n - 1) 0 (omega arith) (omega arith),
      bit_and_ones n (w / 2) (omega arith),
    )

bit_and_but_high :
    (n w k : ℕ)
    → k < n
    → bit_and w (but_bit (suc n) (suc k)) ≡ bit_and (w / 2) (but_bit n k) * 2 + w % 2
bit_and_but_high n w k h =
    let lt : 2 ^ k < 2 ^ n = pow-mono-lt k n h in
    let two : 2 ^ suc n ≡ 2 ^ n * 2 = pow-suc 2 n in
    let two' : 2 ^ suc k ≡ 2 ^ k * 2 = pow-suc 2 k in
    omega
      (arith, bit_and_shape w (but_bit (suc n) (suc k)) (but_bit n k) 1 (omega arith) (omega arith))

-- Clearing a bit clears that bit and no other.
pub test_bit-bit_and :
    (n w k j : ℕ)
    → k < n
    → w < 2 ^ n
    → test_bit (bit_and w (but_bit n k)) j ≡ (not (j == k) && test_bit w j)
unfolding test_bit
test_bit-bit_and zero w k j h l = absurd (omega arith)
test_bit-bit_and (suc n) w zero zero h l = ground (arith, bit_and_but_low n w l)
test_bit-bit_and (suc n) w zero (suc j) h l =
    let e : bit_and w (but_bit (suc n) 0) / 2 ≡ w / 2 = omega (arith, bit_and_but_low n w l) in
    rw e (ground arith)
test_bit-bit_and (suc n) w (suc k) zero h l = ground (arith, bit_and_but_high n w k (omega arith))
test_bit-bit_and (suc n) w (suc k) (suc j) h l =
    let lower : w / 2 < 2 ^ n = omega (arith, pow-suc 2 n) in
    let e : bit_and w (but_bit (suc n) (suc k)) / 2 ≡ bit_and (w / 2) (but_bit n k) =
      omega (arith, bit_and_but_high n w k (omega arith)) in
    rw e (ground (arith, test_bit-bit_and n (w / 2) k j (omega arith) lower))

pub bit_and-le : (n w k : ℕ) → k < n → w < 2 ^ n → bit_and w (but_bit n k) ≤ w
bit_and-le zero w k h l = absurd (omega arith)
bit_and-le (suc n) w zero h l = omega (arith, bit_and_but_low n w l)
bit_and-le (suc n) w (suc k) h l = omega (
  arith,
  bit_and_but_high n w k (omega arith),
  bit_and-le n (w / 2) k (omega arith) (omega (arith, pow-suc 2 n)),
)

-- The number of digits up to the highest bit that is set, looking at `n` digits: the width less
-- the count of leading zeros.
unfoldable pub bit_length : ℕ → ℕ → ℕ
bit_length zero w = 0
bit_length (suc n) w = if w == 0 then 0 else bit_length n (w / 2) + 1

pub bit_length-le : (n w : ℕ) → bit_length n w ≤ n
unfolding bit_length
bit_length-le zero w = omega arith
bit_length-le (suc n) w = ground (arith, bit_length-le n (w / 2))

pub test_bit-zero : (k : ℕ) → test_bit 0 k ≡ false
unfolding test_bit
test_bit-zero zero = refl
test_bit-zero (suc k) = test_bit-zero k

pub bit_length-pos : (n w : ℕ) → 0 < w → w < 2 ^ n → 0 < bit_length n w
unfolding bit_length
bit_length-pos zero w p l = absurd (omega arith)
bit_length-pos (suc n) w p l = ground arith

-- No bit at or above the bit length is set, and the one below it is.
pub test_bit-lt-bit_length : (n w k : ℕ) → w < 2 ^ n → test_bit w k ≡ true → k < bit_length n w
unfolding bit_length test_bit
test_bit-lt-bit_length zero w k l h =
    let e : w ≡ 0 = omega arith in cc (test_bit-zero k, ap (λ v. test_bit v k) e)
test_bit-lt-bit_length (suc n) w zero l h = ground arith
test_bit-lt-bit_length (suc n) w (suc k) l h =
    ground
      (arith, test_bit-zero k, test_bit-lt-bit_length n (w / 2) k (omega (arith, pow-suc 2 n)) h)

pub test_bit-bit_length : (n w k : ℕ) → w < 2 ^ n → bit_length n w ≡ suc k → test_bit w k ≡ true
unfolding bit_length test_bit
test_bit-bit_length zero w k l h = ground arith
test_bit-bit_length (suc n) w zero l h =
    let lower : w / 2 < 2 ^ n = omega (arith, pow-suc 2 n) in
    ground (arith, bit_length-pos n (w / 2))
test_bit-bit_length (suc n) w (suc k) l h =
    let lower : w / 2 < 2 ^ n = omega (arith, pow-suc 2 n) in
    ground (arith, test_bit-bit_length n (w / 2) k)
