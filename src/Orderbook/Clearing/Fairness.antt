-- ===== src/Orderbook/Clearing/Fairness.antt =====
-- What a cleared offer is paid.
use speedex.Prelude.{ℕ, ◌+◌, ◌-◌, ◌*◌, ◌≤◌, ◌<◌, ◌^◌}

-- `r` units are what `x`, in 1024ths, buys at the price sell / buy after a tax of 2^-t, at most,
-- and within two units.
abbrev pub FairPay : ℕ → ℕ → ℕ → ℕ → ℕ → Type 0
FairPay x sell buy t r =
    (r * 1024 * 2 ^ t * buy ≤ x * sell * (2 ^ t - 1))
    × (x * sell * (2 ^ t - 1) < (r + 2) * 1024 * 2 ^ t * buy)
