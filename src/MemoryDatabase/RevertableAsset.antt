-- ===== src/MemoryDatabase/RevertableAsset.antt =====
-- The revertable amount of one asset (memory_database/revertable_asset.h). An amount is an
-- `int64_t`, and the wrapping arithmetic is that of `-fwrapv`. Each method runs here without
-- other threads; `Concurrent` puts the compare-and-swap loop under interleavings.
pub mod Laws
pub mod Concurrent
use speedex.Prelude.{ℕ, Bool, true, false, Option, none, some, if◌then◌else◌, not}
use speedex.Prelude.Int.{ℤ, pos, int64_min, ltb_ℤ, add64, sub64, neg64, to_uint64, ◌+ℤ◌, ◌==ℤ◌}
use speedex.Types.{AssetCommitment}

pub record RevertableAsset : Type 0 where
  pub available : ℤ
  pub committed_available : ℤ

-- `RevertableAsset(amount)`, and `RevertableAsset()` with no argument.
abbrev pub of_amount : ℤ → RevertableAsset
of_amount amount = record { available = amount; committed_available = amount }

abbrev pub new_asset : RevertableAsset
new_asset = of_amount (pos 0)

unfoldable pub escrow : RevertableAsset → ℤ → RevertableAsset
escrow a amount = record a { available = sub64 a.available amount }

unfoldable pub transfer_available : RevertableAsset → ℤ → RevertableAsset
transfer_available a amount = record a { available = add64 a.available amount }

-- `__builtin_add_overflow_p` at `int64_t`: the exact sum is out of range.
unfoldable pub add_overflows : ℤ → ℤ → Bool
add_overflows a b = not (a +ℤ b ==ℤ add64 a b)

-- The body of the loop after the load: the amount to store, or a refusal.
unfoldable pub tentative : ℤ → ℤ → Option ℤ
unfolding add_overflows
tentative current amount =
    if add_overflows current amount
    then none
    else if ltb_ℤ (add64 current amount) (pos 0)
    then none
    else some (add64 current amount)

unfoldable pub conditional_transfer_available : RevertableAsset → ℤ → RevertableAsset × Bool
unfolding transfer_available tentative
conditional_transfer_available a amount =
    if ltb_ℤ (pos 0) amount
    then (transfer_available a amount, true)
    else elim (tentative a.available amount) [
      | none ↦ (a, false)
      | some stored ↦ (record a { available = stored }, true)
    ]

unfoldable pub conditional_escrow : RevertableAsset → ℤ → RevertableAsset × Bool
unfolding conditional_transfer_available transfer_available
conditional_escrow a amount =
    if amount ==ℤ int64_min
    then (a, false)
    else if ltb_ℤ (pos 0) amount
    then conditional_transfer_available a (neg64 amount)
    else (transfer_available a (neg64 amount), true)

abbrev pub lookup_available_balance : RevertableAsset → ℤ
lookup_available_balance a = a.available

unfoldable pub produce_commitment : RevertableAsset → ℕ → AssetCommitment
produce_commitment a asset = record {
  asset = asset;
  amount_available = to_uint64 a.committed_available;
}

unfoldable pub tentative_commitment : RevertableAsset → ℕ → AssetCommitment
tentative_commitment a asset = record { asset = asset; amount_available = to_uint64 a.available }

-- The new state, and the amount that `commit` returns.
unfoldable pub commit : RevertableAsset → RevertableAsset × ℤ
commit a = (record a { committed_available = a.available }, a.available)

unfoldable pub rollback : RevertableAsset → RevertableAsset
rollback a = record a { available = a.committed_available }

unfoldable pub in_valid_state : RevertableAsset → Bool
in_valid_state a = not (ltb_ℤ a.available (pos 0))
