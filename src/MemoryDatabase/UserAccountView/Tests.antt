-- ===== src/MemoryDatabase/UserAccountView/Tests.antt =====
-- A view of an account that holds 50 units of asset 1.
use speedex.Prelude.{◌≡◌, refl, List, [], ◌∷◌, arith}
use speedex.Prelude.Int.{pos, negsuc, ◌≤ℤ◌, neg64, wrap64, add64, sub64, ◌+ℤ◌, ◌-ℤ◌}
use speedex.Types.{TransactionProcessingStatus, success, insufficient_balance}
use speedex.MemoryDatabase.RevertableAsset.{of_amount, tentative, add_overflows}
use speedex.MemoryDatabase.RevertableAsset
use speedex.MemoryDatabase.UserAccount.{UserAccount, new_account, operate_on_asset}
use speedex.MemoryDatabase.UserAccount
use speedex.MemoryDatabase.UserAccount.Assets.{asset_at}
use speedex.MemoryDatabase.UserAccountView.{
  UserAccountView, new_view, conditional_escrow, transfer_available, commit, unwind,
}
use speedex.MemoryDatabase.UserAccountView.Balances.{
  Call, escrows, transfers, perform, perform_all, balance_after, commit-balance_after,
  perform_all-nonnegative,
}

abbrev holder : UserAccount
holder = record (new_account 3 0) { owned_assets = of_amount (pos 0) ∷ of_amount (pos 50) ∷ [] }

-- A receipt of 20, an escrow of 60 that draws 40 of the 50, and a payment of 11 that is refused.
abbrev calls : List Call
calls = transfers 1 (pos 20) ∷ escrows 1 (pos 60) ∷ transfers 1 (negsuc 10) ∷ []

abbrev statuses : List Call → UserAccountView → List TransactionProcessingStatus
statuses [] v = []
statuses (call ∷ calls) v = (perform call v).1 ∷ statuses calls (perform call v).0

calls-statuses : statuses calls (new_view holder) ≡ success ∷ success ∷ insufficient_balance ∷ []
unfolding conditional_escrow transfer_available add64 sub64 neg64 wrap64 ◌+ℤ◌ ◌-ℤ◌ operate_on_asset
    UserAccount.conditional_escrow UserAccount.conditional_transfer_available
    RevertableAsset.conditional_escrow RevertableAsset.conditional_transfer_available tentative
    add_overflows
calls-statuses = refl

commit-balance_after_example :
    let v = perform_all calls (new_view holder) in
    ((asset_at (unwind v) 1).available ≡ pos 50)
    × ((asset_at (commit v) 1).available ≡ balance_after 1 calls (new_view holder) (pos 50))
commit-balance_after_example = commit-balance_after calls holder 1 (omega arith, omega arith)

perform_all-nonnegative_example :
    pos 0 ≤ℤ (asset_at (perform_all calls (new_view holder)).main 1).available
perform_all-nonnegative_example = perform_all-nonnegative calls (new_view holder) 1 (omega arith)
