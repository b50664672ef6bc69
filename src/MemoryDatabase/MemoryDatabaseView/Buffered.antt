-- ===== src/MemoryDatabase/MemoryDatabaseView/Buffered.antt =====
-- The view of block production (`BufferedMemoryDatabaseView`, memory_database/memory_database_view.h
-- and .cc): a view of each account that the transaction has touched, before the view that creates
-- accounts.
use speedex.Prelude.{ℕ, Bool, Option, none, some, [], ◌∷◌}
use speedex.Prelude.Int.{ℤ}
use speedex.Prelude.Dict.{Dict, lookup, insert}
use speedex.Types.{TransactionProcessingStatus}
use speedex.MemoryDatabase.UserAccount.{UserAccount}
use speedex.MemoryDatabase.UserAccount
use speedex.MemoryDatabase.UserAccountView.{UserAccountView, new_view}
use speedex.MemoryDatabase.UserAccountView
use speedex.MemoryDatabase.MemoryDatabase.{CommitmentTrie}
use speedex.MemoryDatabase.MemoryDatabaseView.{
  UserAccountPtr, stored, created, AccountCreationView, account_at, put_account, attempt,
  commit_creation_view, unwind_creation_view,
}

module _ (t : CommitmentTrie) where
  -- The views of `accounts` hold the buffers; their `main` is read from the database at each use.
  pub record BufferedMemoryDatabaseView : Type 0 where
    pub base : AccountCreationView t
    pub accounts : Dict UserAccountView

  -- `get_existing_account`, with the account that the pointer leads to.
  unfoldable pub get_existing_account :
      BufferedMemoryDatabaseView → ℕ → UserAccount → UserAccountView
  get_existing_account v idx a = elim (lookup idx v.accounts) [
    | none ↦ new_view a
    | some u ↦ record u { main = a }
  ]

  -- An operation on a new account, or on the view of one of the database.
  unfoldable pub operate :
      BufferedMemoryDatabaseView
      → UserAccountPtr
      → (UserAccount → UserAccount × Bool)
      → (UserAccountView → UserAccountView × TransactionProcessingStatus)
      → Option (BufferedMemoryDatabaseView × TransactionProcessingStatus)
  unfolding get_existing_account
  operate v (created id) of_account of_view = elim (account_at t v.base (created id)) [
    | none ↦ none
    | some a ↦
        let (base, status) = attempt t v.base (created id) (of_account a) in
        some (record v { base = base }, status)
  ]
  operate v (stored idx) of_account of_view = elim (account_at t v.base (stored idx)) [
    | none ↦ none
    | some a ↦
        let (u, status) = of_view (get_existing_account v idx a) in
        some (
          record {
            base = put_account t v.base (stored idx) u.main;
            accounts = insert idx u v.accounts;
          },
          status,
        )
  ]

  unfoldable pub escrow :
      BufferedMemoryDatabaseView
      → UserAccountPtr
      → ℕ
      → ℤ
      → Option (BufferedMemoryDatabaseView × TransactionProcessingStatus)
  unfolding operate
  escrow v account asset amount =
      operate v account (λ a. UserAccount.conditional_escrow a asset amount)
        (λ u. UserAccountView.conditional_escrow u asset amount)

  unfoldable pub transfer_available :
      BufferedMemoryDatabaseView
      → UserAccountPtr
      → ℕ
      → ℤ
      → Option (BufferedMemoryDatabaseView × TransactionProcessingStatus)
  unfolding operate
  transfer_available v account asset amount =
      operate v account (λ a. UserAccount.conditional_transfer_available a asset amount)
        (λ u. UserAccountView.transfer_available u asset amount)

  -- The loops of `commit` and `unwind` over the views of accounts, `finish` being what each does.
  unfoldable pub finish_accounts :
      (UserAccountView → UserAccount)
      → Dict UserAccountView
      → AccountCreationView t
      → Option (AccountCreationView t)
  finish_accounts finish [] v = some v
  finish_accounts finish ((idx, u) ∷ us) v = elim (account_at t v (stored idx)) [
    | none ↦ none
    | some a ↦
        finish_accounts finish us (put_account t v (stored idx) (finish (record u { main = a })))
  ]

  unfoldable pub commit : BufferedMemoryDatabaseView → Option (AccountCreationView t)
  unfolding finish_accounts commit_creation_view
  commit v = elim (finish_accounts UserAccountView.commit v.accounts v.base) [
    | none ↦ none
    | some base ↦ commit_creation_view t base
  ]

  unfoldable pub unwind : BufferedMemoryDatabaseView → Option (AccountCreationView t)
  unfolding finish_accounts unwind_creation_view
  unwind v = elim (finish_accounts UserAccountView.unwind v.accounts v.base) [
    | none ↦ none
    | some base ↦ unwind_creation_view t base
  ]
