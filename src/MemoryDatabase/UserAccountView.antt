-- ===== src/MemoryDatabase/UserAccountView.antt =====
-- A transaction's view of one account (`UserAccountView`, memory_database/memory_database_view.h
-- and .cc). What the transaction receives stays in a buffer until it commits; what it takes beyond
-- the buffer comes out of the account at once, and is kept in mind for unwinding.
pub mod Effects
pub mod Balances
pub mod Withdrawals
mod Tests
use speedex.Prelude.{ℕ, Bool, true, false, if◌then◌else◌, List, [], ◌∷◌}
use speedex.Prelude.Int.{ℤ, pos, ltb_ℤ, add64, sub64, neg64}
use speedex.Prelude.Dict.{Dict, value_or, insert}
use speedex.Types.{TransactionProcessingStatus, success, insufficient_balance}
use speedex.MemoryDatabase.UserAccount.{UserAccount}
use speedex.MemoryDatabase.UserAccount

-- `main` is the account that the source's view points to.
pub record UserAccountView : Type 0 where
  pub main : UserAccount
  pub available_buffer : Dict ℤ
  pub available_side_effects : Dict ℤ

abbrev pub new_view : UserAccount → UserAccountView
new_view main = record { main = main; available_buffer = []; available_side_effects = [] }

-- What both methods do where the buffer would become `new_buffer`, below 0: with what the account
-- answers. Reading the buffer has made an entry in it.
abbrev pub draw :
    UserAccountView → ℕ → ℤ → UserAccount × Bool → UserAccountView × TransactionProcessingStatus
draw v asset new_buffer (main, false) = (
  record v {
    main = main;
    available_buffer = insert asset (value_or (pos 0) asset v.available_buffer) v.available_buffer;
  },
  insufficient_balance,
)
draw v asset new_buffer (main, true) = (
  record {
    main = main;
    available_buffer = insert asset (pos 0) v.available_buffer;
    available_side_effects =
        insert asset (add64 (value_or (pos 0) asset v.available_side_effects) new_buffer)
          v.available_side_effects;
  },
  success,
)

unfoldable pub conditional_escrow :
    UserAccountView → ℕ → ℤ → UserAccountView × TransactionProcessingStatus
conditional_escrow v asset amount =
    let new_buffer = sub64 (value_or (pos 0) asset v.available_buffer) amount in
    let buffered = record v { available_buffer = insert asset new_buffer v.available_buffer } in
    if ltb_ℤ amount (pos 0)
    then (buffered, success)
    else if ltb_ℤ new_buffer (pos 0)
    then draw v asset new_buffer (UserAccount.conditional_escrow v.main asset (neg64 new_buffer))
    else (buffered, success)

unfoldable pub transfer_available :
    UserAccountView → ℕ → ℤ → UserAccountView × TransactionProcessingStatus
transfer_available v asset amount =
    let new_buffer = add64 (value_or (pos 0) asset v.available_buffer) amount in
    let buffered = record v { available_buffer = insert asset new_buffer v.available_buffer } in
    if ltb_ℤ new_buffer (pos 0)
    then draw v asset new_buffer
        (UserAccount.conditional_transfer_available v.main asset new_buffer)
    else (buffered, success)

-- The new view, since reading the buffer makes an entry, and the balance.
unfoldable pub lookup_available_balance : UserAccountView → ℕ → UserAccountView × ℤ
lookup_available_balance v asset =
    let buffered = value_or (pos 0) asset v.available_buffer in
    (
      record v { available_buffer = insert asset buffered v.available_buffer },
      add64 (UserAccount.lookup_available_balance v.main asset) buffered,
    )

-- The loops of `commit` and of `unwind` over a map, `amount` made of each entry.
unfoldable pub transfer_all : (ℤ → ℤ) → Dict ℤ → UserAccount → UserAccount
transfer_all amount [] main = main
transfer_all amount ((asset, x) ∷ d) main =
    transfer_all amount d (UserAccount.transfer_available main asset (amount x))

-- `commit` and `unwind` leave the account; the view is not used after them.
unfoldable pub commit : UserAccountView → UserAccount
unfolding transfer_all
commit v = transfer_all (λ x. x) v.available_buffer v.main

unfoldable pub unwind : UserAccountView → UserAccount
unfolding transfer_all
unwind v = transfer_all neg64 v.available_side_effects v.main
