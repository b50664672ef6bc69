-- ===== src/Filtering/AccountCreationFilter.antt =====
-- The accounts that a block's transactions create, and how often (`AccountCreationFilter`,
-- filtering/filter_log.h and .cc). A count is a `uint32_t`; the mutex makes each call one step.
pub mod Counts
use speedex.Prelude.{
  ℕ, ◌+◌, ◌%◌, ◌^◌, ◌==◌, Bool, true, false, if◌then◌else◌, Option, none, some, List, [], ◌∷◌,
}
use speedex.Prelude.Dict.{Dict, lookup, value_or, insert}
use speedex.Types.{
  Operation, create_account, create_sell_offer, cancel_sell_offer, payment, money_printer, unknown,
  SignedTransaction,
}

abbrev pub AccountCreationFilter : Type 0
AccountCreationFilter = Dict ℕ

unfoldable pub is_valid_account_creation : AccountCreationFilter → ℕ → Bool
is_valid_account_creation created_counts account = elim (lookup account created_counts) [
  | none ↦ true
  | some count ↦ count == 1
]

unfoldable pub log_account_creation : AccountCreationFilter → ℕ → AccountCreationFilter
log_account_creation created_counts src =
    insert src ((value_or 0 src created_counts + 1) % 2 ^ 32) created_counts

-- The loop of `check_valid_tx`.
unfoldable pub check_creations : AccountCreationFilter → List Operation → Bool
check_creations filter [] = true
check_creations filter (create_account op ∷ ops) =
    let rest = check_creations filter ops in
    if is_valid_account_creation filter op.new_account_id then rest else false
check_creations filter (create_sell_offer op ∷ ops) = check_creations filter ops
check_creations filter (cancel_sell_offer op ∷ ops) = check_creations filter ops
check_creations filter (payment op ∷ ops) = check_creations filter ops
check_creations filter (money_printer op ∷ ops) = check_creations filter ops
check_creations filter (unknown tag ∷ ops) = check_creations filter ops

unfoldable pub check_valid_tx : AccountCreationFilter → SignedTransaction → Bool
unfolding check_creations
check_valid_tx filter tx = check_creations filter tx.transaction.operations
