-- ===== src/BlockProcessing/Interfaces.antt =====
-- What the transaction handlers use of the other components: a view of the account database
-- (memory_database/memory_database_view.h), a manager of new and cancelled offers
-- (orderbook/orderbook_manager_view.h), the log of modified accounts
-- (modlog/account_modification_log.h) and the check of signatures (crypto/crypto_utils.h).
use speedex.Prelude.{ℕ, Bool, Option, ◌⊎◌, ◌+◌, ◌%◌, ◌^◌}
use speedex.Prelude.Int.{ℤ}
use speedex.Types.{
  TransactionProcessingStatus, OfferCategory, Offer, SignedTransaction, Transaction,
}

-- `Ptr` is `UserAccount*`; a null pointer is `none`, and a thrown error is `none` too. The reasons,
-- for debugging, are left out.
pub record Components : Type 1 where
  pub View : Type 0
  pub Ptr : Type 0
  pub Manager : Type 0
  pub Log : Type 0
  -- of the account database itself
  pub stored_user : ℕ → Option Ptr
  pub get_pk : Ptr → ℕ
  -- of the view
  pub lookup_user : View → ℕ → Option Ptr
  pub create_new_account : View → ℕ → ℕ → View × (TransactionProcessingStatus ⊎ Ptr)
  pub escrow : View → Ptr → ℕ → ℤ → View × TransactionProcessingStatus
  pub transfer_available : View → Ptr → ℕ → ℤ → View × TransactionProcessingStatus
  pub reserve_sequence_number : View → Ptr → ℕ → View × TransactionProcessingStatus
  pub commit : View → View
  pub unwind : View → Option View
  -- of the serial manager
  pub validate_category : OfferCategory → Bool
  pub look_up_idx : OfferCategory → Option ℕ
  pub add_offer : Manager → View → Log → ℕ → Offer → Manager × View × Log
  pub unwind_add_offer : Manager → ℕ → Offer → Manager
  pub delete_offer : Manager → ℕ → ℕ → ℕ → ℕ → Manager × Option Offer
  pub undelete_offer : Manager → ℕ → ℕ → ℕ → ℕ → Manager
  -- of the log
  pub maintain_account_log : Bool
  pub log_new_self_transaction : Log → SignedTransaction → Log
  pub log_other_modification : Log → ℕ → ℕ → ℕ → Log
  -- of the signatures
  pub check_sigs : Bool
  pub sig_check : Transaction → ℕ → ℕ → Bool

-- `BlockStateUpdateStats`
pub record BlockStateUpdateStats : Type 0 where
  pub new_offer_count : ℕ
  pub cancel_offer_count : ℕ
  pub fully_clear_offer_count : ℕ
  pub partial_clear_offer_count : ℕ
  pub payment_count : ℕ
  pub new_account_count : ℕ

abbrev pub no_stats : BlockStateUpdateStats
no_stats = record {
  new_offer_count = 0;
  cancel_offer_count = 0;
  fully_clear_offer_count = 0;
  partial_clear_offer_count = 0;
  payment_count = 0;
  new_account_count = 0;
}

-- `BlockStateUpdateStatsWrapper::operator+=`
unfoldable pub add_block_stats :
    BlockStateUpdateStats → BlockStateUpdateStats → BlockStateUpdateStats
add_block_stats a b = record {
  new_offer_count = (a.new_offer_count + b.new_offer_count) % 2 ^ 32;
  cancel_offer_count = (a.cancel_offer_count + b.cancel_offer_count) % 2 ^ 32;
  fully_clear_offer_count = (a.fully_clear_offer_count + b.fully_clear_offer_count) % 2 ^ 32;
  partial_clear_offer_count = (a.partial_clear_offer_count + b.partial_clear_offer_count) % 2 ^ 32;
  payment_count = (a.payment_count + b.payment_count) % 2 ^ 32;
  new_account_count = (a.new_account_count + b.new_account_count) % 2 ^ 32;
}
