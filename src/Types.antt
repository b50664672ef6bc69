-- ===== src/Types.antt =====
-- The XDR types of transactions, operations and offers (xdr/types.x, xdr/transaction.x,
-- xdr/database_commitments.x). A `uint64` or `uint32` is a natural number and an `int64` an
-- integer; an opaque key, hash or signature is the number that its bytes stand for.
use speedex.Prelude.{ℕ, List, Bool, true, false}
use speedex.Prelude.Int.{ℤ}

pub data TransactionProcessingStatus : Type 0 where
  success source_account_nexist invalid_operation_type : TransactionProcessingStatus
  seq_num_too_low seq_num_too_high seq_num_temp_in_use : TransactionProcessingStatus
  starting_balance_too_low new_account_already_exists : TransactionProcessingStatus
  new_account_temp_reserved insufficient_balance invalid_tx_format : TransactionProcessingStatus
  invalid_offer_category invalid_price cancel_offer_target_nexist : TransactionProcessingStatus
  recipient_account_nexist invalid_print_money_amount invalid_amount : TransactionProcessingStatus
  bad_signature fee_bid_too_low : TransactionProcessingStatus

abbrev pub is_success : TransactionProcessingStatus → Bool
is_success success = true
is_success _ = false

-- `type` is the number of an `OfferType`; 0 is `SELL`, the only one.
pub record OfferCategory : Type 0 where
  pub sell_asset : ℕ
  pub buy_asset : ℕ
  pub offer_type : ℕ

pub record Offer : Type 0 where
  pub category : OfferCategory
  pub offer_id : ℕ
  pub owner : ℕ
  pub amount : ℕ
  pub min_price : ℕ

pub record CreateAccountOp : Type 0 where
  pub starting_balance : ℤ
  pub new_account_id : ℕ
  pub new_account_public_key : ℕ

pub record CreateSellOfferOp : Type 0 where
  pub category : OfferCategory
  pub amount : ℤ
  pub min_price : ℕ

pub record CancelSellOfferOp : Type 0 where
  pub category : OfferCategory
  pub offer_id : ℕ
  pub min_price : ℕ

pub record PaymentOp : Type 0 where
  pub receiver : ℕ
  pub asset : ℕ
  pub amount : ℤ

pub record MoneyPrinterOp : Type 0 where
  pub asset : ℕ
  pub amount : ℤ

-- `unknown` is a tag that is no `OperationType`, for the `default` branches of the handlers.
pub data Operation : Type 0 where
  create_account : CreateAccountOp → Operation
  create_sell_offer : CreateSellOfferOp → Operation
  cancel_sell_offer : CancelSellOfferOp → Operation
  payment : PaymentOp → Operation
  money_printer : MoneyPrinterOp → Operation
  unknown : ℕ → Operation

pub record TransactionMetadata : Type 0 where
  pub source_account : ℕ
  pub sequence_number : ℕ

pub record Transaction : Type 0 where
  pub metadata : TransactionMetadata
  pub operations : List Operation
  pub max_fee : ℕ

pub record SignedTransaction : Type 0 where
  pub transaction : Transaction
  pub signature : ℕ

pub record AssetCommitment : Type 0 where
  pub asset : ℕ
  pub amount_available : ℕ

pub record AccountCommitment : Type 0 where
  pub owner : ℕ
  pub assets : List AssetCommitment
  pub last_committed_id : ℕ
  pub pk : ℕ

pub record TxIdentifier : Type 0 where
  pub owner : ℕ
  pub sequence_number : ℕ

abbrev pub native_asset : ℕ
native_asset = 0

abbrev pub max_ops_per_tx : ℕ
max_ops_per_tx = 256

abbrev pub reserved_sequence_num_lowbits : ℕ
reserved_sequence_num_lowbits = 255
