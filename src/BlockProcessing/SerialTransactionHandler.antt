-- ===== src/BlockProcessing/SerialTransactionHandler.antt =====
-- The operations of a transaction (`process_operation` of `SerialTransactionHandler`,
-- block_processing/serial_transaction_processor.h and .cc), which block production and block
-- validation share.
use speedex.Prelude.{
  ℕ, ◌+◌, ◌*◌, ◌^◌, ◌%◌, Bool, if◌then◌else◌, ◌==◌, ◌&&◌, not, Option, none, some, inl, inr, List,
  [], ◌∷◌,
}
use Prim.Native.Nat.{bit_and}
use speedex.Prelude.Int.{ℤ, pos, ltb_ℤ, neg64, to_uint64, signed64}
use speedex.Types.{
  native_asset, is_success, TransactionProcessingStatus, success, starting_balance_too_low,
  invalid_amount, invalid_offer_category, invalid_price, cancel_offer_target_nexist,
  recipient_account_nexist, invalid_print_money_amount, invalid_operation_type, TransactionMetadata,
  Transaction, SignedTransaction, Operation, create_account, create_sell_offer, cancel_sell_offer,
  payment, money_printer, unknown, CreateAccountOp, CreateSellOfferOp, CancelSellOfferOp, PaymentOp,
  MoneyPrinterOp, Offer, reserved_sequence_num_lowbits,
}
use speedex.Price.{is_valid_price}
use speedex.BlockProcessing.Interfaces.{Components, BlockStateUpdateStats}

abbrev pub create_account_min_starting_balance : ℤ
create_account_min_starting_balance = pos 100

unfoldable pub check_tx_format_parameters : Transaction → Bool
check_tx_format_parameters tx =
    bit_and tx.metadata.sequence_number reserved_sequence_num_lowbits == 0

-- `BASE_FEE_PER_TX` is 10 and `FEE_PER_OP` is 5.
unfoldable pub fee_required : ℕ → ℕ
fee_required tx_op_count = 10 + 5 * tx_op_count

unfoldable pub is_valid_amount : ℤ → Bool
is_valid_amount amount = ltb_ℤ (pos 0) amount && not (ltb_ℤ (pos (2 ^ 48)) amount)

module _ (c : Components) where
  -- What a handler changes: the members of it and of an operation's metadata, the log, and the
  -- statistics of the block.
  pub record State : Type 0 where
    pub manager : c.Manager
    pub view : c.View
    pub log : c.Log
    pub local_stats : BlockStateUpdateStats
    pub block_stats : BlockStateUpdateStats

  -- What it does not change: the metadata of the operation.
  pub record OperationMetadata : Type 0 where
    pub tx_metadata : TransactionMetadata
    pub source_account_idx : c.Ptr
    pub operation_id : ℕ

  -- The result of an operation; `none` is a thrown error.
  abbrev pub Result : Type 0
  Result = Option (State × TransactionProcessingStatus)

  -- A call of the view, and what follows unless it is refused.
  unfoldable pub after : State → c.View × TransactionProcessingStatus → (State → Result) → Result
  after s (v, status) next =
      let rest = next (record s { view = v }) in
      if is_success status then rest else some (record s { view = v }, status)

  unfoldable pub make_offer : CreateSellOfferOp → OperationMetadata → Offer
  make_offer op metadata = record {
    category = op.category;
    offer_id = metadata.operation_id;
    owner = metadata.tx_metadata.source_account;
    amount = to_uint64 op.amount;
    min_price = op.min_price;
  }

  unfoldable pub process_create_account : OperationMetadata → CreateAccountOp → State → Result
  unfolding is_valid_amount after
  process_create_account metadata op s =
      if ltb_ℤ op.starting_balance create_account_min_starting_balance
      then some (s, starting_balance_too_low)
      else let (v, created) =
          c.create_new_account s.view op.new_account_id op.new_account_public_key in
        let s1 = record s { view = v } in
        elim created [
          | inl status ↦ some (s1, status)
          | inr new_account_idx ↦
              after s1
                (c.transfer_available v metadata.source_account_idx native_asset
                  (neg64 op.starting_balance))
                (λ s2.
                  if not (is_valid_amount op.starting_balance)
                  then some (s2, invalid_amount)
                  else after s2
                      (c.transfer_available s2.view new_account_idx native_asset
                        op.starting_balance)
                      (λ s3. some (
                        record s3 {
                          local_stats = record s3.local_stats {
                            new_account_count = (s3.local_stats.new_account_count + 1) % 2 ^ 32;
                          };
                        },
                        success,
                      )))
        ]

  unfoldable pub process_create_sell_offer : OperationMetadata → CreateSellOfferOp → State → Result
  unfolding is_valid_amount is_valid_price make_offer
  process_create_sell_offer metadata op s =
      if not (c.validate_category op.category)
      then some (s, invalid_offer_category)
      else if not (is_valid_price op.min_price)
      then some (s, invalid_price)
      else if not (is_valid_amount op.amount)
      then some (s, invalid_amount)
      else elim (c.look_up_idx op.category) [
        | none ↦ none
        | some market_idx ↦
            let to_add = make_offer op metadata in
            let (m, v, l) = c.add_offer s.manager s.view s.log market_idx to_add in
            let (v', status) =
              c.escrow v metadata.source_account_idx op.category.sell_asset op.amount in
            let s1 = record s { manager = m; view = v'; log = l } in
            if not (is_success status)
            then some (record s1 { manager = c.unwind_add_offer m market_idx to_add }, status)
            else some (
              record s1 {
                local_stats = record s1.local_stats {
                  new_offer_count = (s1.local_stats.new_offer_count + 1) % 2 ^ 32;
                };
              },
              success,
            )
      ]

  unfoldable pub process_cancel_sell_offer : OperationMetadata → CancelSellOfferOp → State → Result
  process_cancel_sell_offer metadata op s =
      let owner = metadata.tx_metadata.source_account in
      elim (c.look_up_idx op.category) [
        | none ↦ none
        | some market_idx ↦
            let (m, found_offer) =
              c.delete_offer s.manager market_idx op.min_price owner op.offer_id in
            let s1 = record s { manager = m } in
            elim found_offer [
              | none ↦ some (s1, cancel_offer_target_nexist)
              | some offer ↦
                  let (v, status) =
                    c.escrow s.view metadata.source_account_idx op.category.sell_asset
                      (neg64 (signed64 offer.amount)) in
                  let s2 = record s1 { view = v } in
                  if not (is_success status)
                  then some (
                    record s2 {
                      manager = c.undelete_offer m market_idx op.min_price owner op.offer_id;
                    },
                    status,
                  )
                  else some (
                    record s2 {
                      local_stats = record s2.local_stats {
                        cancel_offer_count = (s2.local_stats.cancel_offer_count + 1) % 2 ^ 32;
                      };
                    },
                    status,
                  )
            ]
      ]

  unfoldable pub process_payment : OperationMetadata → PaymentOp → State → Result
  unfolding is_valid_amount after
  process_payment metadata op s =
      if not (is_valid_amount op.amount)
      then some (s, invalid_amount)
      else elim (c.lookup_user s.view op.receiver) [
        | none ↦ some (s, recipient_account_nexist)
        | some target_account_idx ↦
            after s
              (c.transfer_available s.view metadata.source_account_idx op.asset (neg64 op.amount))
              (λ s1.
                after s1 (c.transfer_available s1.view target_account_idx op.asset op.amount) (λ s2.
                  some (
                    record s2 {
                      local_stats = record s2.local_stats {
                        payment_count = (s2.local_stats.payment_count + 1) % 2 ^ 32;
                      };
                    },
                    success,
                  )))
      ]

  unfoldable pub process_money_printer : OperationMetadata → MoneyPrinterOp → State → Result
  process_money_printer metadata op s =
      if ltb_ℤ op.amount (pos 0)
      then some (s, invalid_print_money_amount)
      else let (v, status) =
          c.transfer_available s.view metadata.source_account_idx op.asset op.amount in
        some (record s { view = v }, status)

  -- The `switch` over the type of an operation.
  unfoldable pub process_operation : OperationMetadata → Operation → State → Result
  process_operation metadata (create_account op) s = process_create_account metadata op s
  process_operation metadata (create_sell_offer op) s = process_create_sell_offer metadata op s
  process_operation metadata (cancel_sell_offer op) s = process_cancel_sell_offer metadata op s
  process_operation metadata (payment op) s = process_payment metadata op s
  process_operation metadata (money_printer op) s = process_money_printer metadata op s
  process_operation metadata (unknown tag) s = some (s, invalid_operation_type)

  -- The loop of `log_modified_accounts`, from operation `i` on. `none` is the error thrown on an
  -- unknown type.
  unfoldable pub log_operations : TransactionMetadata → List Operation → ℕ → c.Log → Option c.Log
  log_operations metadata [] i log = some log
  log_operations metadata (create_account op ∷ ops) i log = log_operations metadata ops (i + 1) (
      c.log_other_modification log metadata.source_account ((metadata.sequence_number + i) % 2 ^ 64)
        op.new_account_id)
  log_operations metadata (create_sell_offer op ∷ ops) i log =
      log_operations metadata ops (i + 1) log
  log_operations metadata (cancel_sell_offer op ∷ ops) i log =
      log_operations metadata ops (i + 1) log
  log_operations metadata (payment op ∷ ops) i log = log_operations metadata ops (i + 1) (
      c.log_other_modification log metadata.source_account ((metadata.sequence_number + i) % 2 ^ 64)
        op.receiver)
  log_operations metadata (money_printer op ∷ ops) i log = log_operations metadata ops (i + 1) log
  log_operations metadata (unknown tag ∷ ops) i log = none

  unfoldable pub log_modified_accounts : SignedTransaction → c.Log → Option c.Log
  unfolding log_operations
  log_modified_accounts signed_tx log =
      if not c.maintain_account_log
      then some log
      else log_operations signed_tx.transaction.metadata signed_tx.transaction.operations 0
          (c.log_new_self_transaction log signed_tx)
