-- ===== src/BlockProcessing/SerialTransactionProcessor.antt =====
-- Block production's handling of a transaction (`SerialTransactionProcessor`,
-- block_processing/serial_transaction_processor.h and .cc).
pub mod Undoing
pub mod Loop
pub mod Funded
pub mod Handled
use speedex.Prelude.{
  ℕ, zero, suc, ◌+◌, ◌^◌, ◌%◌, Bool, true, false, if◌then◌else◌, ltb, ◌&&◌, not, Option, none, some,
  List, [], ◌∷◌, length, get_elem?,
}
use speedex.Prelude.Int.{pos, neg64}
use speedex.Types.{
  native_asset, is_success, TransactionProcessingStatus, success, invalid_tx_format,
  fee_bid_too_low, source_account_nexist, bad_signature, Transaction, SignedTransaction, Operation,
  create_account, create_sell_offer, cancel_sell_offer, payment, money_printer, unknown,
  CreateSellOfferOp, CancelSellOfferOp,
}
use speedex.BlockProcessing.Interfaces.{Components, no_stats, add_block_stats}
use speedex.BlockProcessing.SerialTransactionHandler.{
  check_tx_format_parameters, fee_required, State, OperationMetadata, Result, make_offer,
  process_operation, log_modified_accounts,
}

module _ (c : Components) where
  unfoldable pub unwind_create_sell_offer :
      OperationMetadata c → CreateSellOfferOp → c.Manager → Option c.Manager
  unfolding make_offer
  unwind_create_sell_offer metadata op m = elim (c.look_up_idx op.category) [
    | none ↦ none
    | some market_idx ↦ some (c.unwind_add_offer m market_idx (make_offer c op metadata))
  ]

  unfoldable pub unwind_cancel_sell_offer :
      OperationMetadata c → CancelSellOfferOp → c.Manager → Option c.Manager
  unwind_cancel_sell_offer metadata op m = elim (c.look_up_idx op.category) [
    | none ↦ none
    | some market_idx ↦
        some (
          c.undelete_offer m market_idx op.min_price metadata.tx_metadata.source_account
            op.offer_id)
  ]

  -- The `switch` of `unwind_transaction`.
  unfoldable pub unwind_operation : OperationMetadata c → Operation → c.Manager → Option c.Manager
  unwind_operation metadata (create_account op) m = some m
  unwind_operation metadata (create_sell_offer op) m = unwind_create_sell_offer metadata op m
  unwind_operation metadata (cancel_sell_offer op) m = unwind_cancel_sell_offer metadata op m
  unwind_operation metadata (payment op) m = some m
  unwind_operation metadata (money_printer op) m = some m
  unwind_operation metadata (unknown tag) m = none

  -- The metadata of operation `i` of a transaction.
  abbrev pub operation_metadata : Transaction → c.Ptr → ℕ → OperationMetadata c
  operation_metadata tx source i = record {
    tx_metadata = tx.metadata;
    source_account_idx = source;
    operation_id = (tx.metadata.sequence_number + i) % 2 ^ 64;
  }

  -- The loop of `unwind_transaction` over the operations before operation `n`, the last one first.
  unfoldable pub unwind_operations : Transaction → c.Ptr → ℕ → c.Manager → Option c.Manager
  unfolding unwind_operation
  unwind_operations tx source zero m = some m
  unwind_operations tx source (suc op_idx) m = elim (get_elem? tx.operations op_idx) [
    | none ↦ none
    | some op ↦ elim (unwind_operation (operation_metadata tx source op_idx) op m) [
      | none ↦ none
      | some m' ↦ unwind_operations tx source op_idx m'
    ]
  ]

  -- `n` is the source's `last_valid_op` and one.
  unfoldable pub unwind_transaction : Transaction → ℕ → c.Manager → Option c.Manager
  unfolding unwind_operations
  unwind_transaction tx n m = elim (c.stored_user tx.metadata.source_account) [
    | none ↦ none
    | some source ↦ unwind_operations tx source n m
  ]

  abbrev pub unwind_view : State c → TransactionProcessingStatus → Result c
  unwind_view s status = elim (c.unwind s.view) [
    | none ↦ none
    | some v ↦ some (record s { view = v }, status)
  ]

  -- The return for a failed operation, with `n` operations before it.
  abbrev pub undo : Transaction → ℕ → State c → TransactionProcessingStatus → Result c
  undo tx n s status = elim (unwind_transaction tx n s.manager) [
    | none ↦ none
    | some m ↦ unwind_view (record s { manager = m }) status
  ]

  -- The loop over the operations, from operation `i` on.
  unfoldable pub process_operations : Transaction → c.Ptr → List Operation → ℕ → State c → Result c
  unfolding process_operation unwind_transaction
  process_operations tx source [] i s = some (s, success)
  process_operations tx source (op ∷ ops) i s =
      elim (process_operation c (operation_metadata tx source i) op s) [
        | none ↦ none
        | some (s', status) ↦
            let rest = process_operations tx source ops (i + 1) s' in
            if is_success status then rest else undo tx i s' status
      ]

  -- The end of a transaction whose operations all succeeded: `OperationMetadata::commit`, and the
  -- log.
  unfoldable pub finish : SignedTransaction → State c → Option (State c)
  unfolding log_modified_accounts add_block_stats
  finish signed_tx s = elim (log_modified_accounts c signed_tx s.log) [
    | none ↦ none
    | some log ↦ some (record s {
      view = c.commit s.view;
      log = log;
      block_stats = add_block_stats s.block_stats s.local_stats;
    })
  ]

  -- The reservation of the sequence number and the fee, then the operations.
  unfoldable pub process_funded : SignedTransaction → c.Ptr → State c → Result c
  unfolding process_operations finish fee_required
  process_funded signed_tx source s =
      let tx = signed_tx.transaction in
      let (v1, id_status) = c.reserve_sequence_number s.view source tx.metadata.sequence_number in
      let s1 = record s { view = v1; local_stats = no_stats } in
      if not (is_success id_status)
      then unwind_view s1 id_status
      else let (v2, fee_status) =
          c.transfer_available v1 source native_asset
            (neg64 (pos (fee_required (length tx.operations)))) in
        let s2 = record s1 { view = v2 } in
        if not (is_success fee_status)
        then unwind_view s2 fee_status
        else elim (process_operations tx source tx.operations 0 s2) [
          | none ↦ none
          | some (s3, status) ↦
              if not (is_success status)
              then some (s3, status)
              else elim (finish signed_tx s3) [ none ↦ none | some s4 ↦ some (s4, success) ]
        ]

  -- `s` has the view of the transaction, not used yet.
  unfoldable pub process_transaction : SignedTransaction → State c → Result c
  unfolding process_funded check_tx_format_parameters fee_required
  process_transaction signed_tx s =
      let tx = signed_tx.transaction in
      if not (check_tx_format_parameters tx)
      then some (s, invalid_tx_format)
      else if ltb tx.max_fee (fee_required (length tx.operations))
      then some (s, fee_bid_too_low)
      else elim (c.stored_user tx.metadata.source_account) [
        | none ↦ some (s, source_account_nexist)
        | some source ↦
            if c.check_sigs && not (c.sig_check tx signed_tx.signature (c.get_pk source))
            then some (s, bad_signature)
            else process_funded signed_tx source s
      ]
