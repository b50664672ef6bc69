-- ===== src/BlockProcessing/SerialTransactionValidator.antt =====
-- Block validation's handling of a transaction (`SerialTransactionValidator`,
-- block_processing/serial_transaction_processor.h and .cc).
pub mod Steps
pub mod Accepts
use speedex.Prelude.{
  ℕ, ◌+◌, ◌&&◌, Bool, true, false, if◌then◌else◌, ltb, not, Option, none, some, List, [], ◌∷◌,
  length,
}
use speedex.Prelude.Int.{pos, neg64}
use speedex.Types.{native_asset, is_success, SignedTransaction, Transaction, Operation}
use speedex.BlockProcessing.Interfaces.{Components, no_stats}
use speedex.BlockProcessing.SerialTransactionHandler.{
  check_tx_format_parameters, fee_required, State, process_operation,
}
use speedex.BlockProcessing.SerialTransactionProcessor.{operation_metadata, finish}

module _ (c : Components) where
  -- The loop over the operations, from operation `i` on. Nothing is undone.
  unfoldable pub validate_operations :
      Transaction → c.Ptr → List Operation → ℕ → State c → Option (State c × Bool)
  unfolding process_operation
  validate_operations tx source [] i s = some (s, true)
  validate_operations tx source (op ∷ ops) i s =
      elim (process_operation c (operation_metadata c tx source i) op s) [
        | none ↦ none
        | some (s', status) ↦
            let rest = validate_operations tx source ops (i + 1) s' in
            if is_success status then rest else some (s', false)
      ]

  unfoldable pub validate_funded : SignedTransaction → c.Ptr → State c → Option (State c × Bool)
  unfolding validate_operations finish fee_required
  validate_funded signed_tx source s =
      let tx = signed_tx.transaction in
      let (v1, id_status) = c.reserve_sequence_number s.view source tx.metadata.sequence_number in
      let s1 = record s { view = v1; local_stats = no_stats } in
      if not (is_success id_status)
      then some (s1, false)
      else let (v2, fee_status) =
          c.transfer_available v1 source native_asset
            (neg64 (pos (fee_required (length tx.operations)))) in
        let s2 = record s1 { view = v2 } in
        if not (is_success fee_status)
        then some (s2, false)
        else elim (validate_operations tx source tx.operations 0 s2) [
          | none ↦ none
          | some (s3, ok) ↦
              if not ok
              then some (s3, false)
              else elim (finish c signed_tx s3) [ none ↦ none | some s4 ↦ some (s4, true) ]
        ]

  unfoldable pub validate_transaction : SignedTransaction → State c → Option (State c × Bool)
  unfolding validate_funded check_tx_format_parameters fee_required
  validate_transaction signed_tx s =
      let tx = signed_tx.transaction in
      if not (check_tx_format_parameters tx)
      then some (s, false)
      else elim (c.stored_user tx.metadata.source_account) [
        | none ↦ some (s, false)
        | some source ↦
            if ltb tx.max_fee (fee_required (length tx.operations))
            then some (s, false)
            else if c.check_sigs && not (c.sig_check tx signed_tx.signature (c.get_pk source))
            then some (s, false)
            else validate_funded signed_tx source s
      ]
