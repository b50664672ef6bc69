-- ===== src/BlockProcessing/Outcomes.antt =====
-- What becomes of a transaction, told apart from the handlers' control flow: the operations run one
-- after the other, and those that ran are undone from the last one back.
use speedex.Prelude.{
  ℕ, ◌+◌, ◌≤◌, ◌<◌, ◌≡◌, ◌⊎◌, true, false, ◌&&◌, not, none, some, List, [], ◌∷◌, length, take,
}
use speedex.Prelude.Int.{pos, neg64}
use speedex.Types.{
  native_asset, is_success, TransactionProcessingStatus, invalid_tx_format, fee_bid_too_low,
  source_account_nexist, bad_signature, SignedTransaction, Transaction, Operation,
}
use speedex.BlockProcessing.Interfaces.{Components, no_stats}
use speedex.BlockProcessing.SerialTransactionHandler.{
  check_tx_format_parameters, fee_required, State, process_operation,
}
use speedex.BlockProcessing.SerialTransactionProcessor.{
  operation_metadata, unwind_operation, finish,
}

module _ (c : Components) where
  module _ (tx : Transaction) (source : c.Ptr) where
    -- All of the operations, from index `i` on, succeed one after the other.
    abbrev pub Succeeds : List Operation → ℕ → State c → State c → Type 0
    Succeeds [] i s s' = s' ≡ s
    Succeeds (op ∷ ops) i s s' =
        (m : State c) × (status : TransactionProcessingStatus) × (process_operation c
            (operation_metadata c tx source i) op s
          ≡ some (m, status))
        × (is_success status ≡ true)
        × Succeeds ops (i + 1) m s'

    -- Operation `n` is the first one that is refused, with the status, and it leaves `f`.
    abbrev pub Stops :
        List Operation → ℕ → State c → ℕ → State c → TransactionProcessingStatus → Type 0
    Stops [] i s n f status = ⊥
    Stops (op ∷ ops) i s n f status =
        ((n ≡ i)
          × (process_operation c (operation_metadata c tx source i) op s ≡ some (f, status))
          × (is_success status ≡ false))
        ⊎ ((m : State c) × (ok : TransactionProcessingStatus) × (process_operation c
                (operation_metadata c tx source i) op s
              ≡ some (m, ok))
            × (is_success ok ≡ true)
            × Stops ops (i + 1) m n f status)

    -- The operations, from index `i` on, are undone, each after those that follow it.
    abbrev pub Unwinds : List Operation → ℕ → c.Manager → c.Manager → Type 0
    Unwinds [] i m m' = m' ≡ m
    Unwinds (op ∷ ops) i m m' =
        (rest : c.Manager) × Unwinds ops (i + 1) m rest
        × (unwind_operation c (operation_metadata c tx source i) op rest ≡ some m')

    -- The operations before the refused one are undone, and the view is unwound.
    abbrev pub Undone : ℕ → State c → State c → Type 0
    Undone n f s' =
        (m : c.Manager) × (v : c.View) × Unwinds (take n tx.operations) 0 f.manager m
        × (c.unwind f.view ≡ some v)
        × (s' ≡ record f { manager = m; view = v })

  module _ (signed_tx : SignedTransaction) where
    abbrev pub fee : ℕ
    fee = fee_required (length signed_tx.transaction.operations)

    -- The checks before the account is touched.
    abbrev pub Admitted : c.Ptr → Type 0
    Admitted source =
        (check_tx_format_parameters signed_tx.transaction ≡ true)
        × (fee ≤ signed_tx.transaction.max_fee)
        × (c.stored_user signed_tx.transaction.metadata.source_account ≡ some source)
        × ((c.check_sigs
              && not (c.sig_check signed_tx.transaction signed_tx.signature (c.get_pk source)))
            ≡ false)

    -- The first of them that fails, and its status.
    abbrev pub Inadmissible : TransactionProcessingStatus → Type 0
    Inadmissible status =
        ((check_tx_format_parameters signed_tx.transaction ≡ false) × (status ≡ invalid_tx_format))
        ⊎ ((check_tx_format_parameters signed_tx.transaction ≡ true)
            × (((signed_tx.transaction.max_fee < fee) × (status ≡ fee_bid_too_low))
                ⊎ ((fee ≤ signed_tx.transaction.max_fee)
                    × (((c.stored_user signed_tx.transaction.metadata.source_account ≡ none)
                          × (status ≡ source_account_nexist))
                        ⊎ ((source : c.Ptr) × (c.stored_user
                                signed_tx.transaction.metadata.source_account
                              ≡ some source)
                            × ((c.check_sigs
                                  && not (
                                      c.sig_check signed_tx.transaction signed_tx.signature
                                        (c.get_pk source)))
                                ≡ true)
                            × (status ≡ bad_signature))))))

    abbrev pub reserved : c.Ptr → State c → c.View × TransactionProcessingStatus
    reserved source s =
        c.reserve_sequence_number s.view source signed_tx.transaction.metadata.sequence_number

    abbrev pub paid : c.Ptr → State c → c.View × TransactionProcessingStatus
    paid source s = c.transfer_available (reserved source s).0 source native_asset (neg64 (pos fee))

    -- The state with the number reserved, and with the fee paid too.
    abbrev pub with_number : c.Ptr → State c → State c
    with_number source s = record s { view = (reserved source s).0; local_stats = no_stats }

    abbrev pub with_fee : c.Ptr → State c → State c
    with_fee source s = record s { view = (paid source s).0; local_stats = no_stats }

    -- The view of the state is unwound, and nothing else is touched.
    abbrev pub Unwound : State c → State c → Type 0
    Unwound t s' = (v : c.View) × (c.unwind t.view ≡ some v) × (s' ≡ record t { view = v })

    -- The number and the fee are granted, every operation succeeds, and the end of the transaction
    -- makes `s'` of the state after them.
    abbrev pub Completed : c.Ptr → State c → State c → Type 0
    Completed source s s' =
        (is_success (reserved source s).1 ≡ true)
        × (is_success (paid source s).1 ≡ true)
        × (last : State c) × Succeeds signed_tx.transaction source signed_tx.transaction.operations
            0 (with_fee source s) last
        × (finish c signed_tx last ≡ some s')

    -- The number or the fee is not granted, and the view is unwound; or an operation is refused, and
    -- all that was done is undone.
    abbrev pub Abandoned : c.Ptr → State c → State c → TransactionProcessingStatus → Type 0
    Abandoned source s s' status =
        ((is_success (reserved source s).1 ≡ false)
          × (status ≡ (reserved source s).1)
          × Unwound (with_number source s) s')
        ⊎ ((is_success (reserved source s).1 ≡ true)
            × (((is_success (paid source s).1 ≡ false)
                  × (status ≡ (paid source s).1)
                  × Unwound (with_fee source s) s')
                ⊎ ((is_success (paid source s).1 ≡ true)
                    × (n : ℕ) × (f : State c) × Stops signed_tx.transaction source
                        signed_tx.transaction.operations 0 (with_fee source s) n f status
                    × Undone signed_tx.transaction source n f s')))

    abbrev pub Accepted : State c → State c → Type 0
    Accepted s s' = (source : c.Ptr) × Admitted source × Completed source s s'

    -- A check fails, and the state is the same, or the transaction is abandoned.
    abbrev pub Refused : State c → State c → TransactionProcessingStatus → Type 0
    Refused s s' status =
        (Inadmissible status × (s' ≡ s))
        ⊎ ((source : c.Ptr) × Admitted source × Abandoned source s s' status)
