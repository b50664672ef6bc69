-- ===== src/BlockProcessing/SerialTransactionProcessor/Handled.antt =====
-- What production makes of a transaction, on every branch.
use speedex.Prelude.{◌≤◌, ◌≡◌, ◌⊎◌, refl, ◌&&◌, not, ltb, Bool-cases, Option-cases, inl, inr, arith}
use speedex.Types.{
  TransactionProcessingStatus, success, invalid_tx_format, fee_bid_too_low, source_account_nexist,
  bad_signature, SignedTransaction,
}
use speedex.BlockProcessing.Interfaces.{Components}
use speedex.BlockProcessing.SerialTransactionHandler.{check_tx_format_parameters, State}
use speedex.BlockProcessing.Outcomes.{Admitted, Inadmissible, Accepted, Refused, fee}

module _ (c : Components) (signed_tx : SignedTransaction) where
  -- The checks hold, or one of them is the first to fail.
  pub first_failing_check :
      ((source : c.Ptr) × Admitted c signed_tx source)
      ⊎ ((status : TransactionProcessingStatus) × Inadmissible c signed_tx status)
  first_failing_check = elim (Bool-cases (check_tx_format_parameters signed_tx.transaction)) [
    | inr bad ↦ inr (invalid_tx_format, inl (bad, refl))
    | inl format ↦ elim (Bool-cases (ltb signed_tx.transaction.max_fee (fee c signed_tx))) [
      | inl low ↦ inr (fee_bid_too_low, inr (format, inl (ground arith, refl)))
      | inr bid ↦
          let enough : fee c signed_tx ≤ signed_tx.transaction.max_fee = ground arith in
          elim (Option-cases (c.stored_user signed_tx.transaction.metadata.source_account)) [
            | inl missing ↦
                inr (source_account_nexist, inr (format, inr (enough, inl (missing, refl))))
            | inr (source, stored) ↦
                elim (Bool-cases (
                  c.check_sigs
                  && not
                      (c.sig_check signed_tx.transaction signed_tx.signature (c.get_pk source)))) [
                        | inr signed ↦ inl (source, (format, enough, stored, signed))
                        | inl forged ↦ inr (
                          bad_signature,
                          inr (format, inr (enough, inr (source, stored, forged, refl))),
                        )
                      ]
          ]
    ]
  ]

  module _ (s s' : State c) (status : TransactionProcessingStatus) where
    -- Accepted with success, or refused with the status.
    abbrev pub Handled : Type 0
    Handled = ((status ≡ success) × Accepted c signed_tx s s') ⊎ Refused c signed_tx s s' status
