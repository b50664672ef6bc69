-- ===== src/BlockProcessing/SerialTransactionProcessor/Funded.antt =====
-- A transaction whose account is found: the number, the fee, the operations and the end.
use mathlib.Core.Option
use speedex.Prelude.{
  ◌≡◌, ◌⊎◌, refl, sym, ap, subst, ◌∙◌, true, false, Option, none, some, Bool-cases, Option-cases,
  inl, inr, arith,
}
use speedex.Types.{is_success, TransactionProcessingStatus, success, SignedTransaction, Transaction}
use speedex.BlockProcessing.Interfaces.{Components}
use speedex.BlockProcessing.SerialTransactionHandler.{State, Result}
use speedex.BlockProcessing.SerialTransactionProcessor.{
  unwind_view, finish, process_operations, process_funded,
}
use speedex.BlockProcessing.Outcomes.{
  Succeeds, Stops, Undone, Admitted, Completed, Abandoned, Unwound, reserved, paid, with_number,
  with_fee,
}
use speedex.BlockProcessing.SerialTransactionProcessor.Undoing.{none_not_some}
use speedex.BlockProcessing.SerialTransactionProcessor.Loop.{
  ended, returned, Looped-loop, loop-Succeeds, loop-Stops, Stops-is_success,
}

module _ (c : Components) where
  module _ (signed_tx : SignedTransaction) (source : c.Ptr)
      (admitted : Admitted c signed_tx source) where
    abbrev tx : Transaction
    tx = signed_tx.transaction

    Unwound-unwind_view :
        (t s' : State c) (status status' : TransactionProcessingStatus)
        → unwind_view c t status ≡ some (s', status')
        → (status' ≡ status) × Unwound c signed_tx t s'
    Unwound-unwind_view t s' status status' h = elim (Option-cases (c.unwind t.view)) [
      | inl lost ↦ none_not_some (sym (rw (lost, unwind_view) refl) ∙ h)
      | inr (v, view) ↦
          let (same, is) =
            returned c (record t { view = v }) s' status status'
              (sym (rw (view, unwind_view) refl) ∙ h) in
          (is, (v, view, same))
    ]

    unwind_view-Unwound :
        (t s' : State c) (status : TransactionProcessingStatus)
        → Unwound c signed_tx t s'
        → unwind_view c t status ≡ some (s', status)
    unwind_view-Unwound t s' status (v, view, same) =
        rw (view, unwind_view) (ap (λ r. ended c r status) (sym same))

    -- The three ways of `process_funded`, by what the calls before the loop answer.
    number_refused :
        (s : State c)
        → is_success (reserved c signed_tx source s).1 ≡ false
        → process_funded c signed_tx source s
          ≡ unwind_view c (with_number c signed_tx source s) (reserved c signed_tx source s).1
    unfolding process_funded
    number_refused s bad = rw (bad, process_funded) refl

    fee_refused :
        (s : State c)
        → is_success (reserved c signed_tx source s).1 ≡ true
        → is_success (paid c signed_tx source s).1 ≡ false
        → process_funded c signed_tx source s
          ≡ unwind_view c (with_fee c signed_tx source s) (paid c signed_tx source s).1
    unfolding process_funded
    fee_refused s ok bad = rw (ok, bad, process_funded) refl

    abbrev ending : Option (State c) → Result c
    ending = Option.map (λ r. (r, success))

    abbrev run_all : State c → Result c
    run_all s = process_operations c tx source tx.operations 0 (with_fee c signed_tx source s)

    loop_thrown :
        (s : State c)
        → is_success (reserved c signed_tx source s).1 ≡ true
        → is_success (paid c signed_tx source s).1 ≡ true
        → run_all s ≡ none
        → process_funded c signed_tx source s ≡ none
    unfolding process_funded
    loop_thrown s ok granted thrown = rw (ok, granted, thrown, process_funded) refl

    loop_refused :
        (s m : State c) (status : TransactionProcessingStatus)
        → is_success (reserved c signed_tx source s).1 ≡ true
        → is_success (paid c signed_tx source s).1 ≡ true
        → run_all s ≡ some (m, status)
        → is_success status ≡ false
        → process_funded c signed_tx source s ≡ some (m, status)
    unfolding process_funded
    loop_refused s m status ok granted ran bad = rw (ok, granted, ran, bad, process_funded) refl

    loop_finished :
        (s m : State c)
        → is_success (reserved c signed_tx source s).1 ≡ true
        → is_success (paid c signed_tx source s).1 ≡ true
        → run_all s ≡ some (m, success)
        → process_funded c signed_tx source s ≡ ending (finish c signed_tx m)
    unfolding process_funded
    loop_finished s m ok granted ran = elim (Option-cases (finish c signed_tx m)) [
      | inl thrown ↦ rw (ok, granted, ran, thrown, process_funded) refl
      | inr (r, done) ↦ rw (ok, granted, ran, done, process_funded) refl
    ]

    pub funded_cases :
        (s s' : State c) (status : TransactionProcessingStatus)
        → process_funded c signed_tx source s ≡ some (s', status)
        → ((status ≡ success) × Completed c signed_tx source s s')
          ⊎ Abandoned c signed_tx source s s' status
    funded_cases s s' status h =
        let number = reserved c signed_tx source s in
        let charge = paid c signed_tx source s in
        elim (Bool-cases (is_success number.1)) [
          | inr bad ↦
              let (is, unwound) =
                Unwound-unwind_view (with_number c signed_tx source s) s' number.1 status
                  (sym (number_refused s bad) ∙ h) in
              inr (inl (bad, is, unwound))
          | inl ok ↦ elim (Bool-cases (is_success charge.1)) [
            | inr bad ↦
                let (is, unwound) =
                  Unwound-unwind_view (with_fee c signed_tx source s) s' charge.1 status
                    (sym (fee_refused s ok bad) ∙ h) in
                inr (inr (ok, inl (bad, is, unwound)))
            | inl granted ↦ elim (Option-cases (run_all s)) [
              | inl thrown ↦ none_not_some (sym (loop_thrown s ok granted thrown) ∙ h)
              | inr ((m, st), ran) ↦
                  elim (Looped-loop c tx source admitted.2 tx.operations 0
                    (with_fee c signed_tx source s) m st ran) [
                      | inl (is, all) ↦
                          finished s s' m status ok granted all
                            (sym (loop_finished s m ok granted (ran ∙ ap (ended c m) is)) ∙ h)
                      | inr (n, f, stops, undone) ↦
                          let bad =
                            Stops-is_success c tx source admitted.2 tx.operations 0
                              (with_fee c signed_tx source s) n f st stops in
                          let (same, is) =
                            returned c m s' st status
                              (sym (loop_refused s m st ok granted ran bad) ∙ h) in
                          inr (
                            inr (
                              ok,
                              inr (
                                granted,
                                n,
                                f,
                                subst
                                    (λ x.
                                      Stops c tx source tx.operations 0
                                        (with_fee c signed_tx source s) n f x)
                                    (sym is) stops,
                                subst (λ x. Undone c tx source n f x) (sym same) undone,
                              ),
                            ))
                    ]
            ]
          ]
        ]
      where
        finished :
            (s s' m : State c) (status : TransactionProcessingStatus)
            → is_success (reserved c signed_tx source s).1 ≡ true
            → is_success (paid c signed_tx source s).1 ≡ true
            → Succeeds c tx source tx.operations 0 (with_fee c signed_tx source s) m
            → ending (finish c signed_tx m) ≡ some (s', status)
            → ((status ≡ success) × Completed c signed_tx source s s')
              ⊎ Abandoned c signed_tx source s s' status
        finished s s' m status ok granted all h = elim (Option-cases (finish c signed_tx m)) [
          | inl thrown ↦ none_not_some (sym (ap ending thrown) ∙ h)
          | inr (r, done) ↦
              let (same, is) = returned c r s' success status (sym (ap ending done) ∙ h) in
              inl (is, (ok, granted, m, all, done ∙ ap some (sym same)))
        ]

    pub funded-Completed :
        (s s' : State c)
        → Completed c signed_tx source s s'
        → process_funded c signed_tx source s ≡ some (s', success)
    funded-Completed s s' (ok, granted, m, all, done) =
        loop_finished s m ok granted (
          loop-Succeeds c tx source admitted.2 tx.operations 0 (with_fee c signed_tx source s) m
            all)
        ∙ ap ending done

    pub funded-Abandoned :
        (s s' : State c) (status : TransactionProcessingStatus)
        → Abandoned c signed_tx source s s' status
        → process_funded c signed_tx source s ≡ some (s', status)
    funded-Abandoned s s' status (inl (bad, is, unwound)) =
        number_refused s bad
        ∙ unwind_view-Unwound (with_number c signed_tx source s) s'
            (reserved c signed_tx source s).1 unwound
        ∙ ap (ended c s') (sym is)
    funded-Abandoned s s' status (inr (ok, inl (bad, is, unwound))) =
        fee_refused s ok bad
        ∙ unwind_view-Unwound (with_fee c signed_tx source s) s' (paid c signed_tx source s).1
            unwound
        ∙ ap (ended c s') (sym is)
    funded-Abandoned s s' status (inr (ok, inr (granted, n, f, stops, undone))) =
        let start = with_fee c signed_tx source s in
        let ran =
          loop-Stops c tx source admitted.2 tx.operations 0 start s' n f status (omega arith) stops
            undone in
        loop_refused s s' status ok granted ran
          (Stops-is_success c tx source admitted.2 tx.operations 0 start n f status stops)
