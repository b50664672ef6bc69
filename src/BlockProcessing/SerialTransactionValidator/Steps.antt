-- ===== src/BlockProcessing/SerialTransactionValidator/Steps.antt =====
-- The branches of the validation of a transaction: its loop over the operations, and its calls
-- before it.
use mathlib.Core.Option
use speedex.Prelude.{
  ℕ, ◌+◌, ◌≡◌, ◌⊎◌, refl, sym, ap, subst, ◌∙◌, not, if◌then◌else◌, Bool, true, false, Option, none,
  some, List, [], ◌∷◌, Bool-cases, Option-cases, inl, inr,
}
use speedex.Types.{
  is_success, TransactionProcessingStatus, SignedTransaction, Transaction, Operation,
}
use speedex.BlockProcessing.Interfaces.{Components}
use speedex.BlockProcessing.SerialTransactionHandler.{State, Result, process_operation}
use speedex.BlockProcessing.SerialTransactionProcessor.{operation_metadata, finish}
use speedex.BlockProcessing.SerialTransactionValidator.{validate_operations, validate_funded}
use speedex.BlockProcessing.Outcomes.{
  Succeeds, Stops, Admitted, Inadmissible, reserved, paid, with_number, with_fee,
}
use speedex.BlockProcessing.SerialTransactionProcessor.Undoing.{none_not_some}

module _ (c : Components) where
  abbrev pub verdict : State c → Bool → Option (State c × Bool)
  verdict s ok = some (s, ok)

  pub given :
      (s s' : State c) (ok ok' : Bool) → verdict s ok ≡ verdict s' ok' → (s' ≡ s) × (ok' ≡ ok)
  given s s' ok ok' h =
      let parts = Option.some-injective _ _ h in
      (sym (ap (λ r. r.0) parts), sym (ap (λ r. r.1) parts))

  module _ (tx : Transaction) (source : c.Ptr) where
    abbrev run : ℕ → Operation → State c → Result c
    run i op s = process_operation c (operation_metadata c tx source i) op s

    abbrev pub loop : List Operation → ℕ → State c → Option (State c × Bool)
    loop = validate_operations c tx source

    step_success :
        (op : Operation) (ops : List Operation) (i : ℕ) (s m : State c)
        (status : TransactionProcessingStatus)
        → run i op s ≡ some (m, status)
        → is_success status ≡ true
        → loop (op ∷ ops) i s ≡ loop ops (i + 1) m
    unfolding validate_operations
    step_success op ops i s m status ran ok = rw (ran, ok, validate_operations) refl

    step_refused :
        (op : Operation) (ops : List Operation) (i : ℕ) (s m : State c)
        (status : TransactionProcessingStatus)
        → run i op s ≡ some (m, status)
        → is_success status ≡ false
        → loop (op ∷ ops) i s ≡ verdict m false
    unfolding validate_operations
    step_refused op ops i s m status ran bad = rw (ran, bad, validate_operations) refl

    step_thrown :
        (op : Operation) (ops : List Operation) (i : ℕ) (s : State c)
        → run i op s ≡ none
        → loop (op ∷ ops) i s ≡ none
    unfolding validate_operations
    step_thrown op ops i s thrown = rw (thrown, validate_operations) refl

    -- All operations succeed, or one is refused and the state is left there.
    abbrev pub Looped : List Operation → ℕ → State c → State c → Bool → Type 0
    Looped ops i s s' ok =
        ((ok ≡ true) × Succeeds c tx source ops i s s')
        ⊎ ((ok ≡ false)
            × (n : ℕ) × (status : TransactionProcessingStatus) × Stops c tx source ops i s n s'
                status)

    pub Looped-loop :
        (ops : List Operation) (i : ℕ) (s s' : State c) (ok : Bool)
        → loop ops i s ≡ verdict s' ok
        → Looped ops i s s' ok
    unfolding validate_operations
    Looped-loop [] i s s' ok h = let (same, is) = given s s' true ok h in inl (is, same)
    Looped-loop (op ∷ ops) i s s' ok h = elim (Option-cases (run i op s)) [
      | inl thrown ↦ none_not_some (sym (step_thrown op ops i s thrown) ∙ h)
      | inr ((m, st), ran) ↦ elim (Bool-cases (is_success st)) [
        | inl good ↦
            elim (Looped-loop ops (i + 1) m s' ok
              (sym (step_success op ops i s m st ran good) ∙ h)) [
                | inl (is, all) ↦ inl (is, (m, st, ran, good, all))
                | inr (is, n, status, stops) ↦ inr (is, n, status, inr (m, st, ran, good, stops))
              ]
        | inr bad ↦
            let (same, is) = given m s' false ok (sym (step_refused op ops i s m st ran bad) ∙ h) in
            inr (
              is,
              i,
              st,
              subst (λ x. Stops c tx source (op ∷ ops) i s i x st) (sym same)
                  (inl (refl, ran, bad)),
            )
      ]
    ]

    pub loop-Succeeds :
        (ops : List Operation) (i : ℕ) (s s' : State c)
        → Succeeds c tx source ops i s s'
        → loop ops i s ≡ verdict s' true
    unfolding validate_operations
    loop-Succeeds [] i s s' same = ap (λ r. verdict r true) (sym same)
    loop-Succeeds (op ∷ ops) i s s' (m, st, ran, ok, all) =
        step_success op ops i s m st ran ok ∙ loop-Succeeds ops (i + 1) m s' all

    pub loop-Stops :
        (ops : List Operation) (i : ℕ) (s : State c) (n : ℕ) (f : State c)
        (status : TransactionProcessingStatus)
        → Stops c tx source ops i s n f status
        → loop ops i s ≡ verdict f false
    loop-Stops [] i s n f status stops = absurd stops
    loop-Stops (op ∷ ops) i s n f status (inl (here, ran, bad)) =
        step_refused op ops i s f status ran bad
    loop-Stops (op ∷ ops) i s n f status (inr (m, st, ran, ok, stops)) =
        step_success op ops i s m st ran ok ∙ loop-Stops ops (i + 1) m n f status stops

  module _ (signed_tx : SignedTransaction) where
    abbrev tx : Transaction
    tx = signed_tx.transaction

    -- The number or the fee is not granted, or an operation is refused, and the state stays as it is
    -- there.
    abbrev pub Dropped : c.Ptr → State c → State c → Type 0
    Dropped source s s' =
        ((is_success (reserved c signed_tx source s).1 ≡ false)
          × (s' ≡ with_number c signed_tx source s))
        ⊎ ((is_success (reserved c signed_tx source s).1 ≡ true)
            × (((is_success (paid c signed_tx source s).1 ≡ false)
                  × (s' ≡ with_fee c signed_tx source s))
                ⊎ ((is_success (paid c signed_tx source s).1 ≡ true)
                    × (n : ℕ) × (status : TransactionProcessingStatus) × Stops c tx source
                        tx.operations 0 (with_fee c signed_tx source s) n s' status)))

    -- A check fails, or the transaction is dropped.
    abbrev pub Rejected : State c → State c → Type 0
    Rejected s s' =
        (((status : TransactionProcessingStatus) × Inadmissible c signed_tx status) × (s' ≡ s))
        ⊎ ((source : c.Ptr) × Admitted c signed_tx source × Dropped source s s')

    -- The ways of `validate_funded`, by what the calls before the loop answer.
    pub number_refused :
        (source : c.Ptr) (s : State c)
        → is_success (reserved c signed_tx source s).1 ≡ false
        → validate_funded c signed_tx source s ≡ verdict (with_number c signed_tx source s) false
    unfolding validate_funded
    number_refused source s bad = rw (bad, validate_funded) refl

    pub fee_refused :
        (source : c.Ptr) (s : State c)
        → is_success (reserved c signed_tx source s).1 ≡ true
        → is_success (paid c signed_tx source s).1 ≡ false
        → validate_funded c signed_tx source s ≡ verdict (with_fee c signed_tx source s) false
    unfolding validate_funded
    fee_refused source s ok bad = rw (ok, bad, validate_funded) refl

    -- The end of the transaction, if the loop says so.
    abbrev pub ending : Option (State c × Bool) → Option (State c × Bool)
    ending none = none
    ending (some (m, true)) = Option.map (λ r. (r, true)) (finish c signed_tx m)
    ending (some (m, false)) = verdict m false

    pub funded_ending :
        (source : c.Ptr) (s : State c)
        → is_success (reserved c signed_tx source s).1 ≡ true
        → is_success (paid c signed_tx source s).1 ≡ true
        → validate_funded c signed_tx source s
          ≡ ending (loop tx source tx.operations 0 (with_fee c signed_tx source s))
    unfolding validate_funded
    funded_ending source s ok granted =
        rw (ok, granted, validate_funded)
          (branches (loop tx source tx.operations 0 (with_fee c signed_tx source s)))
      where
        branches :
            (r : Option (State c × Bool))
            → elim r [
              | none ↦ none
              | some (s3, good) ↦
                  if not good
                  then some (s3, false)
                  else elim (finish c signed_tx s3) [ none ↦ none | some s4 ↦ some (s4, true) ]
            ]
              ≡ ending r
        branches none = refl
        branches (some (m, false)) = refl
        branches (some (m, true)) = elim (Option-cases (finish c signed_tx m)) [
          | inl thrown ↦ rw thrown refl
          | inr (r, done) ↦ rw done refl
        ]
