-- ===== src/BlockProcessing/SerialTransactionProcessor/Loop.antt =====
-- The loop over the operations of a transaction: all succeed, or the ones before the first that is
-- refused are undone.
use mathlib.Core.Option
use speedex.Prelude.{
  ℕ, ◌+◌, ◌≤◌, ◌≡◌, ◌⊎◌, refl, sym, ap, subst, ◌∙◌, true, false, none, some, List, [], ◌∷◌, length,
  Bool-cases, Option-cases, inl, inr, arith,
}
use speedex.Types.{is_success, TransactionProcessingStatus, success, Transaction, Operation}
use speedex.BlockProcessing.Interfaces.{Components}
use speedex.BlockProcessing.SerialTransactionHandler.{State, Result, process_operation}
use speedex.BlockProcessing.SerialTransactionProcessor.{
  operation_metadata, undo, process_operations,
}
use speedex.BlockProcessing.Outcomes.{Succeeds, Stops, Undone}
use speedex.BlockProcessing.SerialTransactionProcessor.Undoing.{
  none_not_some, Undone-undo, undo-Undone,
}

module _ (c : Components) where
  abbrev pub ended : State c → TransactionProcessingStatus → Result c
  ended s status = some (s, status)

  pub returned :
      (s s' : State c) (status status' : TransactionProcessingStatus)
      → ended s status ≡ ended s' status'
      → (s' ≡ s) × (status' ≡ status)
  returned s s' status status' h =
      let parts = Option.some-injective _ _ h in
      (sym (ap (λ r. r.0) parts), sym (ap (λ r. r.1) parts))

  module _ (tx : Transaction) (source : c.Ptr)
      (stored : c.stored_user tx.metadata.source_account ≡ some source) where
    abbrev run : ℕ → Operation → State c → Result c
    run i op s = process_operation c (operation_metadata c tx source i) op s

    abbrev loop : List Operation → ℕ → State c → Result c
    loop = process_operations c tx source

    step_success :
        (op : Operation) (ops : List Operation) (i : ℕ) (s m : State c)
        (status : TransactionProcessingStatus)
        → run i op s ≡ some (m, status)
        → is_success status ≡ true
        → loop (op ∷ ops) i s ≡ loop ops (i + 1) m
    unfolding process_operations
    step_success op ops i s m status ran ok = rw (ran, ok, process_operations) refl

    step_refused :
        (op : Operation) (ops : List Operation) (i : ℕ) (s m : State c)
        (status : TransactionProcessingStatus)
        → run i op s ≡ some (m, status)
        → is_success status ≡ false
        → loop (op ∷ ops) i s ≡ undo c tx i m status
    unfolding process_operations
    step_refused op ops i s m status ran bad = rw (ran, bad, process_operations) refl

    step_thrown :
        (op : Operation) (ops : List Operation) (i : ℕ) (s : State c)
        → run i op s ≡ none
        → loop (op ∷ ops) i s ≡ none
    unfolding process_operations
    step_thrown op ops i s thrown = rw (thrown, process_operations) refl

    -- All operations succeed, or one is refused and the ones before it are undone.
    abbrev pub Looped :
        List Operation → ℕ → State c → State c → TransactionProcessingStatus → Type 0
    Looped ops i s s' status =
        ((status ≡ success) × Succeeds c tx source ops i s s')
        ⊎ ((n : ℕ) × (f : State c) × Stops c tx source ops i s n f status
            × Undone c tx source n f s')

    pub Looped-loop :
        (ops : List Operation) (i : ℕ) (s s' : State c) (status : TransactionProcessingStatus)
        → loop ops i s ≡ some (s', status)
        → Looped ops i s s' status
    unfolding process_operations
    Looped-loop [] i s s' status h =
        let (same, ended) = returned s s' success status h in inl (ended, same)
    Looped-loop (op ∷ ops) i s s' status h = elim (Option-cases (run i op s)) [
      | inl thrown ↦ none_not_some (sym (step_thrown op ops i s thrown) ∙ h)
      | inr ((m, st), ran) ↦ elim (Bool-cases (is_success st)) [
        | inl ok ↦
            elim (Looped-loop ops (i + 1) m s' status
              (sym (step_success op ops i s m st ran ok) ∙ h)) [
                | inl (ended, all) ↦ inl (ended, (m, st, ran, ok, all))
                | inr (n, f, stops, undone) ↦ inr (n, f, inr (m, st, ran, ok, stops), undone)
              ]
        | inr bad ↦
            let (same, undone) =
              Undone-undo c tx source i m s' st status stored
                (sym (step_refused op ops i s m st ran bad) ∙ h) in
            inr (
              i,
              m,
              subst (λ x. Stops c tx source (op ∷ ops) i s i m x) (sym same) (inl (refl, ran, bad)),
              undone,
            )
      ]
    ]

    pub loop-Succeeds :
        (ops : List Operation) (i : ℕ) (s s' : State c)
        → Succeeds c tx source ops i s s'
        → loop ops i s ≡ some (s', success)
    unfolding process_operations
    loop-Succeeds [] i s s' same = ap (λ r. some (r, success)) (sym same)
    loop-Succeeds (op ∷ ops) i s s' (m, st, ran, ok, all) =
        step_success op ops i s m st ran ok ∙ loop-Succeeds ops (i + 1) m s' all

    pub loop-Stops :
        (ops : List Operation) (i : ℕ) (s s' : State c) (n : ℕ) (f : State c)
        (status : TransactionProcessingStatus)
        → i + length ops ≤ length tx.operations
        → Stops c tx source ops i s n f status
        → Undone c tx source n f s'
        → loop ops i s ≡ some (s', status)
    loop-Stops [] i s s' n f status fits stops undone = absurd stops
    loop-Stops (op ∷ ops) i s s' n f status fits (inl (here, ran, bad)) undone =
        step_refused op ops i s f status ran bad
        ∙ undo-Undone c tx source i f s' status stored (omega arith)
            (subst (λ j. Undone c tx source j f s') here undone)
    loop-Stops (op ∷ ops) i s s' n f status fits (inr (m, st, ran, ok, stops)) undone =
        step_success op ops i s m st ran ok
        ∙ loop-Stops ops (i + 1) m s' n f status (omega arith) stops undone

    pub Stops-is_success :
        (ops : List Operation) (i : ℕ) (s : State c) (n : ℕ) (f : State c)
        (status : TransactionProcessingStatus)
        → Stops c tx source ops i s n f status
        → is_success status ≡ false
    Stops-is_success [] i s n f status stops = absurd stops
    Stops-is_success (op ∷ ops) i s n f status (inl (here, ran, bad)) = bad
    Stops-is_success (op ∷ ops) i s n f status (inr (m, st, ran, ok, stops)) =
        Stops-is_success ops (i + 1) m n f status stops
