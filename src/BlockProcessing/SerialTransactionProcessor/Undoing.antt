-- ===== src/BlockProcessing/SerialTransactionProcessor/Undoing.antt =====
-- The loop of `unwind_transaction`, from the last operation back, undoes each operation after those
-- that follow it.
use mathlib.Core.Option
use speedex.Prelude.{
  ℕ, zero, suc, ◌+◌, ◌≤◌, ◌<◌, ◌≡◌, refl, sym, ap, subst, ◌∙◌, Option, none, some, List, [], ◌∷◌,
  length, take, get_elem?, Option-cases, inl, inr, arith,
}
use speedex.Types.{TransactionProcessingStatus, Transaction, Operation}
use speedex.BlockProcessing.Interfaces.{Components}
use speedex.BlockProcessing.SerialTransactionHandler.{State}
use speedex.BlockProcessing.SerialTransactionProcessor.{
  operation_metadata, unwind_operation, unwind_operations, unwind_transaction, unwind_view, undo,
}
use speedex.BlockProcessing.Outcomes.{Unwinds, Undone}

pub none_not_some {ℓ} : {A : Type ℓ} {a : A} {B : Type 0} → none ≡ some a → B
none_not_some h = absurd (ground (arith, h))

module _ (c : Components) (tx : Transaction) (source : c.Ptr) where
  abbrev unwind_at : ℕ → Operation → c.Manager → Option c.Manager
  unwind_at i op m = unwind_operation c (operation_metadata c tx source i) op m

  abbrev Back : List Operation → ℕ → c.Manager → c.Manager → Type 0
  Back = Unwinds c tx source

  -- The last operation of those before `k + 1` is undone first.
  abbrev LastFirst : List Operation → ℕ → ℕ → c.Manager → c.Manager → Type 0
  LastFirst ops i k m m' =
      (op : Operation) × (rest : c.Manager) × (get_elem? ops k ≡ some op)
      × (unwind_at (i + k) op m ≡ some rest)
      × Back (take k ops) i rest m'

  last_first :
      (ops : List Operation) (i k : ℕ) (m m' : c.Manager)
      → k < length ops
      → Back (take (suc k) ops) i m m'
      → LastFirst ops i k m m'
  last_first [] i k m m' h back = absurd (omega arith)
  last_first (o ∷ os) i zero m m' h (rest, same, undone) =
      let at : i ≡ i + 0 = omega arith in
      (
        o,
        m',
        refl,
        subst (λ j. unwind_at j o m ≡ some m') at
            (subst (λ x. unwind_at i o x ≡ some m') same undone),
        refl,
      )
  last_first (o ∷ os) i (suc k) m m' h (rest, back, undone) =
      let (op, x, found, first, others) = last_first os (i + 1) k m rest (omega arith) back in
      let at : i + 1 + k ≡ i + suc k = omega arith in
      (op, x, found, subst (λ j. unwind_at j op m ≡ some x) at first, (rest, others, undone))

  first_last :
      (ops : List Operation) (i k : ℕ) (m m' : c.Manager)
      → LastFirst ops i k m m'
      → Back (take (suc k) ops) i m m'
  first_last [] i k m m' (op, x, found, first, others) = absurd (ground (arith, found))
  first_last (o ∷ os) i zero m m' (op, x, found, first, others) =
      let at : i + 0 ≡ i = omega arith in
      let same_op : op ≡ o = ground (arith, found) in
      (
        m,
        refl,
        subst (λ j. unwind_at j o m ≡ some m') at
            (subst (λ y. unwind_at (i + 0) o m ≡ some y) (sym others)
              (subst (λ p. unwind_at (i + 0) p m ≡ some x) same_op first)),
      )
  first_last (o ∷ os) i (suc k) m m' (op, x, found, first, (rest, others, undone)) =
      let at : i + suc k ≡ i + 1 + k = omega arith in
      (
        rest,
        first_last os (i + 1) k m rest
            (op, x, found, subst (λ j. unwind_at j op m ≡ some x) at first, others),
        undone,
      )

  from_zero : (k : ℕ) → k ≡ 0 + k
  from_zero k = omega arith

  pub Unwinds-unwind_operations :
      (n : ℕ) (m m' : c.Manager)
      → unwind_operations c tx source n m ≡ some m'
      → Back (take n tx.operations) 0 m m'
  unfolding unwind_operations
  Unwinds-unwind_operations zero m m' h = ground (arith, h)
  Unwinds-unwind_operations (suc k) m m' h = elim (Option-cases (get_elem? tx.operations k)) [
    | inl missing ↦ none_not_some (sym (rw (missing, unwind_operations) refl) ∙ h)
    | inr (op, found) ↦ elim (Option-cases (unwind_at k op m)) [
      | inl stuck ↦ none_not_some (sym (rw (found, stuck, unwind_operations) refl) ∙ h)
      | inr (x, first) ↦
          let rest : unwind_operations c tx source k x ≡ some m' =
            sym (step k m op x found first) ∙ h in
          first_last tx.operations 0 k m m' (
            op,
            x,
            found,
            subst (λ j. unwind_at j op m ≡ some x) (from_zero k) first,
            Unwinds-unwind_operations k x m' rest,
          )
    ]
  ]
    where
      step :
          (j : ℕ) (y : c.Manager) (op : Operation) (x : c.Manager)
          → get_elem? tx.operations j ≡ some op
          → unwind_at j op y ≡ some x
          → unwind_operations c tx source (suc j) y ≡ unwind_operations c tx source j x
      step j y op x found first = rw (found, first, unwind_operations) refl

  pub unwind_operations-Unwinds :
      (n : ℕ) (m m' : c.Manager)
      → n ≤ length tx.operations
      → Back (take n tx.operations) 0 m m'
      → unwind_operations c tx source n m ≡ some m'
  unfolding unwind_operations
  unwind_operations-Unwinds zero m m' h back = ap some (sym back)
  unwind_operations-Unwinds (suc k) m m' h back =
      let (op, x, found, first, others) = last_first tx.operations 0 k m m' (omega arith) back in
      let first' = subst (λ j. unwind_at j op m ≡ some x) (sym (from_zero k)) first in
      rw (found, first', unwind_operations) (unwind_operations-Unwinds k x m' (omega arith) others)

  loop_of_transaction :
      (n : ℕ) (m : c.Manager)
      → c.stored_user tx.metadata.source_account ≡ some source
      → unwind_transaction c tx n m ≡ unwind_operations c tx source n m
  unfolding unwind_transaction
  loop_of_transaction n m stored = rw (stored, unwind_transaction) refl

  -- The return for a refused operation is what undoes the ones before it.
  pub Undone-undo :
      (n : ℕ) (f s' : State c) (status status' : TransactionProcessingStatus)
      → c.stored_user tx.metadata.source_account ≡ some source
      → undo c tx n f status ≡ some (s', status')
      → (status' ≡ status) × Undone c tx source n f s'
  Undone-undo n f s' status status' stored h =
      elim (Option-cases (unwind_transaction c tx n f.manager)) [
        | inl stuck ↦ none_not_some (sym (rw (stuck, undo) refl) ∙ h)
        | inr (m, back) ↦ elim (Option-cases (c.unwind f.view)) [
          | inl lost ↦ none_not_some (sym (rw (back, lost, undo, unwind_view) refl) ∙ h)
          | inr (v, view) ↦
              let returned : some (record f { manager = m; view = v }, status)
                  ≡ some (s', status') =
                sym (rw (back, view, undo, unwind_view) refl) ∙ h in
              let parts = Option.some-injective _ _ returned in
              (
                sym (ap (λ r. r.1) parts),
                (
                  m,
                  v,
                  Unwinds-unwind_operations n f.manager m
                      (sym (loop_of_transaction n f.manager stored) ∙ back),
                  view,
                  sym (ap (λ r. r.0) parts),
                ),
              )
        ]
      ]

  pub undo-Undone :
      (n : ℕ) (f s' : State c) (status : TransactionProcessingStatus)
      → c.stored_user tx.metadata.source_account ≡ some source
      → n ≤ length tx.operations
      → Undone c tx source n f s'
      → undo c tx n f status ≡ some (s', status)
  undo-Undone n f s' status stored h (m, v, back, view, same) =
      let loop =
        loop_of_transaction n f.manager stored ∙ unwind_operations-Unwinds n f.manager m h back in
      rw (loop, view, undo, unwind_view) (ap (λ r. some (r, status)) (sym same))
