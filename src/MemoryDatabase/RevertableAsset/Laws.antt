-- ===== src/MemoryDatabase/RevertableAsset/Laws.antt =====
-- What each method of a revertable asset does to the available amount, on every branch, and
-- what `commit` and `rollback` make of the changes between them.
use speedex.Prelude.{◌≡◌, refl, ◌⊎◌, ◌∙◌, Bool, true, false, some, none, List, [], ◌∷◌, arith}
use speedex.Prelude.Int.{
  ℤ, pos, ◌+ℤ◌, ◌-ℤ◌, ◌≤ℤ◌, IsInt64, wrap64, wrap64_id, add64, neg64, int_laws,
}
use speedex.MemoryDatabase.RevertableAsset.{
  RevertableAsset, escrow, transfer_available, tentative, conditional_transfer_available,
  conditional_escrow, commit, rollback,
}

-- A withdrawal from an amount that is not negative cannot leave the range of `int64_t`.
withdraw-IsInt64 :
    (current amount : ℤ)
    → IsInt64 amount
    → amount ≤ℤ pos 0
    → IsInt64 current
    → pos 0 ≤ℤ current
    → IsInt64 (current +ℤ amount)
withdraw-IsInt64 current amount ha neg hc nonneg = omega int_laws

-- The loop body stores the exact sum where that is not negative, and refuses otherwise.
pub tentative_lem :
    (current amount : ℤ)
    → IsInt64 amount
    → amount ≤ℤ pos 0
    → IsInt64 current
    → pos 0 ≤ℤ current
    → ((pos 0 ≤ℤ current +ℤ amount) × (tentative current amount ≡ some (current +ℤ amount)))
      ⊎ (¬ (pos 0 ≤ℤ current +ℤ amount) × (tentative current amount ≡ none))
unfolding tentative add64
tentative_lem current amount ha neg hc nonneg =
    rw (wrap64_id (current +ℤ amount) (withdraw-IsInt64 current amount ha neg hc nonneg))
      (ground arith)

-- What a refusal and a success of a conditional method have to be.
abbrev pub Withdraws : RevertableAsset → ℤ → RevertableAsset × Bool → Type 0
Withdraws a amount (a', true) =
    (pos 0 ≤ℤ a.available +ℤ amount) × (a' ≡ record a { available = a.available +ℤ amount })
Withdraws a amount (a', false) = ¬ (pos 0 ≤ℤ a.available +ℤ amount) × (a' ≡ a)

-- From an asset whose available amount is a nonnegative `int64_t`, a conditional transfer of an
-- `int64_t` amount that is zero or negative succeeds exactly if the exact sum is not negative. On
-- success the available amount becomes that sum; a refusal leaves the asset as it was.
pub conditional_transfer_available-Withdraws :
    (a : RevertableAsset) (amount : ℤ)
    → IsInt64 amount
    → amount ≤ℤ pos 0
    → IsInt64 a.available
    → pos 0 ≤ℤ a.available
    → Withdraws a amount (conditional_transfer_available a amount)
unfolding conditional_transfer_available
conditional_transfer_available-Withdraws a amount ha neg hc nonneg =
    ground (arith, tentative_lem a.available amount ha neg hc nonneg)

-- From an asset whose available amount is a nonnegative `int64_t`, escrowing a positive `int64_t`
-- amount succeeds exactly if the amount is covered, takes exactly that amount, and a refusal
-- changes nothing.
pub conditional_escrow-Withdraws :
    (a : RevertableAsset) (amount : ℤ)
    → IsInt64 amount
    → pos 1 ≤ℤ amount
    → IsInt64 a.available
    → pos 0 ≤ℤ a.available
    → Withdraws a (pos 0 -ℤ amount) (conditional_escrow a amount)
unfolding conditional_escrow neg64
conditional_escrow-Withdraws a amount ha positive hc nonneg =
    let exact : wrap64 (pos 0 -ℤ amount) ≡ pos 0 -ℤ amount =
      wrap64_id (pos 0 -ℤ amount) (omega int_laws) in
    rw exact (
      ground (
        arith,
        conditional_transfer_available-Withdraws a (pos 0 -ℤ amount) (omega int_laws)
            (omega int_laws) hc nonneg,
      ))

-- One call of a method that changes the available amount.
pub data Change : Type 0 where
  escrows transfers transfers_conditionally escrows_conditionally : ℤ → Change

unfoldable pub apply : Change → RevertableAsset → RevertableAsset
apply (escrows x) a = escrow a x
apply (transfers x) a = transfer_available a x
apply (transfers_conditionally x) a = (conditional_transfer_available a x).0
apply (escrows_conditionally x) a = (conditional_escrow a x).0

unfoldable pub apply_all : List Change → RevertableAsset → RevertableAsset
unfolding apply
apply_all [] a = a
apply_all (c ∷ cs) a = apply_all cs (apply c a)

transfer-committed :
    (a : RevertableAsset) (x : ℤ)
    → (conditional_transfer_available a x).0.committed_available ≡ a.committed_available
unfolding conditional_transfer_available transfer_available
transfer-committed a x = ground (arith, tentative a.available x)

pub apply-committed :
    (c : Change) (a : RevertableAsset) → (apply c a).committed_available ≡ a.committed_available
unfolding apply escrow transfer_available conditional_escrow
apply-committed (escrows x) a = refl
apply-committed (transfers x) a = refl
apply-committed (transfers_conditionally x) a = transfer-committed a x
apply-committed (escrows_conditionally x) a = ground (arith, transfer-committed a (neg64 x))

apply_all-committed :
    (cs : List Change) (a : RevertableAsset)
    → (apply_all cs a).committed_available ≡ a.committed_available
unfolding apply_all
apply_all-committed [] a = refl
apply_all-committed (c ∷ cs) a = apply_all-committed cs (apply c a) ∙ apply-committed c a

-- Whatever calls follow a commit, a rollback gives back exactly the committed state, also where
-- an amount wrapped in between.
pub rollback-apply_all-commit :
    (cs : List Change) (a : RevertableAsset) → rollback (apply_all cs (commit a).0) ≡ (commit a).0
unfolding rollback commit
rollback-apply_all-commit cs a =
    ground (arith, apply_all-committed cs (record a { committed_available = a.available }))
