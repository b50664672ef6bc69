-- ===== src/MemoryDatabase/Tests.antt =====
-- Runs of the accounts, the assets and the sequence numbers at concrete inputs.
use speedex.Prelude.{
  ℕ, suc, ◌≤◌, ◌<◌, ◌^◌, ◌≡◌, refl, inl, true, false, some, none, [], ◌∷◌, arith, get_or, replicate,
  ◌||◌, ◌==◌, if◌then◌else◌, leb, length-replicate, zero,
}
use speedex.Prelude.Int.{pos, negsuc, ◌+ℤ◌, ◌-ℤ◌, ◌≤ℤ◌}
use speedex.Prelude.Bits.{test_bit}
use speedex.Types.{
  success, seq_num_temp_in_use, seq_num_too_low, seq_num_too_high, AccountCommitment,
}
use speedex.MemoryDatabase.RevertableAsset.{
  RevertableAsset, of_amount, conditional_transfer_available, conditional_escrow,
}
use speedex.MemoryDatabase.RevertableAsset.Laws.{
  Withdraws, conditional_transfer_available-Withdraws, conditional_escrow-Withdraws,
}
use speedex.MemoryDatabase.RevertableAsset.Concurrent.{
  Reach, idle_at, here, next, credit, total, Shared, Reach-accounted,
}
use speedex.MemoryDatabase.SequenceTracker.{
  UInt64SequenceTracker, new_tracker, reserve_sequence_number, release_sequence_number,
}
use speedex.MemoryDatabase.SequenceTracker
use speedex.MemoryDatabase.SequenceTracker.Laws.{
  IsValid, number, is_reserved, reserve-number, out_of_window, commit_lem,
}
use speedex.MemoryDatabase.SequenceTracker.Bounded.{BoundedSequenceTracker}
use speedex.MemoryDatabase.SequenceTracker.Bounded.Laws.{
  reserve-number_bounded, release-number_bounded, commit_bounded,
}
use speedex.MemoryDatabase.SequenceTracker.Bounded
use speedex.MemoryDatabase.SequenceTracker.Bounded.Laws
use speedex.MemoryDatabase.UserAccount.{
  UserAccount, new_account, operate_on_asset, produce_commitment, of_commitment,
}
use speedex.MemoryDatabase.UserAccount
use speedex.MemoryDatabase.UserAccount.Rollback.{calls, reserves, escrows, rollback-calls-commit}
use speedex.MemoryDatabase.UserAccount.Commitment.{
  of_commitment-produce_commitment, produce_commitment_endless,
}

abbrev ten : RevertableAsset
ten = of_amount (pos 10)

conditional_transfer_available-Withdraws_example :
    Withdraws ten (negsuc 11) (conditional_transfer_available ten (negsuc 11))
conditional_transfer_available-Withdraws_example =
    conditional_transfer_available-Withdraws ten (negsuc 11) (omega arith, omega arith)
      (omega arith) (omega arith, omega arith) (omega arith)

conditional_escrow-Withdraws_example :
    Withdraws ten (pos 0 -ℤ pos 4) (conditional_escrow ten (pos 4))
conditional_escrow-Withdraws_example =
    conditional_escrow-Withdraws ten (pos 4) (omega arith, omega arith) (omega arith)
      (omega arith, omega arith) (omega arith)

abbrev credited : Shared
credited = record (idle_at (pos 10)) { available = pos 10 +ℤ pos 5; applied = pos 5 ∷ [] }

credited-Reach : Reach (idle_at (pos 10)) credited
unfolding ◌+ℤ◌
credited-Reach = next here (credit (pos 5) (omega arith) (omega arith) refl)

Reach-accounted_example :
    (pos 0 ≤ℤ credited.available) × (credited.available ≡ pos 10 +ℤ total credited.applied)
Reach-accounted_example =
    Reach-accounted (pos 10) credited (omega arith, omega arith) (omega arith) credited-Reach

-- A tracker at 1024 that has the numbers of bits 1 and 3 reserved.
abbrev tracker : UInt64SequenceTracker
tracker = record (new_tracker 1024) { sequence_number_vec = 10 }

tracker-IsValid : IsValid tracker
tracker-IsValid = record { word = omega arith; room = omega arith }

reserve-number_example :
    let (t', status) = reserve_sequence_number tracker (number tracker 2) in
    (status ≡ (if is_reserved tracker 2 then seq_num_temp_in_use else success))
    × (t'.last_committed_id ≡ tracker.last_committed_id)
    × IsValid t'
    × ((j : ℕ) → is_reserved t' j ≡ ((j == 2) || is_reserved tracker j))
reserve-number_example = reserve-number tracker 2 tracker-IsValid (omega arith)

out_of_window_example :
    (reserve_sequence_number tracker 100
      ≡ (tracker, if leb 100 tracker.last_committed_id then seq_num_too_low else seq_num_too_high))
    × (release_sequence_number tracker 100 ≡ none)
out_of_window_example = out_of_window tracker 100 tracker-IsValid (omega arith) (inl (omega arith))

commit_lem_example :
    let t' = SequenceTracker.commit tracker in
    (number tracker 3 ≤ t'.last_committed_id)
    × ((k : ℕ) × (k < 64)
        × (is_reserved tracker k ≡ true)
        × (t'.last_committed_id ≡ number tracker k))
    × (SequenceTracker.tentative_commitment tracker ≡ t'.last_committed_id)
    × ((j : ℕ) → is_reserved t' j ≡ false)
unfolding test_bit
commit_lem_example = commit_lem tracker 3 tracker-IsValid refl

-- A tracker for 100 numbers that has number 70 reserved.
abbrev long_tracker : BoundedSequenceTracker
long_tracker = record { last_committed_id = 1024; sequence_number_vec = 0 ∷ 64 ∷ [] }

long_tracker-IsValid : Laws.IsValid 100 long_tracker
long_tracker-IsValid = record { words = fits; size = omega arith; room = omega arith }
  where
    fits : (i : ℕ) → get_or long_tracker.sequence_number_vec i 0 < 2 ^ 64
    fits zero = omega arith
    fits (suc zero) = omega arith
    fits (suc (suc i)) = omega arith

commit_bounded_example :
    let t' = Bounded.commit long_tracker in
    (Laws.number long_tracker 70 ≤ t'.last_committed_id)
    × ((k : ℕ) × (Laws.is_reserved long_tracker k ≡ true)
        × (t'.last_committed_id ≡ Laws.number long_tracker k))
    × (Bounded.tentative_commitment long_tracker ≡ t'.last_committed_id)
unfolding test_bit
commit_bounded_example = commit_bounded 100 long_tracker 70 long_tracker-IsValid (omega arith) refl

-- An account that owns two assets and has touched the fourth.
abbrev account : UserAccount
account = record (new_account 7 99) {
  owned_assets = of_amount (pos 5) ∷ of_amount (pos 6) ∷ [];
  uncommitted_assets = of_amount (pos 0) ∷ of_amount (pos 8) ∷ [];
  seq_tracker = tracker;
}

rollback-calls-commit_example :
    UserAccount.rollback
      (calls (escrows 2 (pos 3) ∷ reserves 4096 ∷ []) (UserAccount.commit account))
    ≡ UserAccount.commit account
rollback-calls-commit_example =
    rollback-calls-commit (escrows 2 (pos 3) ∷ reserves 4096 ∷ []) account

of_commitment-produce_commitment_example :
    (c : AccountCommitment) × (produce_commitment 256 (UserAccount.commit account) ≡ some c)
    × (of_commitment c ≡ some (UserAccount.commit account))
unfolding UserAccount.commit
of_commitment-produce_commitment_example =
    of_commitment-produce_commitment 256 account (omega arith) (omega arith)
      ((omega arith, omega arith), ((omega arith, omega arith), tt))
      ((omega arith, omega arith), ((omega arith, omega arith), tt))

-- An account that owns 256 assets.
abbrev full_account : UserAccount
full_account = record (new_account 7 99) { owned_assets = replicate 256 (of_amount (pos 1)) }

produce_commitment_endless_example : produce_commitment 1000 full_account ≡ none
produce_commitment_endless_example =
    produce_commitment_endless 1000 full_account
      (rw (length-replicate 256 (of_amount (pos 1))) (omega arith))
