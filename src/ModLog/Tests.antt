-- ===== src/ModLog/Tests.antt =====
-- Runs of the log at concrete entries.
use speedex.Prelude.{ℕ, refl, [], ◌∷◌}
use speedex.Types.{SignedTransaction, TxIdentifier}
use speedex.ModLog.AccountModificationEntry.{AccountModificationEntry, new_entry, merge_value}
use speedex.ModLog.AccountModificationEntry.Sets.{has_key}
use speedex.ModLog.AccountModificationEntry.Merge.{Merged, merge_value-Merged}

abbrev tx : ℕ → SignedTransaction
tx n = record {
  transaction = record {
    metadata = record { source_account = 7; sequence_number = n };
    operations = [];
    max_fee = 10;
  };
  signature = 0;
}

abbrev by : ℕ → ℕ → TxIdentifier
by owner n = record { owner = owner; sequence_number = n }

abbrev first : AccountModificationEntry
first = record (new_entry 7) {
  identifiers_self = 1 ∷ 3 ∷ [];
  identifiers_other = by 2 5 ∷ [];
  new_transactions_self = tx 256 ∷ [];
}

abbrev second : AccountModificationEntry
second = record (new_entry 7) {
  identifiers_self = 2 ∷ 3 ∷ [];
  identifiers_other = by 1 9 ∷ by 2 5 ∷ [];
  new_transactions_self = tx 512 ∷ [];
}

merge_value-Merged_example : Merged first second (merge_value first second)
unfolding has_key
merge_value-Merged_example = merge_value-Merged first second (refl, tt) refl
