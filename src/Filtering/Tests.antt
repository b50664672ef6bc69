-- ===== src/Filtering/Tests.antt =====
-- Runs of the filter on a concrete account.
use speedex.Prelude.{
  ℕ, ◌≡◌, ◌↔◌, ◌≤◌, ◌<◌, refl, true, Option, none, some, [], ◌∷◌, if◌then◌else◌, ◌==◌, arith,
}
use speedex.Prelude.Int.{pos, ◌≤ℤ◌, ◌+ℤ◌, add64, wrap64}
use speedex.Types.{OfferCategory, SignedTransaction, payment, create_sell_offer}
use speedex.MemoryDatabase.RevertableAsset.{of_amount}
use speedex.MemoryDatabase.UserAccount.{UserAccount, new_account, lookup_available_balance}
use speedex.Filtering.AccountCreationFilter.{is_valid_account_creation}
use speedex.Filtering.AccountCreationFilter.Counts.{
  log_all, count, is_valid_account_creation-log_all,
}
use speedex.Filtering.AccountFilterEntry.{
  AccountFilterEntry, new_entry, compute_validity, check_valid, valid_has_txs, found_error,
}
use speedex.Filtering.AccountFilterEntry.Owes.{needs}
use speedex.Filtering.AccountFilterEntry.Required.{compute_validity-covers}
use speedex.Filtering.AccountFilterEntry.DoubleCancel.{cancels_twice, double_cancel-accepted}

is_valid_account_creation-log_all_example :
    (is_valid_account_creation (log_all (4 ∷ 7 ∷ 4 ∷ []) []) 4 ≡ true)
    ↔ (count 4 (4 ∷ 7 ∷ 4 ∷ []) ≤ 1)
is_valid_account_creation-log_all_example =
    is_valid_account_creation-log_all (4 ∷ 7 ∷ 4 ∷ []) 4 (omega arith)

-- An account with 100 of the native asset and 50 of the next.
abbrev account : UserAccount
account = record (new_account 7 99) { owned_assets = of_amount (pos 100) ∷ of_amount (pos 50) ∷ [] }

abbrev users : ℕ → Option UserAccount
users id = if id == 7 then some account else none

abbrev category : OfferCategory
category = record { sell_asset = 1; buy_asset = 0; offer_type = 0 }

-- It offers 20 of its second asset and pays 30 of it.
abbrev tx : SignedTransaction
tx = record {
  transaction = record {
    metadata = record { source_account = 7; sequence_number = 256 };
    operations =
        create_sell_offer (record { category = category; amount = pos 20; min_price = 1 })
        ∷ payment (record { receiver = 8; asset = 1; amount = pos 30 })
        ∷ [];
    max_fee = 20;
  };
  signature = 0;
}

abbrev entry : AccountFilterEntry
entry = record (new_entry 7) { txs = (256, tx) ∷ [] }

abbrev checked : AccountFilterEntry
checked = record entry {
  reqs_computed = true;
  required_assets = (1, pos 50) ∷ (0, pos 20) ∷ [];
  checked_reqs_cached = true;
}

entry-checked : compute_validity users entry [] ≡ some (checked, [])
unfolding compute_validity ◌+ℤ◌ add64 wrap64 lookup_available_balance
entry-checked = refl

compute_validity-covers_example :
    (acc : UserAccount) × (users 7 ≡ some acc)
    × ((a : ℕ) → 0 < needs a entry.txs → pos (needs a entry.txs) ≤ℤ lookup_available_balance acc a)
unfolding check_valid found_error
compute_validity-covers_example =
    compute_validity-covers users entry checked [] [] refl refl
      (((omega arith, omega arith), ((omega arith, omega arith), tt)), omega arith, tt)
      entry-checked refl refl

double_cancel-accepted_example :
    (e' : AccountFilterEntry) × (compute_validity users
        (record (new_entry 7) {
          txs = (256, cancels_twice 7 256 20 category 512 8 1 (pos 1000)) ∷ [];
        })
        []
      ≡ some (e', []))
    × (check_valid e' ≡ some valid_has_txs)
double_cancel-accepted_example =
    double_cancel-accepted users account [] 7 256 20 category 512 8 1 (pos 1000) refl
