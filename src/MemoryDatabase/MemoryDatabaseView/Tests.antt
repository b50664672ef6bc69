-- ===== src/MemoryDatabase/MemoryDatabaseView/Tests.antt =====
-- Creation of accounts by a view of a database that has one account.
use speedex.Prelude.{ℕ, ◌≡◌, refl, true, false, ◌&&◌, [], ◌∷◌}
use speedex.Prelude.Dict.{Dict, contains}
use speedex.MemoryDatabase.UserAccount.{new_account}
use speedex.MemoryDatabase.MemoryDatabase.{CommitmentTrie, MemoryDatabase, member}
use speedex.MemoryDatabase.MemoryDatabaseView.{
  new_creation_view, create_new_account, release_creations,
}
use speedex.MemoryDatabase.MemoryDatabaseView.Reservations.{
  create_all, created_id, release_creations-create_all,
}

abbrev no_trie : CommitmentTrie
no_trie = record {
  Trie = Unit;
  trie_insert = λ id commitment trie. trie;
  perform_deletion = λ id trie. trie;
}

-- Account 3 exists, and another transaction creates account 8.
abbrev database : MemoryDatabase no_trie
database = record {
  user_id_to_idx_map = (3, 0) ∷ [];
  reserved_account_ids = 8 ∷ [];
  database = new_account 3 30 ∷ [];
  uncommitted_db = [];
  commitment_trie = tt;
  account_creation_thunks = [];
}

abbrev calls : Dict ℕ
calls = (3, 30) ∷ (5, 50) ∷ (8, 80) ∷ (5, 51) ∷ (6, 60) ∷ []

five_created :
    created_id 5 (create_all no_trie calls (new_creation_view no_trie database)).new_accounts ≡ true
unfolding create_new_account
five_created = refl

eight_refused :
    created_id 8 (create_all no_trie calls (new_creation_view no_trie database)).new_accounts
    ≡ false
unfolding create_new_account
eight_refused = refl

release_creations-create_all_example :
    let v = create_all no_trie calls (new_creation_view no_trie database) in
    (member 5 (release_creations no_trie v.new_accounts v.main_db).reserved_account_ids
      ≡ member 5 (8 ∷ []))
    × ((member 5 (8 ∷ []) && created_id 5 v.new_accounts) ≡ false)
    × ((contains 5 database.user_id_to_idx_map && created_id 5 v.new_accounts) ≡ false)
release_creations-create_all_example = release_creations-create_all no_trie database calls 5
