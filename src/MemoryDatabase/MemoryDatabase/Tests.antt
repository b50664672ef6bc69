-- ===== src/MemoryDatabase/MemoryDatabase/Tests.antt =====
-- A database that creates accounts in two blocks and rolls the second one back.
use speedex.Prelude.{ℕ, ◌≡◌, refl, Option, none, some, List, [], ◌∷◌, map, arith}
use speedex.Prelude.Dict.{lookup}
use speedex.MemoryDatabase.UserAccount.{
  UserAccount, new_account, commitments_from, produce_commitment,
}
use speedex.MemoryDatabase.UserAccount
use speedex.MemoryDatabase.MemoryDatabase.{
  CommitmentTrie, MemoryDatabase, commit_new_accounts, rollback_new_accounts,
}
use speedex.MemoryDatabase.MemoryDatabase.Blocks.{
  Later, nothing, block, rollback_new_accounts-Later,
}

-- A trie as the list of the ids in it.
abbrev ids : CommitmentTrie
ids = record {
  Trie = List ℕ;
  trie_insert = λ id commitment trie. id ∷ trie;
  perform_deletion = λ id trie. [];
}

abbrev empty : MemoryDatabase ids
empty = record {
  user_id_to_idx_map = [];
  reserved_account_ids = [];
  database = [];
  uncommitted_db = [];
  commitment_trie = [];
  account_creation_thunks = [];
}

abbrev stored : Option (MemoryDatabase ids) → MemoryDatabase ids
stored none = empty
stored (some db) = db

abbrev waiting : List UserAccount
waiting = new_account 3 30 ∷ new_account 4 40 ∷ []

-- The database after block 1.
abbrev first : MemoryDatabase ids
first = record {
  user_id_to_idx_map = (3, 0) ∷ (4, 1) ∷ [];
  reserved_account_ids = [];
  database = map UserAccount.commit waiting;
  uncommitted_db = [];
  commitment_trie = 4 ∷ 3 ∷ [];
  account_creation_thunks = record { current_block_number = 1; num_accounts_created = 2 } ∷ [];
}

first_committed :
    commit_new_accounts ids 1 0 (record empty { uncommitted_db = waiting }) 1 ≡ some first
unfolding commit_new_accounts produce_commitment commitments_from UserAccount.commit
first_committed = refl

abbrev second : MemoryDatabase ids
second = record first {
  user_id_to_idx_map = (3, 0) ∷ (4, 1) ∷ (9, 2) ∷ [];
  database = map UserAccount.commit (new_account 3 30 ∷ new_account 4 40 ∷ new_account 9 90 ∷ []);
  commitment_trie = 9 ∷ 4 ∷ 3 ∷ [];
  account_creation_thunks =
      record { current_block_number = 1; num_accounts_created = 2 }
      ∷ record { current_block_number = 2; num_accounts_created = 1 }
      ∷ [];
}

second_committed :
    commit_new_accounts ids 1 0
      (record first { uncommitted_db = new_account 9 90 ∷ []; reserved_account_ids = 9 ∷ [] })
      2
    ≡ some second
unfolding commit_new_accounts produce_commitment commitments_from UserAccount.commit
second_committed = refl

second-Later : Later 1 1 0 first second
second-Later =
    block first second (new_account 9 90 ∷ []) (9 ∷ []) 2 nothing (refl, tt) (omega arith)
      second_committed

rollback_new_accounts-Later_example :
    let db = rollback_new_accounts ids second 1 in
    (db.database ≡ first.database)
    × (db.account_creation_thunks ≡ first.account_creation_thunks)
    × ((id : ℕ) → lookup id db.user_id_to_idx_map ≡ lookup id first.user_id_to_idx_map)
    × (db.uncommitted_db ≡ [])
    × (db.reserved_account_ids ≡ [])
rollback_new_accounts-Later_example =
    rollback_new_accounts-Later 1 1 0 first second (refl, (refl, tt)) (omega arith, tt) second-Later
