-- ===== src/MemoryDatabase/MemoryDatabase.antt =====
-- The database of accounts (`MemoryDatabase`, memory_database/memory_database.h and .cc). A pointer
-- to an account is its index in the vector of accounts, which `AccountVector` shows to behave as a
-- list and never to move an account. The locks, the log of transfers and LMDB are left out; the
-- rounds that LMDB has stored are an argument. The trie of commitments is of a submodule and is a
-- parameter.
pub mod Rollback
pub mod Creation
pub mod Blocks
mod Tests
use speedex.Prelude.{
  take, drop, ℕ, zero, suc, ◌+◌, ◌-◌, Bool, true, false, if◌then◌else◌, ltb, ◌==◌, ◌&&◌, ◌||◌, not,
  Option, none, some, List, [], ◌∷◌, ◌++◌, map, length, get_elem?,
}
use speedex.Prelude.Int.{ℤ}
use speedex.Prelude.Dict.{Dict, lookup, contains, insert, erase}
use speedex.Types.{
  TransactionProcessingStatus, success, new_account_already_exists, new_account_temp_reserved,
  AccountCommitment,
}
use speedex.MemoryDatabase.UserAccount.{UserAccount}
use speedex.MemoryDatabase.UserAccount

pub record AccountCreationThunk : Type 0 where
  pub current_block_number : ℕ
  pub num_accounts_created : ℕ

-- `DBStateCommitmentTrie`, by account id.
pub record CommitmentTrie : Type 1 where
  pub Trie : Type 0
  pub trie_insert : ℕ → AccountCommitment → Trie → Trie
  pub perform_deletion : ℕ → Trie → Trie

-- A `std::set` of ids.
abbrev pub member : ℕ → List ℕ → Bool
member id [] = false
member id (x ∷ xs) = (x == id) || member id xs

abbrev pub remove_id : ℕ → List ℕ → List ℕ
remove_id id [] = []
remove_id id (x ∷ xs) = if x == id then remove_id id xs else x ∷ remove_id id xs

module _ (t : CommitmentTrie) where
  pub record MemoryDatabase : Type 0 where
    pub user_id_to_idx_map : Dict ℕ
    pub reserved_account_ids : List ℕ
    pub database : List UserAccount
    pub uncommitted_db : List UserAccount
    pub commitment_trie : t.Trie
    pub account_creation_thunks : List AccountCreationThunk

  abbrev pub account_exists : MemoryDatabase → ℕ → Bool
  account_exists db account = contains account db.user_id_to_idx_map

  abbrev pub lookup_user : MemoryDatabase → ℕ → Option ℕ
  lookup_user db account = lookup account db.user_id_to_idx_map

  unfoldable pub reserve_account_creation :
      MemoryDatabase → ℕ → MemoryDatabase × TransactionProcessingStatus
  reserve_account_creation db account =
      if contains account db.user_id_to_idx_map
      then (db, new_account_already_exists)
      else if member account db.reserved_account_ids
      then (db, new_account_temp_reserved)
      else (record db { reserved_account_ids = account ∷ db.reserved_account_ids }, success)

  unfoldable pub release_account_creation : MemoryDatabase → ℕ → MemoryDatabase
  release_account_creation db account = record db {
    reserved_account_ids = remove_id account db.reserved_account_ids;
  }

  unfoldable pub commit_account_creation : MemoryDatabase → ℕ → UserAccount → MemoryDatabase
  commit_account_creation db account_id account_data = record db {
    uncommitted_db = db.uncommitted_db ++ (account_data ∷ []);
  }

  unfoldable pub clear_internal_data_structures : MemoryDatabase → MemoryDatabase
  clear_internal_data_structures db = record db { uncommitted_db = []; reserved_account_ids = [] }

  unfoldable pub commit_values : MemoryDatabase → MemoryDatabase
  commit_values db = record db { database = map UserAccount.commit db.database }

  unfoldable pub rollback_values : MemoryDatabase → MemoryDatabase
  rollback_values db = record db { database = map UserAccount.rollback db.database }

  -- The block number of the last thunk.
  abbrev pub last_block : List AccountCreationThunk → Option ℕ
  last_block [] = none
  last_block (x ∷ []) = some x.current_block_number
  last_block (x ∷ y ∷ xs) = last_block (y ∷ xs)

  -- The first check of `commit_new_accounts`, with the least round number that LMDB has stored.
  unfoldable pub follows : ℕ → List AccountCreationThunk → ℕ → Bool
  follows min_db_round thunks current_block_number =
      let expected : ℕ = elim (last_block thunks) [ none ↦ min_db_round + 1 | some n ↦ n + 1 ] in
      (expected == current_block_number) || ((current_block_number == 0) && (min_db_round == 0))

  -- The loop of `commit_new_accounts`. `fuel` is that of `produce_commitment`.
  unfoldable pub commit_accounts : ℕ → List UserAccount → MemoryDatabase → Option MemoryDatabase
  commit_accounts fuel [] db = some db
  commit_accounts fuel (a ∷ accs) db =
      let acct = UserAccount.commit a in
      elim (UserAccount.produce_commitment fuel acct) [
        | none ↦ none
        | some commitment ↦ commit_accounts fuel accs (record db {
          database = db.database ++ (acct ∷ []);
          commitment_trie = t.trie_insert acct.owner commitment db.commitment_trie;
          user_id_to_idx_map = insert acct.owner (length db.database) db.user_id_to_idx_map;
        })
      ]

  -- `none` is a thrown error, or a commitment that never ends.
  unfoldable pub commit_new_accounts : ℕ → ℕ → MemoryDatabase → ℕ → Option MemoryDatabase
  unfolding commit_accounts follows clear_internal_data_structures
  commit_new_accounts fuel min_db_round db current_block_number =
      if not (follows min_db_round db.account_creation_thunks current_block_number)
      then none
      else elim (commit_accounts fuel db.uncommitted_db db) [
        | none ↦ none
        | some db' ↦ some (
            clear_internal_data_structures (record db' {
              account_creation_thunks =
                  db.account_creation_thunks
                  ++ (record {
                    current_block_number = current_block_number;
                    num_accounts_created = length db.uncommitted_db;
                  }
                      ∷ []);
            }))
      ]

  -- The inner loop of `rollback_new_accounts_`, over the accounts from index `idx` on.
  unfoldable pub forget_accounts : List UserAccount → MemoryDatabase → MemoryDatabase
  forget_accounts [] db = db
  forget_accounts (a ∷ accs) db = forget_accounts accs (record db {
    user_id_to_idx_map = erase a.owner db.user_id_to_idx_map;
    commitment_trie = t.perform_deletion a.owner db.commitment_trie;
  })

  -- The outer loop: the thunks that are kept are those of the result.
  unfoldable pub rollback_thunks : ℕ → List AccountCreationThunk → MemoryDatabase → MemoryDatabase
  unfolding forget_accounts
  rollback_thunks current_block_number [] db = record db { account_creation_thunks = [] }
  rollback_thunks current_block_number (thunk ∷ thunks) db =
      let first = length db.database - thunk.num_accounts_created in
      let undone = record (forget_accounts (drop first db.database) db) {
        database = take first db.database;
      } in
      let later = ltb current_block_number thunk.current_block_number in
      let rest = rollback_thunks current_block_number thunks (if later then undone else db) in
      if later
      then rest
      else record rest { account_creation_thunks = thunk ∷ rest.account_creation_thunks }

  unfoldable pub rollback_new_accounts : MemoryDatabase → ℕ → MemoryDatabase
  unfolding rollback_thunks clear_internal_data_structures
  rollback_new_accounts db current_block_number =
      clear_internal_data_structures
        (rollback_thunks current_block_number db.account_creation_thunks db)

  -- `check_valid_state`, over the ids of the log of modified accounts. An id without an account is
  -- of an account that is created in the block.
  unfoldable pub all_valid_users : List ℕ → MemoryDatabase → Bool
  all_valid_users [] db = true
  all_valid_users (id ∷ ids) db =
      elim (lookup id db.user_id_to_idx_map) [
        | none ↦ true
        | some idx ↦ elim (get_elem? db.database idx) [
          | none ↦ true
          | some a ↦ UserAccount.in_valid_state a
        ]
      ]
      && all_valid_users ids db

  abbrev pub all_valid_accounts : List UserAccount → Bool
  all_valid_accounts [] = true
  all_valid_accounts (a ∷ accs) = UserAccount.in_valid_state a && all_valid_accounts accs

  unfoldable pub check_valid_state : List ℕ → MemoryDatabase → Bool
  unfolding all_valid_users
  check_valid_state dirty_accounts db =
      all_valid_users dirty_accounts db && all_valid_accounts db.uncommitted_db

  unfoldable pub get_pk : MemoryDatabase → ℕ → Option ℕ
  get_pk db account = elim (lookup account db.user_id_to_idx_map) [
    | none ↦ none
    | some idx ↦ elim (get_elem? db.database idx) [ none ↦ none | some a ↦ some a.pk ]
  ]
