-- ===== src/MemoryDatabase/MemoryDatabaseView.antt =====
-- The views of the database (memory_database/memory_database_view.h and .cc): creation of accounts
-- (`AccountCreationView`), the view of block production, which buffers what accounts receive
-- (`BufferedMemoryDatabaseView`), and the one of block validation, which does not
-- (`UnbufferedMemoryDatabaseView`). `none` is a thrown error or a pointer to no account.
pub mod Reservations
pub mod Buffered
mod Tests
use speedex.Prelude.{
  ℕ, Bool, true, false, if◌then◌else◌, Option, none, some, ◌⊎◌, inl, inr, List, [], ◌∷◌, ◌++◌,
  get_elem?, set,
}
use speedex.Prelude.Int.{ℤ}
use speedex.Prelude.Dict.{Dict, lookup, insert}
use speedex.Types.{is_success, TransactionProcessingStatus, success, insufficient_balance}
use speedex.MemoryDatabase.UserAccount.{UserAccount, new_account}
use speedex.MemoryDatabase.UserAccount
use speedex.MemoryDatabase.UserAccountView.{UserAccountView, new_view}
use speedex.MemoryDatabase.UserAccountView
use speedex.MemoryDatabase.MemoryDatabase.{
  CommitmentTrie, MemoryDatabase, reserve_account_creation, release_account_creation,
  commit_account_creation,
}
use speedex.MemoryDatabase.MemoryDatabase

-- `UserAccount*`: an account of the database by its index, or one that the view has created, by
-- its id.
pub data UserAccountPtr : Type 0 where
  stored created : ℕ → UserAccountPtr

pub record SeqnoReservation : Type 0 where
  pub account : UserAccountPtr
  pub seqno : ℕ

module _ (t : CommitmentTrie) where
  pub record AccountCreationView : Type 0 where
    pub main_db : MemoryDatabase t
    pub new_accounts : Dict UserAccount
    pub temporary_idxs : Dict UserAccountPtr
    pub reservations : List SeqnoReservation

  abbrev pub new_creation_view : MemoryDatabase t → AccountCreationView
  new_creation_view db = record {
    main_db = db;
    new_accounts = [];
    temporary_idxs = [];
    reservations = [];
  }

  -- The account behind a pointer, and a change of it.
  abbrev pub account_at : AccountCreationView → UserAccountPtr → Option UserAccount
  account_at v (stored idx) = get_elem? v.main_db.database idx
  account_at v (created id) = lookup id v.new_accounts

  abbrev pub put_account : AccountCreationView → UserAccountPtr → UserAccount → AccountCreationView
  put_account v (stored idx) a = record v {
    main_db = record v.main_db { database = set v.main_db.database idx a };
  }
  put_account v (created id) a = record v { new_accounts = insert id a v.new_accounts }

  unfoldable pub lookup_user : AccountCreationView → ℕ → Option UserAccountPtr
  lookup_user v account = elim (MemoryDatabase.lookup_user t v.main_db account) [
    | some idx ↦ some (stored idx)
    | none ↦ lookup account v.temporary_idxs
  ]

  unfoldable pub create_new_account :
      AccountCreationView
      → ℕ
      → ℕ
      → AccountCreationView × (TransactionProcessingStatus ⊎ UserAccountPtr)
  unfolding reserve_account_creation
  create_new_account v account pk =
      let (db, status) = reserve_account_creation t v.main_db account in
      if is_success status
      then (
        record v {
          main_db = db;
          new_accounts = (account, new_account account pk) ∷ v.new_accounts;
          temporary_idxs = insert account (created account) v.temporary_idxs;
        },
        inr (created account),
      )
      else (record v { main_db = db }, inl status)

  unfoldable pub reserve_sequence_number :
      AccountCreationView
      → UserAccountPtr
      → ℕ
      → Option (AccountCreationView × TransactionProcessingStatus)
  reserve_sequence_number v idx sequence_number = elim (account_at v idx) [
    | none ↦ none
    | some a ↦
        let (a', status) = UserAccount.reserve_sequence_number a sequence_number in
        let v' = put_account v idx a' in
        if is_success status
        then some (
          record v' {
            reservations =
                v'.reservations ++ (record { account = idx; seqno = sequence_number } ∷ []);
          },
          status,
        )
        else some (v', status)
  ]

  -- The loops of `commit` and `unwind` over the new accounts.
  unfoldable pub commit_creations : Dict UserAccount → MemoryDatabase t → MemoryDatabase t
  unfolding commit_account_creation
  commit_creations [] db = db
  commit_creations ((id, a) ∷ accs) db = commit_creations accs (commit_account_creation t db id a)

  unfoldable pub release_creations : Dict UserAccount → MemoryDatabase t → MemoryDatabase t
  unfolding release_account_creation
  release_creations [] db = db
  release_creations ((id, a) ∷ accs) db = release_creations accs (release_account_creation t db id)

  -- The loops over the reservations.
  unfoldable pub commit_reservations :
      List SeqnoReservation → AccountCreationView → Option AccountCreationView
  commit_reservations [] v = some v
  commit_reservations (res ∷ rest) v = elim (account_at v res.account) [
    | none ↦ none
    | some a ↦
        commit_reservations rest
          (put_account v res.account (UserAccount.commit_sequence_number a res.seqno))
  ]

  unfoldable pub release_reservations :
      List SeqnoReservation → AccountCreationView → Option AccountCreationView
  release_reservations [] v = some v
  release_reservations (res ∷ rest) v = elim (account_at v res.account) [
    | none ↦ none
    | some a ↦ elim (UserAccount.release_sequence_number a res.seqno) [
      | none ↦ none
      | some a' ↦ release_reservations rest (put_account v res.account a')
    ]
  ]

  unfoldable pub commit_creation_view : AccountCreationView → Option AccountCreationView
  unfolding commit_creations commit_reservations
  commit_creation_view v =
      commit_reservations v.reservations
        (record v { main_db = commit_creations v.new_accounts v.main_db })

  unfoldable pub unwind_creation_view : AccountCreationView → Option AccountCreationView
  unfolding release_creations release_reservations
  unwind_creation_view v =
      release_reservations v.reservations
        (record v { main_db = release_creations v.new_accounts v.main_db })

  -- An operation on an account that answers whether it succeeded.
  abbrev pub attempt :
      AccountCreationView
      → UserAccountPtr
      → UserAccount × Bool
      → AccountCreationView × TransactionProcessingStatus
  attempt v p (a, res) = (put_account v p a, if res then success else insufficient_balance)

  unfoldable pub unbuffered_escrow :
      AccountCreationView
      → UserAccountPtr
      → ℕ
      → ℤ
      → Option (AccountCreationView × TransactionProcessingStatus)
  unbuffered_escrow v p asset amount = elim (account_at v p) [
    | none ↦ none
    | some a ↦ some (put_account v p (UserAccount.escrow a asset amount), success)
  ]

  unfoldable pub unbuffered_transfer_available :
      AccountCreationView
      → UserAccountPtr
      → ℕ
      → ℤ
      → Option (AccountCreationView × TransactionProcessingStatus)
  unbuffered_transfer_available v p asset amount = elim (account_at v p) [
    | none ↦ none
    | some a ↦ some (put_account v p (UserAccount.transfer_available a asset amount), success)
  ]
