-- ===== src/MemoryDatabase/MemoryDatabase/Creation.antt =====
-- What the commit of new accounts adds to the database.
use mathlib.Core.List.{append-nil, append_assoc}
use speedex.Prelude.{
  ℕ, suc, ◌≡◌, refl, sym, ap, subst, ◌∙◌, if◌then◌else◌, ◌==◌, Option, none, some, List, [], ◌∷◌,
  ◌++◌, map, length, length-append, Bool-cases, inl, inr, arith,
}
use speedex.Prelude.Dict.{Dict, lookup, insert, HasKeysOnce, lookup-insert, insert-HasKeysOnce}
use speedex.Types.{AccountCommitment}
use speedex.MemoryDatabase.UserAccount.{UserAccount}
use speedex.MemoryDatabase.UserAccount
use speedex.MemoryDatabase.MemoryDatabase.{CommitmentTrie, MemoryDatabase, commit_accounts}
use speedex.MemoryDatabase.MemoryDatabase.Rollback.{owned}

-- No account of the list is in the map, and no two have the same owner; `n` is the index of the
-- first one.
abbrev pub Fresh : List UserAccount → Dict ℕ → ℕ → Type 0
Fresh [] d n = Unit
Fresh (a ∷ accs) d n = (lookup a.owner d ≡ none) × Fresh accs (insert a.owner n d) (suc n)

module _ {t : CommitmentTrie} where
  -- What the creation of accounts adds: the accounts at the end, and entries of the map for their
  -- owners alone.
  abbrev pub Added : List UserAccount → MemoryDatabase t → MemoryDatabase t → Type 0
  Added new db db' =
      (db'.database ≡ db.database ++ new)
      × HasKeysOnce db'.user_id_to_idx_map
      × ((id : ℕ)
          → lookup id db.user_id_to_idx_map
            ≡ (if owned id new then none else lookup id db'.user_id_to_idx_map))

  abbrev pub AddedAfter : List UserAccount → MemoryDatabase t → Option (MemoryDatabase t) → Type 0
  AddedAfter new db none = Unit
  AddedAfter new db (some db') = Added new db db'

  AddedAfter-cons :
      (a : UserAccount) (new : List UserAccount) (db db1 : MemoryDatabase t)
      (r : Option (MemoryDatabase t))
      → db1.database ≡ db.database ++ (a ∷ [])
      → db1.user_id_to_idx_map ≡ insert a.owner (length db.database) db.user_id_to_idx_map
      → lookup a.owner db.user_id_to_idx_map ≡ none
      → AddedAfter new db1 r
      → AddedAfter (a ∷ new) db r
  AddedAfter-cons a new db db1 none e m fresh rest = tt
  AddedAfter-cons a new db db1 (some db') e m fresh (e', once, looked) = (
    e' ∙ ap (λ xs. xs ++ new) e ∙ append_assoc db.database (a ∷ []) new,
    once,
    λ id.
        let inserted = ap (lookup id) m in
        let found = lookup-insert a.owner id (length db.database) db.user_id_to_idx_map in
        elim (Bool-cases (a.owner == id)) [
          | inl here ↦
              let key : id ≡ a.owner = ground arith in
              rw here (ap (λ k. lookup k db.user_id_to_idx_map) key ∙ fresh)
          | inr other ↦
              let same : lookup id db1.user_id_to_idx_map ≡ lookup id db.user_id_to_idx_map =
                inserted ∙ found ∙ rw other refl in
              rw other (sym same ∙ looked id)
        ],
  )

  -- The database with one account more.
  abbrev with_account : UserAccount → AccountCommitment → MemoryDatabase t → MemoryDatabase t
  with_account acct commitment db = record db {
    database = db.database ++ (acct ∷ []);
    commitment_trie = t.trie_insert acct.owner commitment db.commitment_trie;
    user_id_to_idx_map = insert acct.owner (length db.database) db.user_id_to_idx_map;
  }

  AddedAfter-commitment :
      (acct : UserAccount) (new : List UserAccount) (db : MemoryDatabase t)
      (r : Option AccountCommitment) (more : MemoryDatabase t → Option (MemoryDatabase t))
      → lookup acct.owner db.user_id_to_idx_map ≡ none
      → ((commitment : AccountCommitment)
          → AddedAfter new
              (with_account acct commitment db)
              (more (with_account acct commitment db)))
      → AddedAfter
          (acct ∷ new)
          db
          (elim r [ none ↦ none | some commitment ↦ more (with_account acct commitment db) ])
  AddedAfter-commitment acct new db none more fresh rest = tt
  AddedAfter-commitment acct new db (some commitment) more fresh rest =
      AddedAfter-cons acct new db (with_account acct commitment db) _ refl refl fresh
        (rest commitment)

  pub commit_accounts-Added :
      (fuel : ℕ) (accs : List UserAccount) (db : MemoryDatabase t)
      → HasKeysOnce db.user_id_to_idx_map
      → Fresh accs db.user_id_to_idx_map (length db.database)
      → AddedAfter (map UserAccount.commit accs) db (commit_accounts t fuel accs db)
  unfolding commit_accounts UserAccount.commit
  commit_accounts-Added fuel [] db once fresh = (sym (append-nil db.database), once, λ id. refl)
  commit_accounts-Added fuel (a ∷ accs) db once fresh =
      let acct = UserAccount.commit a in
      let once1 = insert-HasKeysOnce a.owner (length db.database) db.user_id_to_idx_map once in
      let longer : suc (length db.database) ≡ length (db.database ++ (acct ∷ [])) =
        omega (arith, length-append db.database (acct ∷ [])) in
      let fresh1 =
        subst (Fresh accs (insert a.owner (length db.database) db.user_id_to_idx_map)) longer
          fresh.1 in
      AddedAfter-commitment acct (map UserAccount.commit accs) db
        (UserAccount.produce_commitment fuel acct) (commit_accounts t fuel accs) fresh.0
        (λ commitment.
          commit_accounts-Added fuel accs (with_account acct commitment db) once1 fresh1)
