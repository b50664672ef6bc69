-- ===== src/MemoryDatabase/MemoryDatabase/Blocks.antt =====
-- The blocks that create accounts one after the other, and the rollback to one of them.
use mathlib.Core.List.{append-nil, append_assoc}
use speedex.Prelude.{
  take, drop, ℕ, ◌+◌, ◌-◌, ◌≤◌, ◌<◌, ◌≡◌, refl, sym, ap, subst, ◌∙◌, if◌then◌else◌, Option, none,
  some, List, [], ◌∷◌, ◌++◌, map, length, length-append, length-map, All, All-append, Bool-cases,
  inl, inr, arith,
}
use speedex.Prelude.Dict.{lookup, HasKeysOnce}
use speedex.MemoryDatabase.UserAccount.{UserAccount}
use speedex.MemoryDatabase.UserAccount
use speedex.MemoryDatabase.MemoryDatabase.{
  AccountCreationThunk, CommitmentTrie, MemoryDatabase, follows, commit_accounts,
  commit_new_accounts, rollback_thunks, rollback_new_accounts, clear_internal_data_structures,
}
use speedex.MemoryDatabase.MemoryDatabase.Rollback.{
  owned, owned-append, take-append, drop-append, total, rollback_thunks-late, rollback_thunks-kept,
}
use speedex.MemoryDatabase.MemoryDatabase.Creation.{Fresh, Added, AddedAfter, commit_accounts-Added}

total-append : (xs ys : List AccountCreationThunk) → total (xs ++ ys) ≡ total xs + total ys
total-append [] ys = omega arith
total-append (x ∷ xs) ys = omega (arith, total-append xs ys)

module _ {t : CommitmentTrie} (k fuel min_db_round : ℕ) (start : MemoryDatabase t) where
  -- What has come since `start`, by blocks later than `k`.
  abbrev Since : MemoryDatabase t → Type 0
  Since db =
      (late : List AccountCreationThunk) × (new : List UserAccount) × (db.account_creation_thunks
        ≡ start.account_creation_thunks ++ late)
      × All (λ x. k < x.current_block_number) late
      × (total late ≡ length new)
      × Added new start db

  -- The states that commits of new accounts in blocks after `k` lead to. Between two of them the
  -- waiting accounts and the reserved ids change in any way, but no waiting account is there
  -- already or twice.
  pub data Later : MemoryDatabase t → Type 0 where
    nothing : Later start
    block :
        (db db' : MemoryDatabase t) (waiting : List UserAccount) (reserved : List ℕ) (n : ℕ)
        → Later db
        → Fresh waiting db.user_id_to_idx_map (length db.database)
        → k < n
        → commit_new_accounts t fuel min_db_round
            (record db { uncommitted_db = waiting; reserved_account_ids = reserved })
            n
          ≡ some db'
        → Later db'

  abbrev SinceAfter : Option (MemoryDatabase t) → Type 0
  SinceAfter none = Unit
  SinceAfter (some db) = Since db

  -- With the database that the loop leaves.
  SinceAfter-created :
      (db db1 : MemoryDatabase t) (waiting : List UserAccount) (n : ℕ)
      (r : Option (MemoryDatabase t))
      → db1.database ≡ db.database
      → db1.user_id_to_idx_map ≡ db.user_id_to_idx_map
      → k < n
      → Since db
      → AddedAfter (map UserAccount.commit waiting) db1 r
      → SinceAfter (elim r [
        | none ↦ none
        | some db' ↦ some (
            clear_internal_data_structures t (record db' {
              account_creation_thunks =
                  db.account_creation_thunks
                  ++ (record { current_block_number = n; num_accounts_created = length waiting }
                      ∷ []);
            }))
      ])
  unfolding clear_internal_data_structures
  SinceAfter-created db db1 waiting n none ed em later since added = tt
  SinceAfter-created db db1 waiting n (some db') ed em later
        (late, new, thunks, all_late, count, (e, once, looked)) (e', once', looked') =
      let w = map UserAccount.commit waiting in
      let thunk : AccountCreationThunk = record {
        current_block_number = n;
        num_accounts_created = length waiting;
      } in
      (
        late ++ (thunk ∷ []),
        new ++ w,
        ap (λ xs. xs ++ (thunk ∷ [])) thunks
            ∙ append_assoc start.account_creation_thunks late (thunk ∷ []),
        All-append (λ x. k < x.current_block_number) late (thunk ∷ []) all_late (later, tt),
        omega (
          arith,
          total-append late (thunk ∷ []),
          length-append new w,
          length-map UserAccount.commit waiting,
        ),
        (
          e' ∙ ap (λ xs. xs ++ w) (ed ∙ e) ∙ append_assoc start.database new w,
          once',
          λ id.
              let same : lookup id db1.user_id_to_idx_map ≡ lookup id db.user_id_to_idx_map =
                ap (lookup id) em in
              ground (arith, looked id, looked' id, same, owned-append id new w),
        ),
      )

  Since-block :
      (db : MemoryDatabase t) (waiting : List UserAccount) (reserved : List ℕ) (n : ℕ)
      → Since db
      → Fresh waiting db.user_id_to_idx_map (length db.database)
      → k < n
      → SinceAfter (
          commit_new_accounts t fuel min_db_round
            (record db { uncommitted_db = waiting; reserved_account_ids = reserved })
            n)
  unfolding commit_new_accounts
  Since-block db waiting reserved n since fresh later =
      let db1 = record db { uncommitted_db = waiting; reserved_account_ids = reserved } in
      let (late, new, thunks, all_late, count, (e, once, looked)) = since in
      elim (Bool-cases (follows t min_db_round db.account_creation_thunks n)) [
        | inr gap ↦ rw gap tt
        | inl next ↦ rw next (
            SinceAfter-created db db1 waiting n (commit_accounts t fuel waiting db1) refl refl later
              since (commit_accounts-Added fuel waiting db1 once fresh))
      ]

  Since-Later : (db : MemoryDatabase t) → HasKeysOnce start.user_id_to_idx_map → Later db → Since db
  Since-Later _ once nothing = (
    [],
    [],
    sym (append-nil start.account_creation_thunks),
    tt,
    refl,
    (sym (append-nil start.database), once, λ id. refl),
  )
  Since-Later _ once (block db db' waiting reserved n before fresh later committed) =
      subst SinceAfter committed
        (Since-block db waiting reserved n (Since-Later db once before) fresh later)

  -- Where the thunks of `start` are of blocks up to `k` and an id stands once in its map, a
  -- rollback to block `k` after any number of later blocks that created accounts gives back the
  -- accounts of `start`, their thunks and the same account for every id, and no account waits and
  -- no id is reserved.
  pub rollback_new_accounts-Later :
      (db : MemoryDatabase t)
      → HasKeysOnce start.user_id_to_idx_map
      → All (λ x. x.current_block_number ≤ k) start.account_creation_thunks
      → Later db
      → let db' = rollback_new_accounts t db k in
        (db'.database ≡ start.database)
        × (db'.account_creation_thunks ≡ start.account_creation_thunks)
        × ((id : ℕ) → lookup id db'.user_id_to_idx_map ≡ lookup id start.user_id_to_idx_map)
        × (db'.uncommitted_db ≡ [])
        × (db'.reserved_account_ids ≡ [])
  unfolding rollback_new_accounts clear_internal_data_structures
  rollback_new_accounts-Later db once early later =
      let (late, new, thunks, all_late, count, (e, once', looked)) = Since-Later db once later in
      let old = start.account_creation_thunks in
      let size = ap length e ∙ length-append start.database new in
      let (kept, database, users) = rollback_thunks-kept k old late db early in
      let (dropped, left, found) =
        rollback_thunks-late k late db all_late (omega (arith, size)) once' in
      let m : length db.database - total late ≡ length start.database = omega (arith, size) in
      let same = ap (λ xs. rollback_thunks t k xs db) thunks in
      (
        ap (λ (d : MemoryDatabase t). d.database) same
            ∙ database
            ∙ left
            ∙ ap (λ i. take i db.database) m
            ∙ ap (take (length start.database)) e
            ∙ take-append start.database new,
        ap (λ (d : MemoryDatabase t). d.account_creation_thunks) same
            ∙ kept
            ∙ ap (λ xs. old ++ xs) dropped
            ∙ append-nil old,
        λ id.
            let gone : drop (length db.database - total late) db.database ≡ new =
              ap (λ i. drop i db.database) m
              ∙ ap (drop (length start.database)) e
              ∙ drop-append start.database new in
            ap (λ (d : MemoryDatabase t). lookup id d.user_id_to_idx_map) same
            ∙ ap (lookup id) users
            ∙ found id
            ∙ ap (λ xs. if owned id xs then none else lookup id db.user_id_to_idx_map) gone
            ∙ sym (looked id),
        refl,
        refl,
      )
