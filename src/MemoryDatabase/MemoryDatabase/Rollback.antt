-- ===== src/MemoryDatabase/MemoryDatabase/Rollback.antt =====
-- Rolling back the accounts that later blocks created.
use speedex.Prelude.{
  drop, take, ℕ, zero, suc, ◌+◌, ◌-◌, ◌≤◌, ◌<◌, ◌≡◌, refl, sym, ap, ◌∙◌, Bool, true, false,
  if◌then◌else◌, ltb, ◌==◌, ◌||◌, none, List, [], ◌∷◌, ◌++◌, length, All, arith,
}
use speedex.Prelude.Dict.{Dict, lookup, erase, HasKeysOnce, lookup-erase}
use speedex.MemoryDatabase.UserAccount.{UserAccount}
use speedex.MemoryDatabase.MemoryDatabase.{
  AccountCreationThunk, CommitmentTrie, MemoryDatabase, forget_accounts, rollback_thunks,
}

-- Whether an account of the list has the owner.
abbrev pub owned : ℕ → List UserAccount → Bool
owned id [] = false
owned id (a ∷ accs) = (a.owner == id) || owned id accs

pub owned-append :
    (id : ℕ) (xs ys : List UserAccount) → owned id (xs ++ ys) ≡ (owned id xs || owned id ys)
owned-append id [] ys = refl
owned-append id (x ∷ xs) ys = ground (arith, owned-append id xs ys)

length-take : (n : ℕ) (xs : List UserAccount) → n ≤ length xs → length (take n xs) ≡ n
length-take zero xs h = refl
length-take (suc n) [] h = absurd (omega arith)
length-take (suc n) (x ∷ xs) h = ap suc (length-take n xs (omega arith))

take-take : (m n : ℕ) (xs : List UserAccount) → m ≤ n → take m (take n xs) ≡ take m xs
take-take zero n xs h = refl
take-take (suc m) zero xs h = absurd (omega arith)
take-take (suc m) (suc n) [] h = refl
take-take (suc m) (suc n) (x ∷ xs) h = ap (λ ys. x ∷ ys) (take-take m n xs (omega arith))

drop-take : (m n : ℕ) (xs : List UserAccount) → m ≤ n → drop m xs ≡ drop m (take n xs) ++ drop n xs
drop-take zero zero xs h = refl
drop-take zero (suc n) [] h = refl
drop-take zero (suc n) (x ∷ xs) h = ap (λ ys. x ∷ ys) (drop-take zero n xs (omega arith))
drop-take (suc m) zero xs h = absurd (omega arith)
drop-take (suc m) (suc n) [] h = refl
drop-take (suc m) (suc n) (x ∷ xs) h = drop-take m n xs (omega arith)

pub take-append : (xs ys : List UserAccount) → take (length xs) (xs ++ ys) ≡ xs
take-append [] ys = refl
take-append (x ∷ xs) ys = ap (λ zs. x ∷ zs) (take-append xs ys)

pub drop-append : (xs ys : List UserAccount) → drop (length xs) (xs ++ ys) ≡ ys
drop-append [] ys = refl
drop-append (x ∷ xs) ys = drop-append xs ys

erase-HasKeysOnce : (k : ℕ) (d : Dict ℕ) → HasKeysOnce d → HasKeysOnce (erase k d)
erase-HasKeysOnce k [] h = tt
erase-HasKeysOnce k ((i, v) ∷ d) h =
    ground (arith, erase-HasKeysOnce k d h.1, lookup-erase k i d h.1)

take-all : (xs : List UserAccount) → take (length xs) xs ≡ xs
take-all [] = refl
take-all (x ∷ xs) = ap (λ ys. x ∷ ys) (take-all xs)

drop-all : (xs : List UserAccount) → drop (length xs) xs ≡ []
drop-all [] = refl
drop-all (x ∷ xs) = drop-all xs

abbrev pub total : List AccountCreationThunk → ℕ
total [] = 0
total (x ∷ xs) = x.num_accounts_created + total xs

module _ {t : CommitmentTrie} where
  -- What the inner loop leaves: the map without the owners, and the rest but the trie.
  forget_accounts_lem :
      (accs : List UserAccount) (db : MemoryDatabase t)
      → HasKeysOnce db.user_id_to_idx_map
      → let db' = forget_accounts t accs db in
        HasKeysOnce db'.user_id_to_idx_map
        × ((id : ℕ)
            → lookup id db'.user_id_to_idx_map
              ≡ (if owned id accs then none else lookup id db.user_id_to_idx_map))
  unfolding forget_accounts
  forget_accounts_lem [] db once = (once, λ id. refl)
  forget_accounts_lem (a ∷ accs) db once =
      let db1 = record db {
        user_id_to_idx_map = erase a.owner db.user_id_to_idx_map;
        commitment_trie = t.perform_deletion a.owner db.commitment_trie;
      } in
      let (once', found) =
        forget_accounts_lem accs db1 (erase-HasKeysOnce a.owner db.user_id_to_idx_map once) in
      (once', λ id. ground (arith, found id, lookup-erase a.owner id db.user_id_to_idx_map once))

  -- What the outer loop leaves when every thunk is of a later block than `k`.
  pub rollback_thunks-late :
      (k : ℕ) (late : List AccountCreationThunk) (db : MemoryDatabase t)
      → All (λ x. k < x.current_block_number) late
      → total late ≤ length db.database
      → HasKeysOnce db.user_id_to_idx_map
      → let db' = rollback_thunks t k late db in
        let m = length db.database - total late in
        (db'.account_creation_thunks ≡ [])
        × (db'.database ≡ take m db.database)
        × ((id : ℕ)
            → lookup id db'.user_id_to_idx_map
              ≡ (if owned id (drop m db.database) then none else lookup id db.user_id_to_idx_map))
  unfolding rollback_thunks
  rollback_thunks-late k [] db late fits once = (
    refl,
    sym (ap (λ n. take n db.database) zero_less ∙ take-all db.database),
    λ id. rw (ap (λ n. drop n db.database) zero_less ∙ drop-all db.database) refl,
  )
    where
      zero_less : length db.database - 0 ≡ length db.database
      zero_less = omega arith
  rollback_thunks-late k (thunk ∷ thunks) db late fits once =
      let first = length db.database - thunk.num_accounts_created in
      let m = length db.database - total (thunk ∷ thunks) in
      let gone = drop first db.database in
      let undone = record (forget_accounts t gone db) { database = take first db.database } in
      let (once', found) = forget_accounts_lem gone db once in
      let kept : length (take first db.database) ≡ first =
        length-take first db.database (omega arith) in
      let (empty, left, looked) =
        rollback_thunks-late k thunks undone late.1 (omega (arith, kept)) once' in
      let start : length (take first db.database) - total thunks ≡ m = omega (arith, kept) in
      let later : ltb k thunk.current_block_number ≡ true = ground (arith, late.0) in
      rw later (
        empty,
        left
            ∙ ap (λ n. take n (take first db.database)) start
            ∙ take-take m first db.database (omega arith),
        λ id.
            let split : owned id (drop m db.database)
                ≡ (owned id (drop m (take first db.database)) || owned id gone) =
              ap (owned id) (drop-take m first db.database (omega arith))
              ∙ owned-append id (drop m (take first db.database)) gone in
            let moved = ap (λ n. owned id (drop n (take first db.database))) start in
            ground (arith, looked id, found id, split, moved),
      )

  -- The thunks of blocks up to `k` are kept, and nothing is done for them.
  pub rollback_thunks-kept :
      (k : ℕ) (old late : List AccountCreationThunk) (db : MemoryDatabase t)
      → All (λ x. x.current_block_number ≤ k) old
      → let db' = rollback_thunks t k (old ++ late) db in
        let rest = rollback_thunks t k late db in
        (db'.account_creation_thunks ≡ old ++ rest.account_creation_thunks)
        × (db'.database ≡ rest.database)
        × (db'.user_id_to_idx_map ≡ rest.user_id_to_idx_map)
  unfolding rollback_thunks
  rollback_thunks-kept k [] late db h = (refl, refl, refl)
  rollback_thunks-kept k (thunk ∷ old) late db h =
      let earlier : ltb k thunk.current_block_number ≡ false = ground (arith, h.0) in
      let (thunks, database, users) = rollback_thunks-kept k old late db h.1 in
      rw earlier (ap (λ xs. thunk ∷ xs) thunks, database, users)
