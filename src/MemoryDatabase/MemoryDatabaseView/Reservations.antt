-- ===== src/MemoryDatabase/MemoryDatabaseView/Reservations.antt =====
-- The ids that views reserve for new accounts.
use speedex.Prelude.{
  ℕ, ◌≡◌, refl, sym, ap, ◌∙◌, Bool, false, if◌then◌else◌, ◌==◌, ◌||◌, ◌&&◌, List, [], ◌∷◌,
  Bool-cases, inl, inr, arith,
}
use speedex.Prelude.Dict.{Dict, contains}
use speedex.MemoryDatabase.UserAccount.{UserAccount}
use speedex.MemoryDatabase.MemoryDatabase.{
  CommitmentTrie, MemoryDatabase, member, remove_id, reserve_account_creation,
  release_account_creation,
}
use speedex.MemoryDatabase.MemoryDatabaseView.{
  AccountCreationView, new_creation_view, create_new_account, release_creations,
}

member-remove_id :
    (id k : ℕ) (xs : List ℕ)
    → member id (remove_id k xs) ≡ (if k == id then false else member id xs)
member-remove_id id k [] = ground arith
member-remove_id id k (x ∷ xs) = ground (arith, member-remove_id id k xs)

-- Whether the id is one of a created account.
abbrev pub created_id : ℕ → Dict UserAccount → Bool
created_id id [] = false
created_id id ((k, a) ∷ accs) = (k == id) || created_id id accs

module _ (t : CommitmentTrie) where
  -- Calls of `create_new_account`, with ids and keys.
  abbrev pub create_all : Dict ℕ → AccountCreationView t → AccountCreationView t
  create_all [] v = v
  create_all ((id, pk) ∷ calls) v = create_all calls (create_new_account t v id pk).0

  released :
      (accs : Dict UserAccount) (db : MemoryDatabase t) (id : ℕ)
      → member id (release_creations t accs db).reserved_account_ids
        ≡ (if created_id id accs then false else member id db.reserved_account_ids)
  unfolding release_creations release_account_creation
  released [] db id = refl
  released ((k, a) ∷ accs) db id = ground (
    arith,
    released accs (release_account_creation t db k) id,
    member-remove_id id k db.reserved_account_ids,
  )

  -- The ids that are reserved are those from before the view and those of its new accounts, which
  -- were not reserved before, nor in the database.
  abbrev Reserved : MemoryDatabase t → AccountCreationView t → Type 0
  Reserved db v =
      (id : ℕ)
      → (member id v.main_db.reserved_account_ids
          ≡ (member id db.reserved_account_ids || created_id id v.new_accounts))
        × ((member id db.reserved_account_ids && created_id id v.new_accounts) ≡ false)
        × (v.main_db.user_id_to_idx_map ≡ db.user_id_to_idx_map)
        × ((contains id db.user_id_to_idx_map && created_id id v.new_accounts) ≡ false)

  Reserved-create :
      (db : MemoryDatabase t) (v : AccountCreationView t) (account pk : ℕ)
      → Reserved db v
      → Reserved db (create_new_account t v account pk).0
  unfolding create_new_account reserve_account_creation
  Reserved-create db v account pk h = λ id.
      elim (Bool-cases (contains account v.main_db.user_id_to_idx_map)) [
        | inl exists ↦ rw exists (h id)
        | inr missing ↦
            rw missing (elim (Bool-cases (member account v.main_db.reserved_account_ids)) [
              | inl taken ↦ rw taken (h id)
              | inr free ↦ rw free (elim (Bool-cases (account == id)) [
                | inr other ↦ rw other (h id)
                | inl here ↦
                    let key : account ≡ id = ground arith in
                    let (both, apart, same, absent) = h id in
                    let free' : member id v.main_db.reserved_account_ids ≡ false =
                      ap (λ k. member k v.main_db.reserved_account_ids) (sym key) ∙ free in
                    let unheld : (member id db.reserved_account_ids || created_id id v.new_accounts)
                        ≡ false =
                      sym both ∙ free' in
                    let unknown : contains id db.user_id_to_idx_map ≡ false =
                      ap (contains id) (sym same)
                      ∙ ap (λ k. contains k v.main_db.user_id_to_idx_map) (sym key)
                      ∙ missing in
                    rw here (
                      ground (arith, unheld),
                      ground (arith, unheld),
                      same,
                      ground (arith, unknown),
                    )
              ])
            ])
      ]

  Reserved-create_all :
      (db : MemoryDatabase t) (calls : Dict ℕ) (v : AccountCreationView t)
      → Reserved db v
      → Reserved db (create_all calls v)
  Reserved-create_all db [] v h = h
  Reserved-create_all db ((id, pk) ∷ calls) v h =
      Reserved-create_all db calls (create_new_account t v id pk).0 (Reserved-create db v id pk h)

  -- Whatever accounts a transaction tries to create, each one that it does create had an id that
  -- neither an account nor another transaction had, and releasing them reserves the same ids as
  -- before the transaction.
  pub release_creations-create_all :
      (db : MemoryDatabase t) (calls : Dict ℕ) (id : ℕ)
      → let v = create_all calls (new_creation_view t db) in
        (member id (release_creations t v.new_accounts v.main_db).reserved_account_ids
          ≡ member id db.reserved_account_ids)
        × ((member id db.reserved_account_ids && created_id id v.new_accounts) ≡ false)
        × ((contains id db.user_id_to_idx_map && created_id id v.new_accounts) ≡ false)
  release_creations-create_all db calls id =
      let v = create_all calls (new_creation_view t db) in
      let (both, apart, same, absent) =
        Reserved-create_all db calls (new_creation_view t db)
          (λ k. (ground arith, ground arith, refl, ground arith)) id in
      (ground (arith, released v.new_accounts v.main_db id, both, apart), apart, absent)
