-- ===== src/MemoryDatabase/AccountVector/Append.antt =====
-- The vector as a list of accounts, and what appending does to it.
use speedex.Prelude.{
  ℕ, zero, suc, ◌+◌, ◌*◌, ◌/◌, ◌%◌, ◌≤◌, ◌<◌, ◌≡◌, refl, sym, ap, ◌∙◌, true, false, if◌then◌else◌,
  ltb, ◌==◌, ==_iff, some, List, [], ◌∷◌, ◌++◌, length, get_elem?, length-append, Bool-cases, inl,
  inr, arith,
}
use speedex.MemoryDatabase.UserAccount.{UserAccount}
use speedex.MemoryDatabase.AccountVector.{
  accounts_per_row, AccountVectorRow, AccountVector, append, put_row, emplace_back, get,
}
use speedex.MemoryDatabase.AccountVector.Rows.{
  row_at, active, open_row, row_at-put_row, WellFormed, put_row-WellFormed, active-put_row,
  next-put_row,
}

abbrev pub slot : List AccountVectorRow → ℕ → UserAccount
slot rows idx = (row_at rows (idx / accounts_per_row)).row (idx % accounts_per_row)

-- The vector holds the accounts of the list, each at its index.
abbrev pub Holds : AccountVector → List UserAccount → Type 0
Holds v xs =
    WellFormed v.accounts v.next_open_idx
    × (v.size ≡ v.next_open_idx * accounts_per_row + active v.accounts v.next_open_idx)
    × (length xs ≡ v.size)
    × ((i : ℕ) → i < length xs → get v i ≡ get_elem? xs i)

pub get-slot :
    (v : AccountVector) (i : ℕ)
    → i / accounts_per_row < length v.accounts
    → get v i ≡ some (slot v.accounts i)
unfolding get
get-slot v i h = rw (open_row v.accounts (i / accounts_per_row) h, get) refl

get_elem?-append_one :
    (xs : List UserAccount) (a : UserAccount) (i : ℕ)
    → i ≤ length xs
    → get_elem? (xs ++ (a ∷ [])) i ≡ (if i == length xs then some a else get_elem? xs i)
get_elem?-append_one [] a zero h = refl
get_elem?-append_one [] a (suc i) h = absurd (omega arith)
get_elem?-append_one (x ∷ xs) a zero h = ground arith
get_elem?-append_one (x ∷ xs) a (suc i) h =
    ground (arith, get_elem?-append_one xs a i (omega arith))

-- The open row with an account appended.
abbrev appended : AccountVectorRow → UserAccount → AccountVectorRow
appended r acct = record {
  num_active_entries = r.num_active_entries + 1;
  row = λ i. if i == r.num_active_entries then acct else r.row i;
}

abbrev with_one : AccountVector → UserAccount → AccountVector
with_one v a = record (put_row v (appended (row_at v.accounts v.next_open_idx) a)) {
  size = v.size + 1;
}

module _ (v : AccountVector) (xs : List UserAccount) (a : UserAccount) (holds : Holds v xs) where
  emplace_back-with_one : emplace_back v a ≡ some (with_one v a)
  unfolding emplace_back append
  emplace_back-with_one =
      let ((inside, room, before, behind), size, count, at) = holds in
      let open_room : ltb (active v.accounts v.next_open_idx) accounts_per_row ≡ true =
        ground arith in
      rw (open_row v.accounts v.next_open_idx inside, open_room, emplace_back, append) refl

  with_one-WellFormed : WellFormed (with_one v a).accounts (with_one v a).next_open_idx
  with_one-WellFormed =
      let ((inside, room, before, behind), size, count, at) = holds in
      put_row-WellFormed v (appended (row_at v.accounts v.next_open_idx) a) inside holds.0
        (omega (arith, room))

  with_one-size :
      (with_one v a).size
      ≡ (with_one v a).next_open_idx * accounts_per_row
        + active (with_one v a).accounts (with_one v a).next_open_idx
  with_one-size =
      let ((inside, room, before, behind), size, count, at) = holds in
      let r = appended (row_at v.accounts v.next_open_idx) a in
      ground (
        arith,
        next-put_row v r inside,
        active-put_row v r inside (put_row v r).next_open_idx,
        behind (v.next_open_idx + 1),
        size,
      )

  slot-with_one :
      (i : ℕ)
      → i ≤ v.size
      → slot (with_one v a).accounts i ≡ (if i == v.size then a else slot v.accounts i)
  slot-with_one i low =
      let ((inside, room, before, behind), size, count, at) = holds in
      let r = row_at v.accounts v.next_open_idx in
      let put =
        ap (λ (x : AccountVectorRow). x.row (i % accounts_per_row))
          (row_at-put_row v (appended r a) inside (i / accounts_per_row)) in
      elim (Bool-cases (i / accounts_per_row == v.next_open_idx)) [
        | inl here ↦
            let row : i / accounts_per_row ≡ v.next_open_idx = (==_iff _ _).0 here in
            elim (Bool-cases (i == v.size)) [
              | inl last ↦
                  let there : (i % accounts_per_row == r.num_active_entries) ≡ true =
                    ground (arith, size) in
                  put ∙ rw (here, last, there) refl
              | inr earlier ↦
                  let there : (i % accounts_per_row == r.num_active_entries) ≡ false =
                    ground (arith, size, row) in
                  put
                  ∙ rw (here, earlier, there)
                      (ap (λ k. (row_at v.accounts k).row (i % accounts_per_row)) (sym row))
            ]
        | inr other ↦
            let earlier : (i == v.size) ≡ false = ground (arith, size) in
            put ∙ rw (other, earlier) refl
      ]

  get-with_one :
      (i : ℕ) → i < length (xs ++ (a ∷ [])) → get (with_one v a) i ≡ get_elem? (xs ++ (a ∷ [])) i
  get-with_one i h =
      let ((inside, room, before, behind), size, count, at) = holds in
      let low : i ≤ v.size = omega (arith, length-append xs (a ∷ [])) in
      let within : i / accounts_per_row ≤ v.next_open_idx = omega arith in
      let reach : v.next_open_idx ≤ (with_one v a).next_open_idx =
        ground (arith, next-put_row v (appended (row_at v.accounts v.next_open_idx) a) inside) in
      let read = get-slot (with_one v a) i (omega (arith, with_one-WellFormed.0)) in
      let listed = get_elem?-append_one xs a i (omega arith) in
      elim (Bool-cases (i == v.size)) [
        | inl last ↦
            let last' : (i == length xs) ≡ true = ground arith in
            let new : slot (with_one v a).accounts i ≡ a = slot-with_one i low ∙ rw last refl in
            let end : get_elem? (xs ++ (a ∷ [])) i ≡ some a = listed ∙ rw last' refl in
            read ∙ ap some new ∙ sym end
        | inr earlier ↦
            let earlier' : (i == length xs) ≡ false = ground arith in
            let old : slot (with_one v a).accounts i ≡ slot v.accounts i =
              slot-with_one i low ∙ rw earlier refl in
            let same : get_elem? (xs ++ (a ∷ [])) i ≡ get_elem? xs i = listed ∙ rw earlier' refl in
            read ∙ ap some old ∙ sym (get-slot v i (omega arith)) ∙ at i (ground arith) ∙ sym same
      ]

  -- A vector that holds a list of accounts, each at its index, has room for one more, and holds
  -- the list with it at the end after `emplace_back`, also where a row is filled and another one
  -- opened.
  pub emplace_back-Holds :
      (v' : AccountVector) × (emplace_back v a ≡ some v') × Holds v' (xs ++ (a ∷ []))
  emplace_back-Holds = (
    with_one v a,
    emplace_back-with_one,
    (
      with_one-WellFormed,
      with_one-size,
      omega (arith, holds.2, length-append xs (a ∷ [])),
      get-with_one,
    ),
  )
