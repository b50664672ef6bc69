-- ===== src/MemoryDatabase/AccountVector/Rows.antt =====
-- The rows of the vector: which are full, and what a change of the open row does to them.
use speedex.Prelude.{
  ℕ, zero, suc, ◌+◌, ◌-◌, ◌≤◌, ◌<◌, ◌≡◌, ◌≢◌, refl, sym, ap, ◌∙◌, if◌then◌else◌, ltb, ◌==◌, ==_iff,
  some, List, [], ◌∷◌, ◌++◌, length, get_elem?, get_or, set, length-set, length-append,
  get_or-set_self, get_or-set_ne, get_or-append_left, get_or-append_right, get_or-beyond,
  Bool-cases, inl, inr, arith,
}
use speedex.MemoryDatabase.AccountVector.{
  accounts_per_row, AccountVectorRow, new_row, is_full, AccountVector, put_row,
}

get_elem?-get_or :
    {A : Type 0} (xs : List A) (i : ℕ) (d : A)
    → i < length xs
    → get_elem? xs i ≡ some (get_or xs i d)
get_elem?-get_or [] i d h = absurd (omega arith)
get_elem?-get_or (x ∷ xs) zero d h = refl
get_elem?-get_or (x ∷ xs) (suc i) d h = get_elem?-get_or xs i d (omega arith)

-- Row `i`; beyond the vector, a new one.
abbrev pub row_at : List AccountVectorRow → ℕ → AccountVectorRow
row_at rows i = get_or rows i new_row

abbrev pub active : List AccountVectorRow → ℕ → ℕ
active rows i = (row_at rows i).num_active_entries

pub open_row :
    (rows : List AccountVectorRow) (i : ℕ)
    → i < length rows
    → get_elem? rows i ≡ some (row_at rows i)
open_row rows i h = get_elem?-get_or rows i new_row h

pub row_at-set :
    (rows : List AccountVectorRow) (i j : ℕ) (r : AccountVectorRow)
    → i < length rows
    → row_at (set rows i r) j ≡ (if j == i then r else row_at rows j)
row_at-set rows i j r h = elim (Bool-cases (j == i)) [
  | inl same ↦
      let e : j ≡ i = (==_iff j i).0 same in
      rw same (ap (λ k. get_or (set rows i r) k new_row) e ∙ get_or-set_self rows i r new_row h)
  | inr other ↦ rw other (get_or-set_ne rows i j r new_row (ground arith))
]

row_at-append_new :
    (rows : List AccountVectorRow) (j : ℕ) → row_at (rows ++ (new_row ∷ [])) j ≡ row_at rows j
row_at-append_new rows j = elim (Bool-cases (ltb j (length rows))) [
  | inl inside ↦ get_or-append_left rows _ j new_row (ground arith)
  | inr beyond ↦
      let past : length rows ≤ j = ground arith in
      get_or-append_right rows _ j new_row past
      ∙ one_new (j - length rows)
      ∙ sym (get_or-beyond rows j new_row past)
]
  where
    one_new : (k : ℕ) → get_or (new_row ∷ []) k new_row ≡ new_row
    one_new zero = refl
    one_new (suc k) = refl

-- The rows before the open one are full, it is not, and those behind it are empty.
abbrev pub WellFormed : List AccountVectorRow → ℕ → Type 0
WellFormed rows next =
    (next < length rows)
    × (active rows next < accounts_per_row)
    × ((i : ℕ) → i < next → active rows i ≡ accounts_per_row)
    × ((i : ℕ) → next < i → active rows i ≡ 0)

module _ (v : AccountVector) (r : AccountVectorRow) (h : v.next_open_idx < length v.accounts) where
  -- Every row but the open one stays as it is.
  pub row_at-put_row :
      (j : ℕ)
      → row_at (put_row v r).accounts j ≡ (if j == v.next_open_idx then r else row_at v.accounts j)
  unfolding put_row
  row_at-put_row j =
      let rows = set v.accounts v.next_open_idx r in
      let placed = row_at-set v.accounts v.next_open_idx j r h in
      elim (Bool-cases (is_full r)) [
        | inl full ↦ rw full (elim (Bool-cases (length rows == v.next_open_idx + 1)) [
          | inl last ↦ rw last (row_at-append_new rows j ∙ placed)
          | inr inner ↦ rw inner placed
        ])
        | inr room ↦ rw room placed
      ]

  pub active-put_row :
      (j : ℕ)
      → active (put_row v r).accounts j
        ≡ (if j == v.next_open_idx then r.num_active_entries else active v.accounts j)
  active-put_row j = elim (Bool-cases (j == v.next_open_idx)) [
    | inl here ↦ ap (λ x. x.num_active_entries) (row_at-put_row j) ∙ rw here refl
    | inr other ↦ ap (λ x. x.num_active_entries) (row_at-put_row j) ∙ rw other refl
  ]

  pub next-put_row :
      (put_row v r).next_open_idx ≡ (if is_full r then v.next_open_idx + 1 else v.next_open_idx)
  unfolding put_row
  next-put_row = ground arith

  next_inside : (put_row v r).next_open_idx < length (put_row v r).accounts
  unfolding put_row
  next_inside =
      let rows = set v.accounts v.next_open_idx r in
      let same = length-set v.accounts v.next_open_idx r in
      elim (Bool-cases (is_full r)) [
        | inl full ↦ rw full (elim (Bool-cases (length rows == v.next_open_idx + 1)) [
          | inl last ↦ rw last (omega (arith, length-append rows (new_row ∷ []), same, h))
          | inr inner ↦
              let apart : length rows ≢ v.next_open_idx + 1 = ground arith in
              rw inner (omega (arith, same, h, apart))
        ])
        | inr room ↦ rw room (omega (arith, same, h))
      ]

  pub put_row-WellFormed :
      WellFormed v.accounts v.next_open_idx
      → r.num_active_entries ≤ accounts_per_row
      → WellFormed (put_row v r).accounts (put_row v r).next_open_idx
  put_row-WellFormed (inside, room, before, behind) fits = (
    next_inside,
    ground (
      arith,
      next-put_row,
      active-put_row (put_row v r).next_open_idx,
      behind (v.next_open_idx + 1),
    ),
    λ i low. ground (arith, next-put_row, active-put_row i, before i, low),
    λ i high. ground (arith, next-put_row, active-put_row i, behind i, high),
  )
