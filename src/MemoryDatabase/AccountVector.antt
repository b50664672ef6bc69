-- ===== src/MemoryDatabase/AccountVector.antt =====
-- The accounts of the database (memory_database/account_vector.h and .cc): a vector of rows of
-- fixed size, so that a pointer to an account stays valid while the vector grows. A row beyond the
-- vector, or an entry beyond a row, is undefined behaviour in the source and `none` here, like a
-- thrown error. The rows are behind pointers that nothing else holds.
pub mod Rows
pub mod Append
pub mod Erase
mod Tests
pub mod Resize
use speedex.Prelude.{
  ℕ, zero, suc, ◌+◌, ◌-◌, ◌/◌, ◌%◌, ◌^◌, min, Bool, true, false, if◌then◌else◌, ltb, leb, ◌==◌,
  ◌&&◌, not, Option, none, some, List, [], ◌∷◌, ◌++◌, length, get_elem?, set,
}
use speedex.MemoryDatabase.UserAccount.{UserAccount, default_account}

abbrev pub accounts_per_row : ℕ
accounts_per_row = 2 ^ 16

-- `row` is the array of `accounts_per_row` entries, as a function of the index.
pub record AccountVectorRow : Type 0 where
  pub num_active_entries : ℕ
  pub row : ℕ → UserAccount

abbrev pub new_row : AccountVectorRow
new_row = record { num_active_entries = 0; row = λ i. default_account }

abbrev pub is_full : AccountVectorRow → Bool
is_full r = r.num_active_entries == accounts_per_row

unfoldable pub append : AccountVectorRow → UserAccount → Option AccountVectorRow
append r acct =
    if ltb r.num_active_entries accounts_per_row
    then some (record {
      num_active_entries = r.num_active_entries + 1;
      row = λ i. if i == r.num_active_entries then acct else r.row i;
    })
    else none

-- The new row, and how many entries were erased.
unfoldable pub erase_row : AccountVectorRow → ℕ → AccountVectorRow × ℕ
erase_row r num_to_erase =
    let num_eraseable = min num_to_erase r.num_active_entries in
    (record r { num_active_entries = r.num_active_entries - num_eraseable }, num_eraseable)

-- The new row, and how many entries were added. Their contents are what the array holds.
unfoldable pub resize_row : AccountVectorRow → ℕ → Option (AccountVectorRow × ℕ)
resize_row r sz =
    if ltb accounts_per_row r.num_active_entries
    then none
    else let num_addable = min sz (accounts_per_row - r.num_active_entries) in
      some (record r { num_active_entries = r.num_active_entries + num_addable }, num_addable)

pub record AccountVector : Type 0 where
  pub accounts : List AccountVectorRow
  pub next_open_idx : ℕ
  pub size : ℕ

abbrev pub new_vector : AccountVector
new_vector = record { accounts = new_row ∷ []; next_open_idx = 0; size = 0 }

-- With the row `next_open_idx` changed to `r`: the next row is opened if `r` is full.
unfoldable pub put_row : AccountVector → AccountVectorRow → AccountVector
put_row v r =
    let accounts = set v.accounts v.next_open_idx r in
    let next = v.next_open_idx + 1 in
    if is_full r
    then record v {
      accounts = if length accounts == next then accounts ++ (new_row ∷ []) else accounts;
      next_open_idx = next;
    }
    else record v { accounts = accounts }

unfoldable pub emplace_back : AccountVector → UserAccount → Option AccountVector
unfolding append put_row
emplace_back v acct = elim (get_elem? v.accounts v.next_open_idx) [
  | none ↦ none
  | some r ↦ elim (append r acct) [
    | none ↦ none
    | some r' ↦ some (record (put_row v r') { size = v.size + 1 })
  ]
]

-- The loop of `erase` from row `next` down: the rows, the row it ends at, and nothing left to
-- erase. Below row 0 the index wraps around, out of the vector.
unfoldable pub erase_rows : List AccountVectorRow → ℕ → ℕ → Option (List AccountVectorRow × ℕ)
unfolding erase_row
erase_rows accounts zero num_to_erase =
    if num_to_erase == 0 then some (accounts, 0) else elim (get_elem? accounts 0) [
      | none ↦ none
      | some r ↦
          let (r', erased) = erase_row r num_to_erase in
          if num_to_erase - erased == 0 then some (set accounts 0 r', 0) else none
    ]
erase_rows accounts (suc next) num_to_erase =
    if num_to_erase == 0 then some (accounts, suc next) else elim (get_elem? accounts (suc next)) [
      | none ↦ none
      | some r ↦
          let (r', erased) = erase_row r num_to_erase in
          let rest = erase_rows (set accounts (suc next) r') next (num_to_erase - erased) in
          if num_to_erase - erased == 0 then some (set accounts (suc next) r', suc next) else rest
    ]

unfoldable pub erase : AccountVector → ℕ → Option AccountVector
unfolding erase_rows
erase v num_to_erase = elim (erase_rows v.accounts v.next_open_idx num_to_erase) [
  | none ↦ none
  | some (accounts, next) ↦ some (record {
    accounts = accounts;
    next_open_idx = next;
    size = (v.size + 2 ^ 64 - num_to_erase % 2 ^ 64) % 2 ^ 64;
  })
]

-- The loop of `resize`, and the checks after it. `none` is a thrown error, or fuel that ran out.
unfoldable pub resize_rows : ℕ → AccountVector → ℕ → Option AccountVector
unfolding resize_row put_row
resize_rows zero v num_to_add = if num_to_add == 0 then some v else none
resize_rows (suc fuel) v num_to_add =
    if num_to_add == 0 then some v else elim (get_elem? v.accounts v.next_open_idx) [
      | none ↦ none
      | some r ↦ elim (resize_row r num_to_add) [
        | none ↦ none
        | some (r', num_added) ↦
            let v' = record (put_row v r') { size = v.size + num_added } in
            let rest = resize_rows fuel v' (num_to_add - num_added) in
            if not (is_full r') && not (num_to_add - num_added == 0) then none else rest
      ]
    ]

unfoldable pub resize : ℕ → AccountVector → ℕ → Option AccountVector
unfolding resize_rows
resize fuel v sz = if leb sz v.size then some v else elim (resize_rows fuel v (sz - v.size)) [
  | none ↦ none
  | some v' ↦ if v'.size == sz then some v' else none
]

-- `idx >> 16` and `idx & 0xFFFF`.
unfoldable pub get : AccountVector → ℕ → Option UserAccount
get v idx = elim (get_elem? v.accounts (idx / accounts_per_row)) [
  | none ↦ none
  | some r ↦ some (r.row (idx % accounts_per_row))
]
