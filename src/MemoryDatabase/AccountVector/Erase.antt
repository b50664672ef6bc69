-- ===== src/MemoryDatabase/AccountVector/Erase.antt =====
-- Erasing from the end of the vector.
use speedex.Prelude.{
  ℕ, zero, suc, ◌+◌, ◌-◌, ◌*◌, ◌/◌, ◌%◌, ◌^◌, ◌≤◌, ◌<◌, ◌≡◌, ◌≢◌, refl, sym, ap, ◌∙◌, true, min,
  if◌then◌else◌, ◌==◌, ==_iff, Option, none, some, List, [], ◌∷◌, ◌++◌, length, get_elem?, set,
  length-set, length-append, Bool-cases, inl, inr, arith,
}
use speedex.MemoryDatabase.UserAccount.{UserAccount}
use speedex.MemoryDatabase.AccountVector.{
  accounts_per_row, AccountVectorRow, AccountVector, erase_row, erase_rows, erase,
}
use speedex.MemoryDatabase.AccountVector.Rows.{row_at, active, open_row, row_at-set, WellFormed}
use speedex.MemoryDatabase.AccountVector.Append.{Holds, get-slot}

-- The rows as the loop finds them at row `next` with `n` accounts to erase: the row may be full if
-- something is taken from it.
abbrev Erasing : List AccountVectorRow → ℕ → ℕ → Type 0
Erasing rows next n =
    (next < length rows)
    × (active rows next ≤ accounts_per_row)
    × (n ≡ 0 → active rows next < accounts_per_row)
    × ((i : ℕ) → i < next → active rows i ≡ accounts_per_row)
    × ((i : ℕ) → next < i → active rows i ≡ 0)

-- What the loop has to leave: `n` accounts fewer, and every entry as it was.
abbrev Erased : List AccountVectorRow → ℕ → ℕ → Option (List AccountVectorRow × ℕ) → Type 0
Erased rows next n none = ⊥
Erased rows next n (some (rows', next')) =
    WellFormed rows' next'
    × (next' * accounts_per_row + active rows' next' + n
        ≡ next * accounts_per_row + active rows next)
    × (length rows' ≡ length rows)
    × ((i : ℕ) → (row_at rows' i).row ≡ (row_at rows i).row)

-- The open row with `n` entries fewer, as far as it goes.
abbrev shortened : List AccountVectorRow → ℕ → ℕ → AccountVectorRow
shortened rows next n = record (row_at rows next) {
  num_active_entries = active rows next - min n (active rows next);
}

active-shortened :
    (rows : List AccountVectorRow) (next n i : ℕ)
    → next < length rows
    → active (set rows next (shortened rows next n)) i
      ≡ (if i == next then active rows next - min n (active rows next) else active rows i)
active-shortened rows next n i h =
    let same =
      ap (λ (x : AccountVectorRow). x.num_active_entries)
        (row_at-set rows next i (shortened rows next n) h) in
    elim (Bool-cases (i == next)) [
      | inl here ↦ same ∙ rw here refl
      | inr other ↦ same ∙ rw other refl
    ]

row-shortened :
    (rows : List AccountVectorRow) (next n i : ℕ)
    → next < length rows
    → (row_at (set rows next (shortened rows next n)) i).row ≡ (row_at rows i).row
row-shortened rows next n i h =
    let same =
      ap (λ (x : AccountVectorRow). x.row) (row_at-set rows next i (shortened rows next n) h) in
    elim (Bool-cases (i == next)) [
      | inl here ↦ let key : i ≡ next = (==_iff i next).0 here in same ∙ rw (here, key) refl
      | inr other ↦ same ∙ rw other refl
    ]

-- The loop stops at a row that covers what is left to erase.
Erased-stop :
    (rows : List AccountVectorRow) (next n : ℕ)
    → Erasing rows next n
    → n ≢ 0
    → n ≤ active rows next
    → Erased rows next n (some (set rows next (shortened rows next n), next))
Erased-stop rows next n (inside, fits, room, before, behind) some_left covered =
    let same = length-set rows next (shortened rows next n) in
    let here = active-shortened rows next n next inside in
    (
      (
        omega (arith, same),
        ground (arith, here),
        λ i low. ground (arith, active-shortened rows next n i inside, before i low),
        λ i high. ground (arith, active-shortened rows next n i inside, behind i high),
      ),
      ground (arith, here),
      same,
      λ i. row-shortened rows next n i inside,
    )

-- The loop goes on to the row before, and `rest` is what it leaves from there.
Erased-continue :
    (rows : List AccountVectorRow) (next n : ℕ) (rest : Option (List AccountVectorRow × ℕ))
    → Erasing rows (suc next) n
    → active rows (suc next) < n
    → Erased
        (set rows (suc next) (shortened rows (suc next) n))
        next
        (n - active rows (suc next))
        rest
    → Erased rows (suc next) n rest
Erased-continue rows next n none erasing over rest = rest
Erased-continue rows next n (some (rows', next')) (inside, fits, room, before, behind) over
      (well, count, len, entries) =
    (
      well,
      ground
          (arith, active-shortened rows (suc next) n next inside, before next (omega arith), count),
      len ∙ length-set rows (suc next) (shortened rows (suc next) n),
      λ i. entries i ∙ row-shortened rows (suc next) n i inside,
    )

Erasing-before :
    (rows : List AccountVectorRow) (next n : ℕ)
    → Erasing rows (suc next) n
    → active rows (suc next) < n
    → Erasing (set rows (suc next) (shortened rows (suc next) n)) next (n - active rows (suc next))
Erasing-before rows next n (inside, fits, room, before, behind) over = (
  omega (arith, length-set rows (suc next) (shortened rows (suc next) n)),
  ground (arith, active-shortened rows (suc next) n next inside, before next (omega arith)),
  λ nothing. absurd (omega arith),
  λ i low. ground (arith, active-shortened rows (suc next) n i inside, before i (omega arith)),
  λ i high. ground (arith, active-shortened rows (suc next) n i inside, behind i),
)

Erased-nothing :
    (rows : List AccountVectorRow) (next n : ℕ)
    → n ≡ 0
    → Erasing rows next n
    → Erased rows next n (some (rows, next))
Erased-nothing rows next n none_left (inside, fits, room, before, behind) =
    ((inside, room none_left, before, behind), omega arith, refl, λ i. refl)

erase_rows-Erased :
    (rows : List AccountVectorRow) (next n : ℕ)
    → Erasing rows next n
    → n ≤ next * accounts_per_row + active rows next
    → Erased rows next n (erase_rows rows next n)
unfolding erase_rows erase_row
erase_rows-Erased rows zero n erasing enough = elim (Bool-cases (n == 0)) [
  | inl nothing ↦ rw nothing (Erased-nothing rows 0 n ((==_iff n 0).0 nothing) erasing)
  | inr some_left ↦
      let done : (n - min n (active rows 0) == 0) ≡ true = ground arith in
      rw (some_left, open_row rows 0 erasing.0, done)
        (Erased-stop rows 0 n erasing (ground arith) (omega arith))
]
erase_rows-Erased rows (suc next) n erasing enough = elim (Bool-cases (n == 0)) [
  | inl nothing ↦ rw nothing (Erased-nothing rows (suc next) n ((==_iff n 0).0 nothing) erasing)
  | inr some_left ↦
      rw (some_left, open_row rows (suc next) erasing.0)
        (elim (Bool-cases (n - min n (active rows (suc next)) == 0)) [
          | inl done ↦ rw done (Erased-stop rows (suc next) n erasing (ground arith) (ground arith))
          | inr more ↦
              let over : active rows (suc next) < n = ground arith in
              let taken : n - min n (active rows (suc next)) ≡ n - active rows (suc next) =
                omega arith in
              let rest =
                erase_rows-Erased (set rows (suc next) (shortened rows (suc next) n)) next
                  (n - active rows (suc next)) (Erasing-before rows next n erasing over)
                  (ground (
                    arith,
                    active-shortened rows (suc next) n next erasing.0,
                    erasing.3 next (omega arith),
                    over,
                  )) in
              rw (more, taken) (Erased-continue rows next n _ erasing over rest)
        ])
]

get_elem?-append_left :
    (ys zs : List UserAccount) (i : ℕ) → i < length ys → get_elem? (ys ++ zs) i ≡ get_elem? ys i
get_elem?-append_left [] zs i h = absurd (omega arith)
get_elem?-append_left (y ∷ ys) zs zero h = refl
get_elem?-append_left (y ∷ ys) zs (suc i) h = get_elem?-append_left ys zs i (omega arith)

-- With the rows that the loop leaves.
Holds-Erased :
    (v : AccountVector) (ys zs : List UserAccount) (r : Option (List AccountVectorRow × ℕ))
    → Holds v (ys ++ zs)
    → v.size < 2 ^ 64
    → Erased v.accounts v.next_open_idx (length zs) r
    → (v' : AccountVector) × (elim r [
      | none ↦ none
      | some (accounts, next) ↦ some (record {
        accounts = accounts;
        next_open_idx = next;
        size = (v.size + 2 ^ 64 - length zs % 2 ^ 64) % 2 ^ 64;
      })
    ]
        ≡ some v')
      × Holds v' ys
Holds-Erased v ys zs none holds fits erased = absurd erased
Holds-Erased v ys zs (some (accounts, next)) (well', size', count', at) fits
      (well, count, len, entries) =
    let v' : AccountVector = record {
      accounts = accounts;
      next_open_idx = next;
      size = (v.size + 2 ^ 64 - length zs % 2 ^ 64) % 2 ^ 64;
    } in
    let both = length-append ys zs in
    let shorter : v'.size ≡ length ys = omega (arith, both) in
    (
      v',
      refl,
      (
        well,
        omega arith,
        sym shorter,
        λ i h.
            let row : (row_at accounts (i / accounts_per_row)).row
                ≡ (row_at v.accounts (i / accounts_per_row)).row =
              entries (i / accounts_per_row) in
            let inside : i / accounts_per_row < length v.accounts =
              omega (arith, well'.0, well'.1, both) in
            get-slot v' i (omega arith)
            ∙ ap (λ f. some (f (i % accounts_per_row))) row
            ∙ sym (get-slot v i inside)
            ∙ at i (omega arith)
            ∙ get_elem?-append_left ys zs i h,
      ),
    )

-- A vector of fewer than 2^64 accounts that holds two lists one after the other holds the first
-- one after as many accounts are erased as the second one has, however many rows they stand in.
pub erase-Holds :
    (v : AccountVector) (ys zs : List UserAccount)
    → Holds v (ys ++ zs)
    → v.size < 2 ^ 64
    → (v' : AccountVector) × (erase v (length zs) ≡ some v') × Holds v' ys
unfolding erase
erase-Holds v ys zs holds fits =
    let (inside, room, before, behind) = holds.0 in
    Holds-Erased v ys zs _ holds fits (
      erase_rows-Erased v.accounts v.next_open_idx (length zs)
        (inside, omega (arith, room), λ nothing. room, before, behind)
        (omega (arith, holds.1, holds.2, length-append ys zs)))
