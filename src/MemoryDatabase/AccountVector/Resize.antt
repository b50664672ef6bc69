-- ===== src/MemoryDatabase/AccountVector/Resize.antt =====
-- Growing the vector to a size.
use speedex.Prelude.{
  ℕ, zero, suc, ◌+◌, ◌-◌, ◌*◌, ◌/◌, ◌%◌, ◌≤◌, ◌<◌, ◌≡◌, refl, sym, ap, ◌∙◌, true, false, min,
  if◌then◌else◌, ltb, leb, ◌==◌, ◌&&◌, not, ==_iff, Option, none, some, Bool-cases, inl, inr, arith,
}
use speedex.MemoryDatabase.AccountVector.{
  accounts_per_row, AccountVectorRow, AccountVector, is_full, put_row, resize_row, resize_rows,
  resize, get,
}
use speedex.MemoryDatabase.AccountVector.Append.{get-slot}
use speedex.MemoryDatabase.AccountVector.Rows.{
  row_at, active, open_row, WellFormed, put_row-WellFormed, row_at-put_row, active-put_row,
  next-put_row,
}

-- The rows are well formed, and the size is the number of active entries.
abbrev pub Counted : AccountVector → Type 0
Counted v =
    WellFormed v.accounts v.next_open_idx
    × (v.size ≡ v.next_open_idx * accounts_per_row + active v.accounts v.next_open_idx)

-- What the loop has to leave: `n` entries more, and the arrays as they were.
abbrev Resized : AccountVector → ℕ → Option AccountVector → Type 0
Resized v n none = ⊥
Resized v n (some v') =
    Counted v'
    × (v'.size ≡ v.size + n)
    × ((i : ℕ) → (row_at v'.accounts i).row ≡ (row_at v.accounts i).row)

abbrev added : AccountVector → ℕ → ℕ
added v n = min n (accounts_per_row - active v.accounts v.next_open_idx)

abbrev more : AccountVector → ℕ → AccountVectorRow
more v n = record (row_at v.accounts v.next_open_idx) {
  num_active_entries = active v.accounts v.next_open_idx + added v n;
}

abbrev grown : AccountVector → ℕ → AccountVector
grown v n = record (put_row v (more v n)) { size = v.size + added v n }

grown-Counted : (v : AccountVector) (n : ℕ) → Counted v → Counted (grown v n)
grown-Counted v n ((inside, room, before, behind), size) = (
  put_row-WellFormed v (more v n) inside (inside, room, before, behind) (omega arith),
  ground (
    arith,
    next-put_row v (more v n) inside,
    active-put_row v (more v n) inside (grown v n).next_open_idx,
    behind (v.next_open_idx + 1),
    size,
  ),
)

grown-rows :
    (v : AccountVector) (n i : ℕ)
    → Counted v
    → (row_at (grown v n).accounts i).row ≡ (row_at v.accounts i).row
grown-rows v n i ((inside, room, before, behind), size) =
    let put = ap (λ (x : AccountVectorRow). x.row) (row_at-put_row v (more v n) inside i) in
    elim (Bool-cases (i == v.next_open_idx)) [
      | inl here ↦
          let key : i ≡ v.next_open_idx = (==_iff i v.next_open_idx).0 here in
          put ∙ rw (here, key) refl
      | inr other ↦ put ∙ rw other refl
    ]

Resized-grown :
    (v : AccountVector) (n : ℕ) (r : Option AccountVector)
    → Counted v
    → Resized (grown v n) (n - added v n) r
    → Resized v n r
Resized-grown v n none counted rest = rest
Resized-grown v n (some v') counted (counted', size, entries) =
    (counted', omega arith, λ i. entries i ∙ grown-rows v n i counted)

resize_rows-Resized :
    (fuel : ℕ) (v : AccountVector) (n : ℕ)
    → Counted v
    → n ≤ fuel
    → Resized v n (resize_rows fuel v n)
unfolding resize_rows resize_row
resize_rows-Resized zero v n counted enough =
    let nothing : (n == 0) ≡ true = ground arith in rw nothing (counted, omega arith, λ i. refl)
resize_rows-Resized (suc fuel) v n counted enough = elim (Bool-cases (n == 0)) [
  | inl nothing ↦ rw nothing (counted, ground arith, λ i. refl)
  | inr some_left ↦
      let rest =
        resize_rows-Resized fuel (grown v n) (n - added v n) (grown-Counted v n counted)
          (ground (arith, counted.0.1)) in
      let room : ltb accounts_per_row (active v.accounts v.next_open_idx) ≡ false =
        ground (arith, counted.0.1) in
      let goes_on : (not (is_full (more v n)) && not (n - added v n == 0)) ≡ false =
        ground (arith, counted.0.1) in
      rw (some_left, open_row v.accounts v.next_open_idx counted.0.0, room, goes_on)
        (Resized-grown v n _ counted rest)
]

-- After the loop: the check of the size passes.
Resized-checked :
    (v : AccountVector) (sz : ℕ) (r : Option AccountVector)
    → Counted v
    → v.size ≤ sz
    → Resized v (sz - v.size) r
    → (v' : AccountVector) × (elim r [
      | none ↦ none
      | some v'' ↦ if v''.size == sz then some v'' else none
    ]
        ≡ some v')
      × Counted v'
      × (v'.size ≡ sz)
      × ((i : ℕ) → i < v.size → get v' i ≡ get v i)
Resized-checked v sz none counted grows resized = absurd resized
Resized-checked v sz (some v') counted grows (counted', size, entries) =
    let exact : (v'.size == sz) ≡ true = ground arith in
    (
      v',
      rw exact refl,
      counted',
      omega arith,
      λ i h.
          get-slot v' i (omega (arith, counted'.0.0, counted'.0.1, counted'.1))
          ∙ ap (λ f. some (f (i % accounts_per_row))) (entries (i / accounts_per_row))
          ∙ sym (get-slot v i (omega (arith, counted.0.0, counted.0.1, counted.1))),
    )

-- Growing a vector whose rows are well formed to a larger size ends without an error, with one
-- turn of the loop at most for each account that is added. It leaves that size, well-formed rows,
-- and every account that was there at its index.
pub resize-Counted :
    (fuel : ℕ) (v : AccountVector) (sz : ℕ)
    → Counted v
    → v.size < sz
    → sz - v.size ≤ fuel
    → (v' : AccountVector) × (resize fuel v sz ≡ some v')
      × Counted v'
      × (v'.size ≡ sz)
      × ((i : ℕ) → i < v.size → get v' i ≡ get v i)
unfolding resize
resize-Counted fuel v sz counted grows enough =
    let larger : leb sz v.size ≡ false = ground arith in
    rw larger (
      Resized-checked v sz _ counted (omega arith)
        (resize_rows-Resized fuel v (sz - v.size) counted enough))
