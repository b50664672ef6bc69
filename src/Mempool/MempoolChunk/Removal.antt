-- ===== src/Mempool/MempoolChunk/Removal.antt =====
-- What a removal leaves in a chunk, and that its loops end.
use speedex.Prelude.{
  ℕ, zero, suc, ◌+◌, ◌-◌, ◌%◌, ◌^◌, ◌<◌, ◌≡◌, refl, sym, ap, ◌∙◌, Bool, true, false, List, [], ◌∷◌,
  ◌==◌, Option, none, some, length, get_elem?, Option-cases, Bool-cases, inl, inr, arith,
}
use speedex.Types.{SignedTransaction}
use speedex.Mempool.Vectors.{
  swap_remove_lem, tally, zip, tally-zip-swap_remove, get_elem?-some, none_at, some_at,
}
use speedex.Mempool.MempoolChunk.{MempoolChunk, remove_at, remove_from, remove_confirmed_txs}

-- The transactions whose flag is not set.
unfoldable pub unmarked : List SignedTransaction → List Bool → List SignedTransaction
unmarked [] flags = []
unmarked (tx ∷ txs) [] = []
unmarked (tx ∷ txs) (true ∷ flags) = unmarked txs flags
unmarked (tx ∷ txs) (false ∷ flags) = tx ∷ unmarked txs flags

abbrev pub one_if : Bool → ℕ
one_if true = 1
one_if false = 0

-- A measure of the transactions that counts the unmarked ones only.
abbrev weigh : (SignedTransaction → ℕ) → SignedTransaction × Bool → ℕ
weigh f (tx, true) = 0
weigh f (tx, false) = f tx

abbrev mark : SignedTransaction × Bool → ℕ
mark (tx, b) = one_if b

tally-unmarked :
    (f : SignedTransaction → ℕ) (txs : List SignedTransaction) (flags : List Bool)
    → tally f (unmarked txs flags) ≡ tally (weigh f) (zip txs flags)
unfolding unmarked tally
tally-unmarked f [] flags = refl
tally-unmarked f (tx ∷ txs) [] = refl
tally-unmarked f (tx ∷ txs) (true ∷ flags) = omega (arith, tally-unmarked f txs flags)
tally-unmarked f (tx ∷ txs) (false ∷ flags) = omega (arith, tally-unmarked f txs flags)

-- No flag is set.
all_unmarked :
    (txs : List SignedTransaction) (flags : List Bool)
    → length flags ≡ length txs
    → ((j : ℕ) → j < length flags → get_elem? flags j ≡ some false)
    → unmarked txs flags ≡ txs
unfolding unmarked
all_unmarked [] flags len clear = refl
all_unmarked (tx ∷ txs) [] len clear = absurd (omega arith)
all_unmarked (tx ∷ txs) (true ∷ flags) len clear = absurd (cc (clear 0 (omega arith)))
all_unmarked (tx ∷ txs) (false ∷ flags) len clear =
    ap (λ r. tx ∷ r)
      (all_unmarked txs flags (omega (arith, len)) (λ j h. clear (suc j) (omega arith)))

marks-zip :
    (txs : List SignedTransaction) (flags : List Bool)
    → length flags ≡ length txs
    → tally mark (zip txs flags) ≡ tally one_if flags
unfolding tally
marks-zip [] [] len = refl
marks-zip [] (b ∷ flags) len = absurd (omega arith)
marks-zip (tx ∷ txs) [] len = absurd (omega arith)
marks-zip (tx ∷ txs) (b ∷ flags) len = omega (arith, marks-zip txs flags (omega (arith, len)))

-- The result of the loop on `c` from `n` removals: what is left has no flag set, and holds the
-- transactions of `c` that have none, each as often.
abbrev Removed : MempoolChunk → ℕ → Option (MempoolChunk × ℕ) → Type 0
Removed c n none = ⊥
Removed c n (some (c', n')) =
    (length c'.confirmed_txs_to_remove ≡ length c'.txs)
    × ((j : ℕ)
        → j < length c'.confirmed_txs_to_remove
        → get_elem? c'.confirmed_txs_to_remove j ≡ some false)
    × (n' + length c'.txs ≡ n + length c.txs)
    × ((f : SignedTransaction → ℕ)
        → tally f (unmarked c'.txs c'.confirmed_txs_to_remove)
          ≡ tally f (unmarked c.txs c.confirmed_txs_to_remove))

-- One removal takes out a marked transaction.
remove_at_lem :
    (c : MempoolChunk) (i : ℕ)
    → length c.confirmed_txs_to_remove ≡ length c.txs
    → get_elem? c.confirmed_txs_to_remove i ≡ some true
    → (c' : MempoolChunk) × (remove_at i c ≡ some c')
      × (length c'.confirmed_txs_to_remove ≡ length c'.txs)
      × (suc (length c'.txs) ≡ length c.txs)
      × ((j : ℕ)
          → j < i
          → get_elem? c'.confirmed_txs_to_remove j ≡ get_elem? c.confirmed_txs_to_remove j)
      × ((f : SignedTransaction → ℕ)
          → tally f (unmarked c'.txs c'.confirmed_txs_to_remove)
            ≡ tally f (unmarked c.txs c.confirmed_txs_to_remove))
unfolding remove_at
remove_at_lem c i len flag =
    let flags = c.confirmed_txs_to_remove in
    let inside = some_at flags i true flag in
    let (tx, at) = get_elem?-some c.txs i (omega (arith, len, inside)) in
    let (txs', left, shorter, sums, front) =
      swap_remove_lem c.txs i tx (omega (arith, len, inside)) at in
    let (flags', left', shorter', sums', front') = swap_remove_lem flags i true inside flag in
    (
      record { txs = txs'; confirmed_txs_to_remove = flags' },
      rw (at, left, left', remove_at) refl,
      omega (arith, shorter, shorter', len),
      shorter,
      front',
      λ f.
          let pairs =
            tally-zip-swap_remove c.txs flags i tx true txs' flags' (sym len)
              (omega (arith, len, inside)) at flag left left' (weigh f) in
          tally-unmarked f txs' flags' ∙ omega (arith, pairs) ∙ sym (tally-unmarked f c.txs flags),
    )

-- The flags before `i` are not set.
abbrev ClearBelow : ℕ → List Bool → Type 0
ClearBelow i flags = (j : ℕ) → j < i → j < length flags → get_elem? flags j ≡ some false

abbrev Removes : ℕ → Type 0
Removes fuel =
    (i : ℕ) (c : MempoolChunk) (n : ℕ)
    → length c.confirmed_txs_to_remove ≡ length c.txs
    → n + length c.txs < 2 ^ 64
    → length c.confirmed_txs_to_remove - i < fuel
    → ClearBelow i c.confirmed_txs_to_remove
    → Removed c n (remove_from fuel i c n)

-- After one removal, with what the loop does then.
after_removal :
    (c c' : MempoolChunk) (n : ℕ) (r : Option (MempoolChunk × ℕ))
    → n + length c.txs < 2 ^ 64
    → suc (length c'.txs) ≡ length c.txs
    → ((f : SignedTransaction → ℕ)
        → tally f (unmarked c'.txs c'.confirmed_txs_to_remove)
          ≡ tally f (unmarked c.txs c.confirmed_txs_to_remove))
    → Removed c' ((n + 1) % 2 ^ 64) r
    → Removed c n r
after_removal c c' n none fits shorter sums h = h
after_removal c c' n (some (d, n')) fits shorter sums (len, clear, count, sums') =
    (len, clear, omega (arith, count, shorter, fits), λ f. sums' f ∙ sums f)

clear_next :
    (i : ℕ) (flags : List Bool)
    → get_elem? flags i ≡ some false
    → ClearBelow i flags
    → ClearBelow (suc i) flags
clear_next i flags at clear = λ j below inside. elim (Bool-cases (j == i)) [
  | inl same ↦ ap (get_elem? flags) (ground arith) ∙ at
  | inr other ↦ clear j (ground arith) inside
]

remove_step : (fuel : ℕ) → Removes fuel → Removes (suc fuel)
unfolding remove_from
remove_step fuel ih i c n len fits enough clear =
    elim (Option-cases (get_elem? c.confirmed_txs_to_remove i)) [
      | inl end ↦
          let past = none_at c.confirmed_txs_to_remove i end in
          rw (end, remove_from) (len, (λ j h. clear j (omega (arith, past, h)) h), refl, λ f. refl)
      | inr (true, at) ↦
          let (c', done, len', shorter, front, sums) = remove_at_lem c i len at in
          let inside = some_at c.confirmed_txs_to_remove i true at in
          rw (at, done, remove_from)
            (after_removal c c' n _ fits shorter sums (
              ih i c' ((n + 1) % 2 ^ 64) len' (omega (arith, shorter, fits))
                (omega (arith, len, len', shorter, enough, inside))
                (λ j below in_range. front j below ∙ clear j below (omega (arith, below, inside)))))
      | inr (false, at) ↦
          let inside = some_at c.confirmed_txs_to_remove i false at in
          rw (at, remove_from)
            (ih (suc i) c n len fits (omega (arith, enough, inside))
              (clear_next i c.confirmed_txs_to_remove at clear))
    ]

remove_from-Removed : (fuel : ℕ) → Removes fuel
remove_from-Removed zero = λ i c n len fits enough clear. absurd (omega arith)
remove_from-Removed (suc fuel) = remove_step fuel (remove_from-Removed fuel)

-- The chunk that is left and the number of removals.
abbrev pub Keeps : MempoolChunk → List SignedTransaction → Option (MempoolChunk × ℕ) → Type 0
Keeps c kept none = ⊥
Keeps c kept (some (c', n)) =
    (n + length c'.txs ≡ length c.txs)
    × ((f : SignedTransaction → ℕ) → tally f c'.txs ≡ tally f kept)

kept_all :
    (c : MempoolChunk) (r : Option (MempoolChunk × ℕ))
    → Removed c 0 r
    → Keeps c (unmarked c.txs c.confirmed_txs_to_remove) r
kept_all c none h = h
kept_all c (some (c', n)) (len, clear, count, sums) = (
  omega (arith, count),
  λ f. ap (tally f) (sym (all_unmarked c'.txs c'.confirmed_txs_to_remove len clear)) ∙ sums f,
)

-- In a chunk of fewer than 2 ^ 64 transactions, each with a flag, the removal ends. It keeps exactly
-- the transactions whose flag is not set, each as often, in whatever order, and returns how many it
-- removed.
pub remove_confirmed_txs-Keeps :
    (c : MempoolChunk)
    → length c.confirmed_txs_to_remove ≡ length c.txs
    → length c.txs < 2 ^ 64
    → Keeps c (unmarked c.txs c.confirmed_txs_to_remove) (remove_confirmed_txs c)
unfolding remove_confirmed_txs
remove_confirmed_txs-Keeps c len fits = kept_all c _ (
    remove_from-Removed (suc (length c.confirmed_txs_to_remove)) 0 c 0 len (omega (arith, fits))
      (omega arith) (λ j below. absurd (omega (arith, below))))
