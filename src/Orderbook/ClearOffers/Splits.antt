-- ===== src/Orderbook/ClearOffers/Splits.antt =====
-- Entries in the order of their keys: what validation takes from them is what production took.
use speedex.Prelude.{
  ℕ, ◌+◌, ◌-◌, ◌≤◌, ◌<◌, ◌≡◌, refl, ap, leb, ltb, ◌==◌, [], ◌∷◌, ◌++◌, none, some, Bool-cases, inl,
  inr, arith, false, true, ==_refl,
}
use speedex.Types.{Offer, OfferCategory}
use speedex.Orderbook.Interfaces.{
  Entries, find_entry, delete_entry, split_entries, endow_of, endow_below,
}

-- Keys above `k` and increasing, amounts above 0, and offers of one category.
abbrev pub OffersAbove : ℕ → OfferCategory → Entries → Type 0
OffersAbove k category [] = Unit
OffersAbove k category ((key, o) ∷ es) =
    (k < key) × (0 < o.amount) × (o.category ≡ category) × OffersAbove key category es

-- A split loses nothing, and takes at most the amount.
pub split_lem :
    (endow : ℕ) (es : Entries)
    → (es ≡ (split_entries endow es).0 ++ (split_entries endow es).1)
      × (endow_of (split_entries endow es).0 ≤ endow)
unfolding split_entries endow_of
split_lem endow [] = (refl, omega arith)
split_lem endow ((k, o) ∷ es) =
    let (whole, bounded) = split_lem (endow - o.amount) es in
    elim (Bool-cases (leb o.amount endow)) [
      | inl fits ↦ rw fits (ap (λ r. (k, o) ∷ r) whole, ground arith)
      | inr more ↦ rw more (refl, omega arith)
    ]

-- No entry stands at a key below all of them.
pub absent :
    (category : OfferCategory) (k key : ℕ) (es : Entries)
    → key ≤ k
    → OffersAbove k category es
    → (find_entry key es ≡ none) × (delete_entry key es ≡ es) × (endow_below key es ≡ 0)
unfolding find_entry delete_entry endow_below
absent category k key [] le h = (refl, refl, refl)
absent category k key ((j, o) ∷ es) le h =
    let (missing, kept, small) = absent category j key es (omega arith) h.3 in
    let other : (j == key) ≡ false = ground arith in
    let above : ltb j key ≡ false = ground arith in
    (rw other missing, rw (other, kept) refl, rw above (omega (arith, small)))

-- An amount of 0 takes nothing.
split-zero :
    (category : OfferCategory) (k : ℕ) (es : Entries)
    → OffersAbove k category es
    → split_entries 0 es ≡ ([], es)
unfolding split_entries
split-zero category k [] h = refl
split-zero category k ((j, o) ∷ es) h =
    let more : leb o.amount 0 ≡ false = ground arith in rw more refl

-- The lowest entry.
pub head_entry :
    (key : ℕ) (o : Offer) (es : Entries)
    → (find_entry key ((key, o) ∷ es) ≡ some o) × (delete_entry key ((key, o) ∷ es) ≡ es)
unfolding find_entry delete_entry
head_entry key o es = let here = ==_refl key in (rw here refl, rw here refl)

module _ (category : OfferCategory) (key : ℕ) (o : Offer) (es : Entries) where
  -- The entry after the first ones is found at its key, and those before it are below it.
  pub around :
      (k : ℕ) (before : Entries)
      → OffersAbove k category (before ++ (key, o) ∷ es)
      → (k < key)
        × (o.category ≡ category)
        × (find_entry key (before ++ (key, o) ∷ es) ≡ some o)
        × (delete_entry key (before ++ (key, o) ∷ es) ≡ before ++ es)
        × (endow_below key (before ++ (key, o) ∷ es) ≡ endow_of before)
        × (split_entries (endow_of before) (before ++ es) ≡ (before, es))
  unfolding find_entry delete_entry endow_below endow_of split_entries
  around k [] h =
      let (missing, kept, small) = absent category key key es (omega arith) h.3 in
      let here = ==_refl key in
      let level : ltb key key ≡ false = ground arith in
      (
        h.0,
        h.2,
        rw here refl,
        rw here refl,
        rw level (omega (arith, small)),
        split-zero category key es h.3,
      )
  around k ((j, x) ∷ before) h =
      let (above, same, found, kept, sum, split) = around j before h.3 in
      let other : (j == key) ≡ false = ground arith in
      let below : ltb j key ≡ true = ground arith in
      let fits : leb x.amount (x.amount + endow_of before) ≡ true = ground arith in
      let rest : x.amount + endow_of before - x.amount ≡ endow_of before = omega arith in
      (
        omega (arith, h.0, above),
        same,
        rw (other, found) refl,
        rw (other, kept) refl,
        rw below (omega (arith, sum)),
        rw (fits, rest, split) refl,
      )
