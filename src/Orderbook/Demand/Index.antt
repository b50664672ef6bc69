-- ===== src/Orderbook/Demand/Index.antt =====
-- The binary search of the index finds the totals of exactly the offers that are active.
use speedex.Prelude.{
  ℕ, zero, suc, ◌+◌, ◌-◌, ◌/◌, ◌≤◌, ◌<◌, ◌^◌, ◌≡◌, refl, sym, ◌∙◌, ap, if◌then◌else◌, leb, ◌==◌,
  ◌||◌, List, [], ◌∷◌, some, length, get_elem?, All, Bool-cases, inl, inr, arith, ◌⊎◌, false,
}
use mathlib.Core.Option
use speedex.Types.{Offer}
use speedex.Orderbook.Demand.{IndexedMetadata, no_endow, search_metadata, get_metadata, last_index}
use speedex.Orderbook.Demand.Totals.{total, total-eq, HasValidPrices}

-- The entries after one with key `k`: the keys increase, the offers' prices are among them, and
-- each entry has the totals of the offers up to its key.
abbrev pub IndexesFrom : ℕ → List IndexedMetadata → List Offer → Type 0
IndexesFrom k [] os = All (λ o. o.min_price ≤ k) os
IndexesFrom k (e ∷ es) os =
    (k < e.key)
    × All (λ o. (o.min_price ≤ k) ⊎ (e.key ≤ o.min_price)) os
    × (e.metadata ≡ total e.key os)
    × IndexesFrom e.key es os

-- The index of the offers, whose first entry is empty.
abbrev pub Indexes : List IndexedMetadata → List Offer → Type 0
Indexes [] os = ⊥
Indexes (e ∷ es) os =
    (e.metadata ≡ no_endow) × HasValidPrices os × IndexesFrom 0 es os × (length es < 2 ^ 30)

-- The number of entries at the front whose key is at most `p`.
unfoldable active : ℕ → List IndexedMetadata → ℕ
active p [] = 0
active p (e ∷ es) = if leb e.key p then suc (active p es) else 0

active-le-length : (p : ℕ) (es : List IndexedMetadata) → active p es ≤ length es
unfolding active
active-le-length p [] = omega arith
active-le-length p (e ∷ es) = ground (arith, active-le-length p es)

later_keys :
    (k p : ℕ) (es : List IndexedMetadata) (os : List Offer) (i : ℕ) (e : IndexedMetadata)
    → IndexesFrom k es os
    → get_elem? es i ≡ some e
    → k < e.key
later_keys k p [] os i e h at = absurd (cc)
later_keys k p (x ∷ es) os zero e h at = ground arith
later_keys k p (x ∷ es) os (suc i) e h at = omega (arith, h.0, later_keys x.key p es os i e h.3 at)

-- An entry is among these exactly if its key is at most `p`.
active_iff :
    (k p : ℕ) (es : List IndexedMetadata) (os : List Offer) (i : ℕ) (e : IndexedMetadata)
    → IndexesFrom k es os
    → get_elem? es i ≡ some e
    → if leb e.key p then i < active p es else active p es ≤ i
unfolding active
active_iff k p [] os i e h at = absurd (cc)
active_iff k p (x ∷ es) os zero e h at = ground arith
active_iff k p (x ∷ es) os (suc i) e h at =
    ground (arith, later_keys x.key p es os i e h.3 at, active_iff x.key p es os i e h.3 at)

none_above :
    (k p : ℕ) (os : List Offer)
    → All (λ o. o.min_price ≤ k) os
    → All (λ o. (o.min_price ≤ k) ⊎ (p < o.min_price)) os
none_above k p [] h = tt
none_above k p (o ∷ os) h = (inl h.0, none_above k p os h.1)

gap :
    (k p above : ℕ) (os : List Offer)
    → p < above
    → All (λ o. (o.min_price ≤ k) ⊎ (above ≤ o.min_price)) os
    → All (λ o. (o.min_price ≤ k) ⊎ (p < o.min_price)) os
gap k p above [] lt h = tt
gap k p above (o ∷ os) lt (inl low, h) = (inl low, gap k p above os lt h)
gap k p above (o ∷ os) lt (inr high, h) = (inr (omega arith), gap k p above os lt h)

get_elem?-some :
    (es : List IndexedMetadata) (i : ℕ)
    → i < length es
    → (e : IndexedMetadata) × (get_elem? es i ≡ some e)
get_elem?-some [] i h = absurd (omega arith)
get_elem?-some (e ∷ es) zero h = (e, refl)
get_elem?-some (e ∷ es) (suc i) h = get_elem?-some es i (omega arith)

get_elem?-suc :
    (x : IndexedMetadata) (es : List IndexedMetadata) (i : ℕ) (e : IndexedMetadata)
    → 1 ≤ i
    → get_elem? es (i - 1) ≡ some e
    → get_elem? (x ∷ es) i ≡ some e
get_elem?-suc x es zero e h at = absurd (omega arith)
get_elem?-suc x es (suc i) e h at = ap (get_elem? es) (omega arith) ∙ at

-- The entry before the first one whose key is above `p` has the totals at `p`.
active-total :
    (x : IndexedMetadata) (k p : ℕ) (es : List IndexedMetadata) (os : List Offer)
    → IndexesFrom k es os
    → k ≤ p
    → x.metadata ≡ total k os
    → (e : IndexedMetadata) × (get_elem? (x ∷ es) (active p es) ≡ some e)
      × (e.metadata ≡ total p os)
unfolding active
active-total x k p [] os h le e0 = (x, refl, e0 ∙ total-eq k p os le (none_above k p os h))
active-total x k p (e ∷ es) os h le e0 = elim (Bool-cases (leb e.key p)) [
  | inl below ↦ rw below (active-total e e.key p es os h.3 (ground arith) h.2)
  | inr above ↦ rw above (x, refl, e0 ∙ total-eq k p os le (gap k p e.key os (ground arith) h.1))
]

total-zero : (os : List Offer) → HasValidPrices os → total 0 os ≡ no_endow
unfolding total
total-zero [] valid = refl
total-zero (o ∷ os) valid = ground (arith, total-zero os valid.1)

module _ (x : IndexedMetadata) (es : List IndexedMetadata) (os : List Offer) (p : ℕ) where
  -- Wherever the search starts around the answer, it gives it, on fuel above the distance.
  search_metadata_lem :
      (fuel start stop : ℕ)
      → IndexesFrom 0 es os
      → x.metadata ≡ total 0 os
      → 1 ≤ start
      → start ≤ suc (active p es)
      → suc (active p es) ≤ stop
      → stop ≤ length es
      → length es < 2 ^ 30
      → stop - start < fuel
      → search_metadata fuel (x ∷ es) p start stop ≡ some (total p os)
  unfolding search_metadata
  search_metadata_lem zero start stop h e0 pos_start low high inside fits enough =
      absurd (omega arith)
  search_metadata_lem (suc fuel) start stop h e0 pos_start low high inside fits enough =
      let small : leb (2 ^ 31) (stop + start) ≡ false = ground arith in
      elim (Bool-cases (stop == start)) [
        | inl done ↦
            let (e, at, meta) = active-total x 0 p es os h (omega arith) e0 in
            let here : stop - 1 ≡ active p es = ground arith in
            rw (small, done, here, at) (ap some meta)
        | inr more ↦
            let mp = (stop + start) / 2 in
            let lower : mp < stop = ground arith in
            let upper : start ≤ mp = ground arith in
            let (e, at) = get_elem?-some es (mp - 1) (omega arith) in
            let at' : get_elem? (x ∷ es) mp ≡ some e = get_elem?-suc x es mp e (omega arith) at in
            let split = active_iff 0 p es os (mp - 1) e h at in
            rw (small, more, at')
              (elim (Bool-cases (leb e.key p)) [
                | inl below ↦ rw below (
                    search_metadata_lem fuel (mp + 1) stop h e0 (omega arith) (ground arith) high
                      inside fits (omega arith))
                | inr above ↦ rw above (
                    search_metadata_lem fuel start mp h e0 pos_start low (ground arith)
                      (omega arith) fits (omega arith))
              ])
      ]

-- At every price, the query returns the totals of exactly the offers whose limit price is at most
-- that price, on an index of those offers.
pub get_metadata-total :
    (index : List IndexedMetadata) (os : List Offer) (p : ℕ)
    → Indexes index os
    → get_metadata index p ≡ some (total p os)
unfolding get_metadata
get_metadata-total [] os p h = absurd h
get_metadata-total (x ∷ []) os p h =
    ap some (sym (total-zero os h.1) ∙ total-eq 0 p os (omega arith) (none_above 0 p os h.2))
get_metadata-total (x ∷ y ∷ es) os p h =
    let stop : last_index (x ∷ y ∷ es) ≡ suc (length es) = omega arith in
    let inside : (suc (length es) == 0 || leb (2 ^ 31) (suc (length es))) ≡ false = ground arith in
    let (last, at) = get_elem?-some (y ∷ es) (length es) (omega arith) in
    let last_key = active_iff 0 p (y ∷ es) os (length es) last h.2 at in
    let first : x.metadata ≡ total 0 os = h.0 ∙ sym (total-zero os h.1) in
    let (e, at', meta) = active-total x 0 p (y ∷ es) os h.2 (omega arith) first in
    let bounded = active-le-length p (y ∷ es) in
    rw (stop, inside, at)
      (elim (Bool-cases (leb last.key p)) [
        | inl below ↦
            let all : active p (y ∷ es) ≡ suc (length es) = ground arith in
            let same : some last ≡ some e = sym at ∙ ap (get_elem? (x ∷ y ∷ es)) (sym all) ∙ at' in
            rw below (ap (Option.map (λ (m : IndexedMetadata). m.metadata)) same ∙ ap some meta)
        | inr above ↦ rw above (
            ap (search_metadata (length (x ∷ y ∷ es)) (x ∷ y ∷ es) p 1) stop
            ∙ search_metadata_lem x (y ∷ es) os p (length (x ∷ y ∷ es)) 1 (suc (length es)) h.2
                first (omega arith) (omega arith) (ground arith) (omega arith) h.3 (omega arith))
      ])
