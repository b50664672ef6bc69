-- ===== src/Mempool/Pool/Join.antt =====
-- The joining of small chunks loses nothing, and leaves no two neighbours that are small together.
use speedex.Prelude.{
  ℕ, zero, suc, ◌+◌, ◌-◌, ◌≤◌, ◌<◌, ◌≡◌, refl, sym, ap, subst, ◌∙◌, ltb, ◌==◌, List, [], ◌∷◌,
  Option, none, some, length, length-append, length-set, get_elem?, set, Option-cases, Bool-cases,
  inl, inr, arith, false,
}
use speedex.Types.{SignedTransaction}
use speedex.Mempool.Vectors.{
  swap_remove, swap_remove_lem, tally, tally-append, tally-set, get_elem?-set_ne,
  get_elem?-set_self, none_at, some_at, get_elem?-some,
}
use speedex.Mempool.MempoolChunk.{MempoolChunk, join}
use speedex.Mempool.Pool.{Mempool, size, join_from, join_small_chunks}

-- A measure of the transactions of a chunk.
abbrev pub of_chunk : (SignedTransaction → ℕ) → MempoolChunk → ℕ
of_chunk f c = tally f c.txs

module _ (target : ℕ) where
  -- Neighbours up to chunk `i` have the target size together.
  abbrev LargeBelow : ℕ → List MempoolChunk → Type 0
  LargeBelow i chunks =
      (j : ℕ) (a b : MempoolChunk)
      → suc j ≤ i
      → get_elem? chunks j ≡ some a
      → get_elem? chunks (suc j) ≡ some b
      → target ≤ size a + size b

  abbrev pub Large : List MempoolChunk → Type 0
  Large chunks =
      (j : ℕ) (a b : MempoolChunk)
      → get_elem? chunks j ≡ some a
      → get_elem? chunks (suc j) ≡ some b
      → target ≤ size a + size b

  abbrev Joined : List MempoolChunk → Option (List MempoolChunk) → Type 0
  Joined chunks none = ⊥
  Joined chunks (some left) =
      Large left
      × ((f : SignedTransaction → ℕ) → tally (of_chunk f) left ≡ tally (of_chunk f) chunks)

  -- One joining of neighbours.
  join_step :
      (i : ℕ) (chunks : List MempoolChunk) (c next : MempoolChunk)
      → get_elem? chunks i ≡ some c
      → get_elem? chunks (suc i) ≡ some next
      → LargeBelow i chunks
      → (left : List MempoolChunk) × (swap_remove (set chunks i (join c next)) (suc i) ≡ some left)
        × (suc (length left) ≡ length chunks)
        × LargeBelow i left
        × ((f : SignedTransaction → ℕ) → tally (of_chunk f) left ≡ tally (of_chunk f) chunks)
  unfolding join
  join_step i chunks c next at at' large =
      let both = join c next in
      let inside = some_at chunks (suc i) next at' in
      let len = length-set chunks i both in
      let there : get_elem? (set chunks i both) (suc i) ≡ some next =
        get_elem?-set_ne chunks i (suc i) both (λ e. absurd (omega (arith, e))) ∙ at' in
      let here : get_elem? (set chunks i both) i ≡ some both =
        get_elem?-set_self chunks i both (omega (arith, inside)) in
      let (left, done, shorter, sums, front) =
        swap_remove_lem (set chunks i both) (suc i) next (omega (arith, len, inside)) there in
      (
        left,
        done,
        omega (arith, shorter, len),
        (λ j a b below p q.
            let p' : get_elem? (set chunks i both) j ≡ some a =
              sym (front j (omega (arith, below))) ∙ p in
            let q' : get_elem? (set chunks i both) (suc j) ≡ some b =
              sym (front (suc j) (omega (arith, below))) ∙ q in
            let first : get_elem? chunks j ≡ some a =
              sym (get_elem?-set_ne chunks i j both (λ e. absurd (omega (arith, e, below)))) ∙ p' in
            elim (Bool-cases (suc j == i)) [
              | inl last_pair ↦
                  let same : suc j ≡ i = ground arith in
                  let b-eq : both ≡ b = cc (here, ap (get_elem? (set chunks i both)) same, q') in
                  let c_at : get_elem? chunks (suc j) ≡ some c = ap (get_elem? chunks) same ∙ at in
                  let before = large j a c below first c_at in
                  omega (arith, before, length-append c.txs next.txs, ap size b-eq)
              | inr earlier ↦
                  large j a b below first
                    (sym (get_elem?-set_ne chunks i (suc j) both (λ e. absurd (ground arith))) ∙ q')
            ]),
        λ f. omega (
          arith,
          sums (of_chunk f),
          tally-set (of_chunk f) chunks i c both at,
          tally-append f c.txs next.txs,
        ),
      )

  after_step :
      (chunks left : List MempoolChunk) (r : Option (List MempoolChunk))
      → ((f : SignedTransaction → ℕ) → tally (of_chunk f) left ≡ tally (of_chunk f) chunks)
      → Joined left r
      → Joined chunks r
  after_step chunks left none sums h = h
  after_step chunks left (some final) sums (large, sums') = (large, λ f. sums' f ∙ sums f)

  large_next :
      (i : ℕ) (chunks : List MempoolChunk) (c next : MempoolChunk)
      → get_elem? chunks i ≡ some c
      → get_elem? chunks (suc i) ≡ some next
      → ltb (size c + size next) target ≡ false
      → LargeBelow i chunks
      → LargeBelow (suc i) chunks
  large_next i chunks c next at at' together large = λ j a b below p q. elim (Bool-cases (j == i)) [
    | inl same ↦
        let here : j ≡ i = ground arith in
        let a-eq : c ≡ a = cc (at, ap (get_elem? chunks) here, p) in
        let b-eq : next ≡ b = cc (at', ap (λ n. get_elem? chunks (suc n)) here, q) in
        let total : target ≤ size c + size next = ground arith in
        omega (arith, total, ap size a-eq, ap size b-eq)
    | inr other ↦ large j a b (ground arith) p q
  ]

  join_from-Joined :
      (fuel i : ℕ) (chunks : List MempoolChunk)
      → length chunks - i < fuel
      → i < length chunks
      → LargeBelow i chunks
      → Joined chunks (join_from target fuel i chunks)
  unfolding join_from
  join_from-Joined zero i chunks enough inside large = absurd (omega arith)
  join_from-Joined (suc fuel) i chunks enough inside large =
      let (c, at) = get_elem?-some chunks i inside in
      elim (Option-cases (get_elem? chunks (suc i))) [
        | inl end ↦
            let past = none_at chunks (suc i) end in
            rw (end, join_from)
              (
                (λ j a b p q. large j a b (omega (arith, past, some_at chunks (suc j) b q)) p q),
                λ f. refl,
              )
        | inr (next, at') ↦ elim (Bool-cases (ltb (size c + size next) target)) [
          | inl small ↦
              let (left, done, shorter, large', sums) = join_step i chunks c next at at' large in
              let inside' = some_at chunks (suc i) next at' in
              rw (at', at, small, done, join_from)
                (after_step chunks left _ sums (
                  join_from-Joined fuel i left (omega (arith, shorter, enough, inside'))
                    (omega (arith, shorter, inside')) large'))
          | inr enough_together ↦
              let inside' = some_at chunks (suc i) next at' in
              rw (at', at, enough_together, join_from)
                (join_from-Joined fuel (suc i) chunks (omega (arith, enough, inside')) inside'
                  (large_next i chunks c next at at' enough_together large))
        ]
      ]

join_all-Joined :
    (target : ℕ) (chunks : List MempoolChunk)
    → Joined target chunks (join_from target (suc (length chunks)) 0 chunks)
unfolding join_from
join_all-Joined target [] = ((λ j a b p q. absurd (cc)), λ f. refl)
join_all-Joined target (c ∷ cs) =
    join_from-Joined target (suc (length (c ∷ cs))) 0 (c ∷ cs) (omega arith) (omega arith)
      (λ j a b below p q. absurd (omega (arith, below)))

-- The joining ends. Afterwards each two chunks next to each other have at least the target size
-- together, and the pool has the transactions that it had, each as often.
pub join_small_chunks-Joined :
    (m : Mempool)
    → (m' : Mempool) × (join_small_chunks m ≡ some m')
      × Large m.target_chunk_size m'.mempool
      × ((f : SignedTransaction → ℕ) → tally (of_chunk f) m'.mempool ≡ tally (of_chunk f) m.mempool)
unfolding join_small_chunks
join_small_chunks-Joined m =
    elim (Option-cases (join_from m.target_chunk_size (suc (length m.mempool)) 0 m.mempool)) [
      | inl stuck ↦ absurd (
          subst (Joined m.target_chunk_size m.mempool) stuck
            (join_all-Joined m.target_chunk_size m.mempool))
      | inr (left, done) ↦
          let (large, sums) =
            subst (Joined m.target_chunk_size m.mempool) done
              (join_all-Joined m.target_chunk_size m.mempool) in
          (record m { mempool = left }, rw (done, join_small_chunks) refl, large, sums)
    ]
