-- ===== src/Mempool/Pool/Buffer.antt =====
-- The buffer in front of the pool loses nothing.
use mathlib.Core.List.{append-nil, append_assoc}
use native.Mathlib.Nat.{mul-le-mul_right, mul_comm, zero-mul, add-zero, lt-mul-div-succ}
use speedex.Prelude.{
  take, drop, ℕ, zero, suc, ◌+◌, ◌-◌, ◌*◌, ◌/◌, ◌≤◌, ◌<◌, ◌≡◌, refl, sym, ap, ◌∙◌, min, ltb, ◌==◌,
  List, [], ◌∷◌, ◌++◌, some, length, false, Bool-cases, inl, inr, arith,
}
use speedex.Types.{SignedTransaction}
use speedex.Mempool.Vectors.{tally, tally-append}
use speedex.Mempool.MempoolChunk.{MempoolChunk, new_chunk}
use speedex.Mempool.Pool.{
  Mempool, Counted, size, fetch_add, fetch_sub, add_to_mempool_buffer_nolock, chunkify_from,
  chunkify_and_add_to_mempool_buffer, push_chunks, push_mempool_buffer_to_mempool,
}

-- The transactions of the chunks, one after the other.
unfoldable pub all_txs : List MempoolChunk → List SignedTransaction
all_txs [] = []
all_txs (c ∷ cs) = c.txs ++ all_txs cs

all_txs-append : (cs ds : List MempoolChunk) → all_txs (cs ++ ds) ≡ all_txs cs ++ all_txs ds
unfolding all_txs
all_txs-append [] ds = refl
all_txs-append (c ∷ cs) ds =
    ap (λ x. c.txs ++ x) (all_txs-append cs ds) ∙ sym (append_assoc c.txs (all_txs cs) (all_txs ds))

-- What one step of the pushing keeps.
abbrev Same : Mempool → Mempool → Type 0
Same m m' =
    (all_txs m'.mempool ++ all_txs m'.buffered_mempool
      ≡ all_txs m.mempool ++ all_txs m.buffered_mempool)
    × Counted m'

abbrev pushed : MempoolChunk → List MempoolChunk → Mempool → Mempool
pushed c cs m = record m {
  mempool_size = fetch_add m.mempool_size (size c);
  buffer_size = fetch_sub m.buffer_size (size c);
  mempool = m.mempool ++ c ∷ [];
  buffered_mempool = cs;
}

pushed-Same :
    (c : MempoolChunk) (cs : List MempoolChunk) (m : Mempool)
    → m.buffered_mempool ≡ c ∷ cs
    → Counted m
    → Same m (pushed c cs m)
unfolding all_txs tally
pushed-Same c cs m buffered counted =
    let before = ap (tally size) buffered in
    let whole = tally-append size m.mempool (c ∷ []) in
    (
      ap (λ x. x ++ all_txs cs)
            (all_txs-append m.mempool (c ∷ [])
              ∙ ap (λ x. all_txs m.mempool ++ x) (append-nil c.txs))
          ∙ append_assoc (all_txs m.mempool) c.txs (all_txs cs)
          ∙ ap (λ x. all_txs m.mempool ++ x) (sym (ap all_txs buffered)),
      (omega (arith, whole, counted.0), omega (arith, before, counted.1)),
    )

push_chunks-Same :
    (cs : List MempoolChunk) (m : Mempool)
    → m.buffered_mempool ≡ cs
    → Counted m
    → Same m (push_chunks cs m)
unfolding push_chunks
push_chunks-Same [] m buffered counted = (refl, counted)
push_chunks-Same (c ∷ cs) m buffered counted =
    let (same, counted') = pushed-Same c cs m buffered counted in
    let (same', counted'') = push_chunks-Same cs (pushed c cs m) refl counted' in
    elim (Bool-cases (ltb m.max_mempool_size m.mempool_size)) [
      | inl full ↦ rw (full, push_chunks) (same, counted')
      | inr room ↦ rw (room, push_chunks) (same' ∙ same, counted'')
    ]

-- Where the counters are the numbers of transactions in the pool and in the buffer, they are after
-- the buffer is pushed. The transactions of the pool and then the buffer are as before, in order.
pub push_mempool_buffer_to_mempool-Same :
    (m : Mempool)
    → Counted m
    → (all_txs (push_mempool_buffer_to_mempool m).mempool
          ++ all_txs (push_mempool_buffer_to_mempool m).buffered_mempool
        ≡ all_txs m.mempool ++ all_txs m.buffered_mempool)
      × Counted (push_mempool_buffer_to_mempool m)
unfolding push_mempool_buffer_to_mempool
push_mempool_buffer_to_mempool-Same m counted = push_chunks-Same m.buffered_mempool m refl counted

module _ {A : Type 0} where
  take-drop : (k : ℕ) (xs : List A) → take k xs ++ drop k xs ≡ xs
  take-drop zero xs = refl
  take-drop (suc k) [] = refl
  take-drop (suc k) (x ∷ xs) = ap (λ r. x ∷ r) (take-drop k xs)

  drop-beyond : (k : ℕ) (xs : List A) → length xs ≤ k → drop k xs ≡ []
  drop-beyond zero [] h = refl
  drop-beyond zero (x ∷ xs) h = absurd (omega arith)
  drop-beyond (suc k) [] h = refl
  drop-beyond (suc k) (x ∷ xs) h = drop-beyond k xs (omega arith)

  drop-drop : (j k : ℕ) (xs : List A) → drop k (drop j xs) ≡ drop (j + k) xs
  drop-drop zero k xs = ap (λ n. drop n xs) (omega arith)
  drop-drop (suc j) k [] =
      drop-beyond k [] (omega arith) ∙ sym (drop-beyond (suc j + k) [] (omega arith))
  drop-drop (suc j) k (x ∷ xs) =
      let next : suc (j + k) ≡ suc j + k = omega arith in
      drop-drop j k xs ∙ ap (λ n. drop n (x ∷ xs)) next

  length-take : (k : ℕ) (xs : List A) → length (take k xs) ≤ k
  length-take zero xs = omega arith
  length-take (suc k) [] = omega arith
  length-take (suc k) (x ∷ xs) = omega (arith, length-take k xs)

  length-drop : (k : ℕ) (xs : List A) → length (drop k xs) ≡ length xs - k
  length-drop zero xs = omega arith
  length-drop (suc k) [] = omega arith
  length-drop (suc k) (x ∷ xs) = omega (arith, length-drop k xs)

  -- The piece from `lo` to `hi` or the end, and what is after it.
  piece :
      (lo hi : ℕ) (xs : List A)
      → lo ≤ hi
      → take (min (length xs) hi - lo) (drop lo xs) ++ drop hi xs ≡ drop lo xs
  piece lo hi xs h =
      let k = min (length xs) hi - lo in
      let rest : drop k (drop lo xs) ≡ drop hi xs =
        drop-drop lo k xs ∙ elim (Bool-cases (ltb (length xs) hi)) [
          | inl past ↦
              drop-beyond (lo + k) xs (ground arith) ∙ sym (drop-beyond hi xs (ground arith))
          | inr inside ↦ ap (λ n. drop n xs) (ground arith)
        ] in
      ap (λ r. take k (drop lo xs) ++ r) (sym rest) ∙ take-drop k (drop lo xs)

added-Counted :
    (chunk : List SignedTransaction) (m : Mempool)
    → Counted m
    → Counted (add_to_mempool_buffer_nolock chunk m)
unfolding add_to_mempool_buffer_nolock tally
added-Counted chunk m counted = (
  counted.0,
  omega (arith, tally-append size m.buffered_mempool (new_chunk chunk ∷ []), counted.1),
)

added_txs :
    (chunk : List SignedTransaction) (m : Mempool)
    → all_txs (add_to_mempool_buffer_nolock chunk m).buffered_mempool
      ≡ all_txs m.buffered_mempool ++ chunk
unfolding add_to_mempool_buffer_nolock all_txs
added_txs chunk m =
    all_txs-append m.buffered_mempool (new_chunk chunk ∷ [])
    ∙ ap (λ x. all_txs m.buffered_mempool ++ x) (append-nil chunk)

-- The chunks that are added.
abbrev Chunked : ℕ → List SignedTransaction → Mempool → Mempool → Type 0
Chunked target txs m m' =
    (all_txs m'.buffered_mempool ≡ all_txs m.buffered_mempool ++ txs)
    × (m'.mempool ≡ m.mempool)
    × Counted m'

chunkify_from-Chunked :
    (turns i : ℕ) (txs : List SignedTransaction) (m : Mempool)
    → 0 < m.target_chunk_size
    → length txs < (i + turns) * m.target_chunk_size
    → Counted m
    → Chunked m.target_chunk_size
        (drop (i * m.target_chunk_size) txs)
        m
        (chunkify_from turns i txs m)
unfolding chunkify_from add_to_mempool_buffer_nolock
chunkify_from-Chunked zero i txs m pos_target over counted =
    let none_left =
      drop-beyond (i * m.target_chunk_size) txs
        (omega (arith, ap (λ (t : ℕ). t * m.target_chunk_size) (add-zero i), over)) in
    (sym (ap (λ x. all_txs m.buffered_mempool ++ x) none_left ∙ append-nil _), refl, counted)
chunkify_from-Chunked (suc turns) i txs m pos_target over counted =
    let target = m.target_chunk_size in
    let chunk = take (min (length txs) ((i + 1) * target) - i * target) (drop (i * target) txs) in
    let next : suc i ≡ i + 1 = omega arith in
    let further : (suc i + turns) * target ≡ (i + suc turns) * target =
      ap (λ (t : ℕ). t * target) (omega arith) in
    let (rest, kept, counted') =
      chunkify_from-Chunked turns (suc i) txs (add_to_mempool_buffer_nolock chunk m) pos_target
        (omega (arith, further, over)) (added-Counted chunk m counted) in
    let here : chunk ++ drop (suc i * target) txs ≡ drop (i * target) txs =
      ap (λ n. chunk ++ drop (n * target) txs) next
      ∙ piece (i * target) ((i + 1) * target) txs (mul-le-mul_right target (omega arith)) in
    (
      rest
          ∙ ap (λ x. x ++ drop (suc i * target) txs) (added_txs chunk m)
          ∙ append_assoc (all_txs m.buffered_mempool) chunk (drop (suc i * target) txs)
          ∙ ap (λ x. all_txs m.buffered_mempool ++ x) here,
      kept,
      counted',
    )

-- Where the target size is not 0 and the counters are the numbers of transactions, the buffer holds
-- what it held and then the new transactions, in order, the pool is as before, and the counters are
-- still these numbers.
pub chunkify_and_add_to_mempool_buffer-Chunked :
    (txs : List SignedTransaction) (m : Mempool)
    → 0 < m.target_chunk_size
    → Counted m
    → (m' : Mempool) × (chunkify_and_add_to_mempool_buffer txs m ≡ some m')
      × (all_txs m'.buffered_mempool ≡ all_txs m.buffered_mempool ++ txs)
      × (m'.mempool ≡ m.mempool)
      × Counted m'
unfolding chunkify_and_add_to_mempool_buffer
chunkify_and_add_to_mempool_buffer-Chunked txs m pos_target counted =
    let target = m.target_chunk_size in
    let some_target : (target == 0) ≡ false = ground arith in
    let enough = lt-mul-div-succ (length txs) pos_target in
    let turns : (0 + suc (length txs / target)) * target ≡ target * (length txs / target + 1) =
      mul_comm _ _ ∙ ap (λ (t : ℕ). target * t) (omega arith) in
    let whole : drop (0 * target) txs ≡ txs = ap (λ n. drop n txs) (zero-mul target) in
    let (rest, kept, counted') =
      chunkify_from-Chunked (suc (length txs / target)) 0 txs m pos_target
        (omega (arith, enough, turns)) counted in
    (
      chunkify_from (suc (length txs / target)) 0 txs m,
      rw (some_target, chunkify_and_add_to_mempool_buffer) refl,
      rest ∙ ap (λ x. all_txs m.buffered_mempool ++ x) whole,
      kept,
      counted',
    )
