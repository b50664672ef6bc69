-- ===== src/Mempool/Pool.antt =====
-- The pool of chunks, and the buffer before it (`Mempool`). A method that holds its locks runs as
-- one step, and the parallel removal is a sum in the order of the chunks. `none` is a division by
-- zero, or a loop out of fuel.
pub mod Buffer
pub mod Join
use speedex.Prelude.{
  take, drop, ℕ, zero, suc, ◌+◌, ◌-◌, ◌*◌, ◌/◌, ◌%◌, ◌^◌, ◌≡◌, min, if◌then◌else◌, ltb, ◌==◌, List,
  [], ◌∷◌, ◌++◌, Option, none, some, length, get_elem?, set,
}
use speedex.Types.{SignedTransaction}
use speedex.Mempool.Vectors.{swap_remove, tally}
use speedex.Mempool.MempoolChunk.{MempoolChunk, new_chunk, join}
use speedex.Mempool.MempoolChunk

pub record Mempool : Type 0 where
  pub mempool : List MempoolChunk
  pub buffered_mempool : List MempoolChunk
  pub mempool_size : ℕ
  pub buffer_size : ℕ
  pub target_chunk_size : ℕ
  pub max_mempool_size : ℕ

abbrev pub size : MempoolChunk → ℕ
size c = length c.txs

-- `fetch_add` and `fetch_sub` of a `uint64_t`.
abbrev pub fetch_add : ℕ → ℕ → ℕ
fetch_add counter n = (counter + n) % 2 ^ 64

abbrev pub fetch_sub : ℕ → ℕ → ℕ
fetch_sub counter n = (counter + 2 ^ 64 - n % 2 ^ 64) % 2 ^ 64

unfoldable pub add_to_mempool_buffer_nolock : List SignedTransaction → Mempool → Mempool
add_to_mempool_buffer_nolock chunk m = record m {
  buffer_size = fetch_add m.buffer_size (length chunk);
  buffered_mempool = m.buffered_mempool ++ new_chunk chunk ∷ [];
}

-- The loop of `chunkify_and_add_to_mempool_buffer`, with the turns left, from turn `i` on.
unfoldable pub chunkify_from : ℕ → ℕ → List SignedTransaction → Mempool → Mempool
chunkify_from zero i txs m = m
chunkify_from (suc turns) i txs m =
    let min_idx = i * m.target_chunk_size in
    let max_idx = min (length txs) ((i + 1) * m.target_chunk_size) in
    chunkify_from turns (suc i) txs
      (add_to_mempool_buffer_nolock (take (max_idx - min_idx) (drop min_idx txs)) m)

unfoldable pub chunkify_and_add_to_mempool_buffer :
    List SignedTransaction → Mempool → Option Mempool
chunkify_and_add_to_mempool_buffer txs m =
    if m.target_chunk_size == 0
    then none
    else some (chunkify_from (suc (length txs / m.target_chunk_size)) 0 txs m)

-- The loop of `push_mempool_buffer_to_mempool`, over the chunks that are buffered.
unfoldable pub push_chunks : List MempoolChunk → Mempool → Mempool
push_chunks [] m = m
push_chunks (c ∷ cs) m =
    let m' : Mempool = record m {
      mempool_size = fetch_add m.mempool_size (size c);
      buffer_size = fetch_sub m.buffer_size (size c);
      mempool = m.mempool ++ c ∷ [];
      buffered_mempool = cs;
    } in
    let rest = push_chunks cs m' in if ltb m.max_mempool_size m.mempool_size then m' else rest

unfoldable pub push_mempool_buffer_to_mempool : Mempool → Mempool
push_mempool_buffer_to_mempool m = push_chunks m.buffered_mempool m

-- The loop of `join_small_chunks`, on fuel, from chunk `i` on. It ends where there is no next chunk.
unfoldable pub join_from : ℕ → ℕ → ℕ → List MempoolChunk → Option (List MempoolChunk)
join_from target_chunk_size zero i chunks = none
join_from target_chunk_size (suc fuel) i chunks = elim (get_elem? chunks (suc i)) [
  | none ↦ some chunks
  | some next ↦ elim (get_elem? chunks i) [
    | none ↦ none
    | some c ↦
        let joined : Option (List MempoolChunk) =
          elim (swap_remove (set chunks i (join c next)) (suc i)) [
            | none ↦ none
            | some left ↦ join_from target_chunk_size fuel i left
          ] in
        let kept = join_from target_chunk_size fuel (suc i) chunks in
        if ltb (size c + size next) target_chunk_size then joined else kept
  ]
]

unfoldable pub join_small_chunks : Mempool → Option Mempool
join_small_chunks m = elim (join_from m.target_chunk_size (suc (length m.mempool)) 0 m.mempool) [
  | none ↦ none
  | some chunks ↦ some (record m { mempool = chunks })
]

unfoldable pub log_tx_removal : ℕ → Mempool → Mempool
log_tx_removal removed_count m = record m { mempool_size = fetch_sub m.mempool_size removed_count }

-- The removal from each chunk, and how many there were.
unfoldable pub remove_all : List MempoolChunk → Option (List MempoolChunk × ℕ)
remove_all [] = some ([], 0)
remove_all (c ∷ cs) = elim (MempoolChunk.remove_confirmed_txs c) [
  | none ↦ none
  | some (c', deleted) ↦ elim (remove_all cs) [
    | none ↦ none
    | some (cs', others) ↦ some (c' ∷ cs', (deleted + others) % 2 ^ 64)
  ]
]

unfoldable pub remove_confirmed_txs : Mempool → Option Mempool
unfolding log_tx_removal
remove_confirmed_txs m = elim (remove_all m.mempool) [
  | none ↦ none
  | some (chunks, deleted) ↦ some (log_tx_removal deleted (record m { mempool = chunks }))
]

-- The loop of `drop_txs`, over the chunks left: these and how many transactions are dropped.
unfoldable pub drop_chunks : ℕ → ℕ → List MempoolChunk → List MempoolChunk × ℕ
drop_chunks num_to_drop dropped [] = ([], dropped)
drop_chunks num_to_drop dropped (c ∷ cs) =
    let rest = drop_chunks num_to_drop (dropped + size c) cs in
    if ltb dropped num_to_drop then rest else (c ∷ cs, dropped)

unfoldable pub drop_txs : ℕ → Mempool → Mempool
unfolding log_tx_removal
drop_txs num_to_drop m =
    let (chunks, dropped) = drop_chunks num_to_drop 0 m.mempool in
    log_tx_removal dropped (record m { mempool = chunks })

-- The counters are the numbers of the transactions.
abbrev pub Counted : Mempool → Type 0
Counted m =
    (m.mempool_size ≡ tally size m.mempool % 2 ^ 64)
    × (m.buffer_size ≡ tally size m.buffered_mempool % 2 ^ 64)
