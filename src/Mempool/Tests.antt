-- ===== src/Mempool/Tests.antt =====
-- Runs of the pool on transactions that differ in their signatures.
use mathlib.Core.Option
use speedex.Prelude.{
  ℕ, ◌≡◌, refl, true, false, ◌==◌, List, [], ◌∷◌, ◌++◌, none, some, length, arith, map,
}
use speedex.Types.{SignedTransaction}
use speedex.Mempool.Vectors.{swap_remove, tally}
use speedex.Mempool.MempoolChunk.{
  MempoolChunk, new_chunk, remove_from, remove_confirmed_txs, filter_from, filter,
  set_confirmed_txs, join,
}
use speedex.Mempool.MempoolChunk.Removal.{Keeps, unmarked, remove_confirmed_txs-Keeps}
use speedex.Mempool.Pool.{
  Mempool, Counted, chunkify_from, chunkify_and_add_to_mempool_buffer, add_to_mempool_buffer_nolock,
  push_chunks, push_mempool_buffer_to_mempool, join_from, join_small_chunks, drop_chunks, drop_txs,
  log_tx_removal, remove_all,
}
use speedex.Mempool.Pool
use speedex.Mempool.Pool.Join.{Large, of_chunk, join_small_chunks-Joined}
use speedex.Mempool.Pool.Buffer.{
  all_txs, chunkify_and_add_to_mempool_buffer-Chunked, push_mempool_buffer_to_mempool-Same,
}

abbrev tx : ℕ → SignedTransaction
tx n = record {
  transaction = record {
    metadata = record { source_account = 1; sequence_number = n };
    operations = [];
    max_fee = 0;
  };
  signature = n;
}

abbrev flagged : MempoolChunk
flagged = record {
  txs = tx 1 ∷ tx 2 ∷ tx 3 ∷ tx 4 ∷ [];
  confirmed_txs_to_remove = true ∷ false ∷ true ∷ true ∷ [];
}

-- The last one takes the first place before it is removed itself.
flagged_removed :
    remove_confirmed_txs flagged
    ≡ some (record { txs = tx 2 ∷ []; confirmed_txs_to_remove = false ∷ [] }, 3)
unfolding remove_confirmed_txs remove_from swap_remove
flagged_removed = refl

remove_confirmed_txs-Keeps_example :
    Keeps flagged
      (unmarked flagged.txs flagged.confirmed_txs_to_remove)
      (remove_confirmed_txs flagged)
remove_confirmed_txs-Keeps_example = remove_confirmed_txs-Keeps flagged (omega arith) (omega arith)

filtered :
    Option.map (λ r. r.1) (filter (λ t. t.signature == 2) (new_chunk (tx 1 ∷ tx 2 ∷ tx 2 ∷ [])))
    ≡ some 2
unfolding filter filter_from swap_remove
filtered = refl

abbrev pool : Mempool
pool = record {
  mempool = new_chunk (tx 8 ∷ []) ∷ [];
  buffered_mempool = [];
  mempool_size = 1;
  buffer_size = 0;
  target_chunk_size = 2;
  max_mempool_size = 100;
}

pool-Counted : Counted pool
unfolding tally
pool-Counted = (refl, refl)

abbrev incoming : List SignedTransaction
incoming = tx 1 ∷ tx 2 ∷ tx 3 ∷ []

chunkify_and_add_to_mempool_buffer-Chunked_example :
    (m' : Mempool) × (chunkify_and_add_to_mempool_buffer incoming pool ≡ some m')
    × (all_txs m'.buffered_mempool ≡ all_txs pool.buffered_mempool ++ incoming)
    × (m'.mempool ≡ pool.mempool)
    × Counted m'
chunkify_and_add_to_mempool_buffer-Chunked_example =
    chunkify_and_add_to_mempool_buffer-Chunked incoming pool (omega arith) pool-Counted

abbrev buffered : Mempool
buffered = record pool {
  buffered_mempool = new_chunk (tx 1 ∷ tx 2 ∷ []) ∷ new_chunk (tx 3 ∷ []) ∷ [];
  buffer_size = 3;
}

incoming-buffered : chunkify_and_add_to_mempool_buffer incoming pool ≡ some buffered
unfolding chunkify_and_add_to_mempool_buffer chunkify_from add_to_mempool_buffer_nolock
incoming-buffered = refl

buffered-Counted : Counted buffered
unfolding tally
buffered-Counted = (refl, refl)

push_mempool_buffer_to_mempool-Same_example :
    (all_txs (push_mempool_buffer_to_mempool buffered).mempool
        ++ all_txs (push_mempool_buffer_to_mempool buffered).buffered_mempool
      ≡ all_txs buffered.mempool ++ all_txs buffered.buffered_mempool)
    × Counted (push_mempool_buffer_to_mempool buffered)
push_mempool_buffer_to_mempool-Same_example =
    push_mempool_buffer_to_mempool-Same buffered buffered-Counted

abbrev three_chunks : Mempool
three_chunks = record pool {
  mempool = new_chunk (tx 1 ∷ []) ∷ new_chunk (tx 2 ∷ tx 3 ∷ []) ∷ new_chunk (tx 4 ∷ []) ∷ [];
  target_chunk_size = 4;
}

-- Of chunks with 1, 2 and 1 transactions and a target of 4, the first two are joined.
joined :
    Option.map (λ m. map (λ c. length c.txs) m.mempool) (join_small_chunks three_chunks)
    ≡ some (3 ∷ 1 ∷ [])
unfolding join_small_chunks join_from join swap_remove
joined = refl

dropped : (drop_txs 2 (push_mempool_buffer_to_mempool buffered)).mempool_size ≡ 1
unfolding drop_txs drop_chunks push_mempool_buffer_to_mempool push_chunks
dropped = refl

pool_removed :
    Option.map
      (λ m. m.mempool_size)
      (Pool.remove_confirmed_txs (record pool { mempool = flagged ∷ []; mempool_size = 4 }))
    ≡ some 1
unfolding Pool.remove_confirmed_txs remove_all remove_confirmed_txs remove_from swap_remove
pool_removed = refl

set_flags_mismatch : set_confirmed_txs (true ∷ []) (new_chunk incoming) ≡ none
unfolding set_confirmed_txs
set_flags_mismatch = refl

join_small_chunks-Joined_example :
    (m' : Mempool) × (join_small_chunks three_chunks ≡ some m')
    × Large 4 m'.mempool
    × ((f : SignedTransaction → ℕ)
        → tally (of_chunk f) m'.mempool ≡ tally (of_chunk f) three_chunks.mempool)
join_small_chunks-Joined_example = join_small_chunks-Joined three_chunks
