-- ===== src/Mempool/MempoolChunk.antt =====
-- A chunk of the pool: transactions, and flags for those to remove (`MempoolChunk`). A loop runs on
-- fuel; `none` is an access outside a vector, or a thrown error.
pub mod Removal
use speedex.Prelude.{
  ℕ, zero, suc, ◌+◌, ◌%◌, ◌^◌, Bool, true, false, if◌then◌else◌, ◌==◌, List, [], ◌∷◌, ◌++◌, Option,
  none, some, length, get_elem?,
}
use speedex.Types.{SignedTransaction}
use speedex.Mempool.Vectors.{swap_remove}

pub record MempoolChunk : Type 0 where
  pub txs : List SignedTransaction
  pub confirmed_txs_to_remove : List Bool

abbrev pub new_chunk : List SignedTransaction → MempoolChunk
new_chunk txs = record { txs = txs; confirmed_txs_to_remove = [] }

unfoldable pub set_confirmed_txs : List Bool → MempoolChunk → Option MempoolChunk
set_confirmed_txs bitmap c =
    if length bitmap == length c.txs
    then some (record c { confirmed_txs_to_remove = bitmap })
    else none

-- One removal of `remove_confirmed_txs`.
unfoldable pub remove_at : ℕ → MempoolChunk → Option MempoolChunk
remove_at i c = elim (get_elem? c.txs i) [
  | none ↦ none
  | some tx ↦ elim (swap_remove c.txs i) [
    | none ↦ none
    | some txs ↦ elim (swap_remove c.confirmed_txs_to_remove i) [
      | none ↦ none
      | some flags ↦ some (record { txs = txs; confirmed_txs_to_remove = flags })
    ]
  ]
]

-- The loop of `remove_confirmed_txs`. It ends where no flag stands at `i`.
unfoldable pub remove_from : ℕ → ℕ → MempoolChunk → ℕ → Option (MempoolChunk × ℕ)
unfolding remove_at
remove_from zero i c num_removed = none
remove_from (suc fuel) i c num_removed = elim (get_elem? c.confirmed_txs_to_remove i) [
  | none ↦ some (c, num_removed)
  | some true ↦ elim (remove_at i c) [
    | none ↦ none
    | some c' ↦ remove_from fuel i c' ((num_removed + 1) % 2 ^ 64)
  ]
  | some false ↦ remove_from fuel (suc i) c num_removed
]

unfoldable pub remove_confirmed_txs : MempoolChunk → Option (MempoolChunk × ℕ)
remove_confirmed_txs c = remove_from (suc (length c.confirmed_txs_to_remove)) 0 c 0

-- The loop of `filter`, for a test that is true of what is removed.
unfoldable pub filter_from :
    (SignedTransaction → Bool) → ℕ → ℕ → MempoolChunk → ℕ → Option (MempoolChunk × ℕ)
filter_from check_transaction zero i c num_removed = none
filter_from check_transaction (suc fuel) i c num_removed = elim (get_elem? c.txs i) [
  | none ↦ some (c, num_removed)
  | some tx ↦
      let removed : Option (MempoolChunk × ℕ) = elim (swap_remove c.txs i) [
        | none ↦ none
        | some txs ↦
            filter_from check_transaction fuel i (record c { txs = txs })
              ((num_removed + 1) % 2 ^ 64)
      ] in
      let kept = filter_from check_transaction fuel (suc i) c num_removed in
      if check_transaction tx then removed else kept
]

unfoldable pub filter : (SignedTransaction → Bool) → MempoolChunk → Option (MempoolChunk × ℕ)
filter check_transaction c = filter_from check_transaction (suc (length c.txs)) 0 c 0

unfoldable pub join : MempoolChunk → MempoolChunk → MempoolChunk
join c other = record {
  txs = c.txs ++ other.txs;
  confirmed_txs_to_remove = c.confirmed_txs_to_remove ++ other.confirmed_txs_to_remove;
}
