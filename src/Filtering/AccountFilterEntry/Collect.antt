-- ===== src/Filtering/AccountFilterEntry/Collect.antt =====
-- How an entry collects the transactions of its account: `add_tx`, and `merge_in` of the entry that
-- another thread collected (filtering/account_filter_entry.cc).
use speedex.Prelude.{
  ℕ, Bool, true, false, if◌then◌else◌, leb, ltb, ◌==◌, ◌||◌, ◌&&◌, not, Option, none, some, [], ◌∷◌,
  min,
}
use speedex.Prelude.Dict.{Dict, lookup}
use speedex.Types.{SignedTransaction}
use speedex.MemoryDatabase.UserAccount.{UserAccount}
use speedex.Filtering.AccountFilterEntry.{
  AccountFilterEntry, uint64_max, found_error, log_reqs_invalid, log_bad_duplicate,
}

-- `emplace` of a `std::map`: in the order of the keys, and nothing where the key is there.
unfoldable pub emplace : ℕ → SignedTransaction → Dict SignedTransaction → Dict SignedTransaction
emplace k v [] = (k, v) ∷ []
emplace k v ((j, w) ∷ d) =
    let rest = emplace k v d in
    if j == k then (j, w) ∷ d else if ltb k j then (k, v) ∷ (j, w) ∷ d else (j, w) ∷ rest

-- `merge` of two maps: the first takes the keys that it does not have, and the second keeps the rest.
unfoldable pub merge_txs :
    Dict SignedTransaction
    → Dict SignedTransaction
    → Dict SignedTransaction × Dict SignedTransaction
unfolding emplace
merge_txs txs [] = (txs, [])
merge_txs txs ((seqno, tx) ∷ others) =
    let (txs', left) = merge_txs txs others in
    elim (lookup seqno txs) [
      | none ↦ (emplace seqno tx txs', left)
      | some tx_old ↦ (txs', (seqno, tx) ∷ left)
    ]

module _ (lookup_user : ℕ → Option UserAccount) where
  module _ (same_tx : SignedTransaction → SignedTransaction → Bool) where
    -- `add_tx` from the test of the sequence number on.
    unfoldable pub add_numbered : AccountFilterEntry → SignedTransaction → AccountFilterEntry
    unfolding emplace
    add_numbered e tx =
        let seqno = tx.transaction.metadata.sequence_number in
        if leb seqno e.min_seq_no then e else elim (lookup seqno e.txs) [
          | none ↦ record e { txs = emplace seqno tx e.txs }
          | some tx_old ↦
              if not (same_tx tx_old tx)
              then log_bad_duplicate e
              else record e { txs = emplace seqno tx e.txs }
        ]

    unfoldable pub add_tx : AccountFilterEntry → SignedTransaction → AccountFilterEntry
    unfolding found_error add_numbered
    add_tx e tx =
        if found_error e
        then e
        else if e.min_seq_no == uint64_max
        then (elim (lookup_user e.account) [
          | none ↦ log_reqs_invalid e
          | some acc ↦ add_numbered (record e { min_seq_no = acc.seq_tracker.last_committed_id }) tx
        ])
        else add_numbered e tx

module _ (same_tx : SignedTransaction → SignedTransaction → Bool) where
  -- The loop of `merge_in` over the transactions that the other entry is left with.
  unfoldable pub all_same : Dict SignedTransaction → Dict SignedTransaction → Option Bool
  all_same txs [] = some true
  all_same txs ((seqno, tx) ∷ left) =
      let rest = all_same txs left in
      elim (lookup seqno txs) [
        | none ↦ none
        | some tx_old ↦ if not (same_tx tx_old tx) then some false else rest
      ]

  -- `merge_in` from `txs.merge` on.
  unfoldable pub merge_in_txs :
      AccountFilterEntry → AccountFilterEntry → Option (AccountFilterEntry × AccountFilterEntry)
  unfolding merge_txs all_same
  merge_in_txs e other =
      let (txs, left) = merge_txs e.txs other.txs in
      let e' = record e { txs = txs } in
      let other' = record other { txs = left } in
      elim (all_same txs left) [
        | none ↦ none
        | some false ↦ some (log_bad_duplicate e', other')
        | some true ↦ some (e', other')
      ]

  unfoldable pub merge_in :
      AccountFilterEntry → AccountFilterEntry → Option (AccountFilterEntry × AccountFilterEntry)
  unfolding found_error merge_in_txs
  merge_in e other =
      let e' = record e {
        min_seq_no = min e.min_seq_no other.min_seq_no;
        found_bad_duplicate = e.found_bad_duplicate || other.found_bad_duplicate;
        found_invalid_reqs = e.found_invalid_reqs || other.found_invalid_reqs;
        found_account_nexist = e.found_account_nexist || other.found_account_nexist;
        overflow_req = e.overflow_req || other.overflow_req;
      } in
      if found_error e'
      then some (e', other)
      else if not other.initialized
      then none
      else if e.initialized && not (other.account == e.account)
      then none
      else if other.reqs_computed || e.reqs_computed
      then none
      else if e.checked_reqs_cached
      then none
      else merge_in_txs (record e' { initialized = true }) other
