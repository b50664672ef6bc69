-- ===== src/Orderbook/Rounds.antt =====
-- The rounds of an orderbook: the commit of a block's new offers and deletions, the thunk that
-- records them, and its undoing (orderbook/orderbook.cc, orderbook/thunk.h, orderbook/lmdb.h and
-- orderbook/typedefs.h). Locks and messages are left out.
pub mod Undo
pub mod Cleared
pub mod Thunks
pub mod Restored
pub mod Rollback
mod Tests
use mathlib.Core.Option
use speedex.Prelude.{
  ℕ, ◌+◌, ◌*◌, ◌%◌, ◌^◌, if◌then◌else◌, ltb, List, [], ◌∷◌, ◌++◌, Option, none, some, map,
}
use speedex.Prelude.Int.{negsuc}
use speedex.Types.{Offer, OfferCategory}
use speedex.FixedPoint.{FractionalAsset}
use speedex.Orderbook.CommitmentChecker.{SingleOrderbookStateCommitment}
use speedex.Orderbook.Interfaces.{Entries, OrderbookTrie, Accounts}
use speedex.Orderbook.RoundTrie.{RoundTrie}
use speedex.Orderbook.ClearOffers.{
  OrderbookLmdbCommitmentThunk, ClearingState, process_clear_offers,
}

-- Price, owner and offer id, big-endian in 6, 8 and 8 bytes: the number that the bytes stand for.
unfoldable pub generate_orderbook_trie_key : Offer → ℕ
generate_orderbook_trie_key offer =
    offer.min_price % 2 ^ 48 * 2 ^ 128 + offer.owner * 2 ^ 64 + offer.offer_id

-- A thunk: what the clearing sets of it, and what the commit does.
pub record RoundThunk (Trie : Type 0) : Type 0 where
  pub clearing : OrderbookLmdbCommitmentThunk Trie
  pub uncommitted_offers_vec : List Offer
  pub deleted_keys : Entries
  pub current_block_number : ℕ

-- The thunks stand from the oldest to the top one.
pub record OrderbookRounds (t : OrderbookTrie) : Type 0 where
  pub uncommitted_offers : t.Trie
  pub committed_offers : t.Trie
  pub thunks : List (RoundThunk t.Trie)

module _ (t : OrderbookTrie) (r : RoundTrie t) where
  unfoldable pub add_offers : t.Trie → OrderbookRounds t → OrderbookRounds t
  add_offers offers ob = record ob { uncommitted_offers = r.merge_in ob.uncommitted_offers offers }

  -- The new thunk. Its partly executed offer and whether there is one are not initialised: they
  -- are those of `indeterminate`.
  unfoldable pub new_thunk :
      OrderbookLmdbCommitmentThunk t.Trie → ℕ → OrderbookRounds t → RoundThunk t.Trie
  new_thunk indeterminate current_block_number ob = record {
    clearing = record indeterminate { partial_exec_amount = negsuc 0; cleared_offers = t.empty };
    uncommitted_offers_vec = map (λ entry. entry.1) (t.entries ob.uncommitted_offers);
    deleted_keys = (r.perform_marked_deletions ob.committed_offers).1;
    current_block_number = current_block_number;
  }

  -- `none` is the thrown error: a thunk of this block or of a later one is there already.
  unfoldable pub add_new_thunk_nolock :
      RoundThunk t.Trie → List (RoundThunk t.Trie) → Option (List (RoundThunk t.Trie))
  add_new_thunk_nolock thunk [] = some (thunk ∷ [])
  add_new_thunk_nolock thunk (top ∷ []) =
      if ltb thunk.current_block_number ((top.current_block_number + 1) % 2 ^ 64)
      then none
      else some (top ∷ thunk ∷ [])
  add_new_thunk_nolock thunk (older ∷ next ∷ thunks) =
      Option.map (λ rest. older ∷ rest) (add_new_thunk_nolock thunk (next ∷ thunks))

  unfoldable pub tentative_commit_for_validation :
      OrderbookLmdbCommitmentThunk t.Trie → ℕ → OrderbookRounds t → Option (OrderbookRounds t)
  tentative_commit_for_validation indeterminate current_block_number ob =
      elim (add_new_thunk_nolock (new_thunk indeterminate current_block_number ob) ob.thunks) [
        | none ↦ none
        | some thunks ↦ some (record {
          uncommitted_offers = t.empty;
          committed_offers =
              r.merge_in (r.perform_marked_deletions ob.committed_offers).0 ob.uncommitted_offers;
          thunks = thunks;
        })
      ]

  -- A change of the top thunk, through the reference to it.
  unfoldable pub update_top :
      (RoundThunk t.Trie → RoundThunk t.Trie) → List (RoundThunk t.Trie) → List (RoundThunk t.Trie)
  update_top f [] = []
  update_top f (thunk ∷ []) = f thunk ∷ []
  update_top f (older ∷ next ∷ thunks) = older ∷ update_top f (next ∷ thunks)

  -- A block of production: the commit, and the clearing of the offers.
  unfoldable pub commit_and_clear :
      (a : Accounts)
      → OrderbookLmdbCommitmentThunk t.Trie
      → ℕ
      → OfferCategory
      → FractionalAsset
      → List ℕ
      → ℕ
      → SingleOrderbookStateCommitment
      → ClearingState t a
      → OrderbookRounds t
      → Option (OrderbookRounds t)
  commit_and_clear a indeterminate block category supply prices tax_rate c s ob =
      elim (tentative_commit_for_validation indeterminate block ob) [
        | none ↦ none
        | some next ↦
            elim (process_clear_offers t a category supply prices tax_rate c (record s {
              committed_offers = next.committed_offers;
              thunk = (new_thunk indeterminate block ob).clearing;
            })) [
              | none ↦ none
              | some (c', s') ↦ some (record next {
                committed_offers = s'.committed_offers;
                thunks = update_top (λ thunk. record thunk { clearing = s'.thunk }) next.thunks;
              })
            ]
      ]

  unfoldable pub insert_all : Entries → t.Trie → t.Trie
  insert_all [] x = x
  insert_all ((key, offer) ∷ es) x = insert_all es (t.insert key offer x)

  unfoldable pub mark_all : List Offer → t.Trie → t.Trie
  mark_all [] x = x
  mark_all (offer ∷ os) x = mark_all os (r.mark_for_deletion (generate_orderbook_trie_key offer) x)

  unfoldable pub undo_thunk : RoundThunk t.Trie → t.Trie → t.Trie
  undo_thunk thunk committed_offers =
      let c = thunk.clearing in
      let deletions_undone = insert_all thunk.deleted_keys committed_offers in
      let clearing_undone =
        r.merge_in deletions_undone
          (r.clean_singlechild_nodes c.partial_exec_key c.cleared_offers) in
      let marked = mark_all thunk.uncommitted_offers_vec clearing_undone in
      let additions_undone = (r.perform_marked_deletions marked).0 in
      if c.exists_partial_exec
      then t.insert c.partial_exec_key c.preexecute_partial_exec_offer additions_undone
      else additions_undone

  -- The thunks of later blocks are undone and erased, in the order of the vector.
  unfoldable pub undo_later :
      ℕ → List (RoundThunk t.Trie) → t.Trie → List (RoundThunk t.Trie) × t.Trie
  undo_later n [] x = ([], x)
  undo_later n (thunk ∷ thunks) x =
      let later = ltb n thunk.current_block_number in
      let (kept, y) = undo_later n thunks (if later then undo_thunk thunk x else x) in
      (if later then kept else thunk ∷ kept, y)

  -- `none` is the thrown error.
  unfoldable pub rollback_thunks : ℕ → ℕ → OrderbookRounds t → Option (OrderbookRounds t)
  rollback_thunks persisted_round current_block_number ob =
      let (kept, x) = undo_later current_block_number ob.thunks ob.committed_offers in
      if ltb current_block_number persisted_round
      then none
      else some (record ob { committed_offers = x; thunks = kept })
