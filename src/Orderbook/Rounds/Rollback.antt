-- ===== src/Orderbook/Rounds/Rollback.antt =====
-- The rollback of a block puts an orderbook's offers back.
use speedex.Prelude.{
  ℕ, ◌≤◌, ◌<◌, ◌≡◌, refl, ap, subst, ◌∙◌, ltb, false, List, [], ◌∷◌, ◌++◌, Option, none, some, All,
  Option-cases, inl, inr, arith,
}
use speedex.Types.{OfferCategory}
use speedex.FixedPoint.{FractionalAsset}
use speedex.Orderbook.CommitmentChecker.{SingleOrderbookStateCommitment}
use speedex.Orderbook.Interfaces.{OrderbookTrie, OrderbookTrieLaws, Accounts}
use speedex.Orderbook.RoundTrie.{RoundTrie, RoundTrieLaws, find}
use speedex.Orderbook.ClearOffers.{
  OrderbookLmdbCommitmentThunk, ClearingState, process_clear_offers,
}
use speedex.Orderbook.ClearOffers.Splits.{OffersAbove}
use speedex.Orderbook.Rounds.{
  RoundThunk, OrderbookRounds, new_thunk, add_new_thunk_nolock, tentative_commit_for_validation,
  update_top, commit_and_clear, rollback_thunks,
}
use speedex.Orderbook.Rounds.Cleared.{
  RestorableState, RestorableResult, process_clear_offers-RestorableResult,
}
use speedex.Orderbook.Rounds.Thunks.{
  PartialKnown, All-last, LastAdded, added_last, update_top-last, undo_later-last,
}
use speedex.Orderbook.Rounds.Restored.{Fresh, committed_after, merged-unmarked, undo_thunk-restored}

module _ (t : OrderbookTrie) (laws : OrderbookTrieLaws t) (r : RoundTrie t)
    (r_laws : RoundTrieLaws t r) where
  -- A rollback to before the block gives the thunks and, at every key, the offer of `ob`.
  abbrev pub RolledBack : OrderbookRounds t → Option (OrderbookRounds t) → Type 0
  RolledBack ob none = ⊥
  RolledBack ob (some back) =
      (back.thunks ≡ ob.thunks)
      × ((k : ℕ) → find t k back.committed_offers ≡ find t k ob.committed_offers)

  -- The same of the result of a block, where it knows its partly executed offers.
  abbrev Reversible : ℕ → ℕ → OrderbookRounds t → Option (OrderbookRounds t) → Type 0
  Reversible persisted n ob none = Unit
  Reversible persisted n ob (some after) =
      All (λ thunk. PartialKnown n thunk) after.thunks
      → RolledBack ob (rollback_thunks t r persisted n after)

  module _ (a : Accounts) (indeterminate : OrderbookLmdbCommitmentThunk t.Trie)
      (block n persisted : ℕ) (category : OfferCategory) (supply : FractionalAsset)
      (prices : List ℕ) (tax_rate : ℕ) (c : SingleOrderbookStateCommitment) (s : ClearingState t a)
      (ob : OrderbookRounds t) (fresh : Fresh t laws r r_laws ob) where
    abbrev after : ClearingState t a → List (RoundThunk t.Trie) → OrderbookRounds t
    after s' ts = record {
      uncommitted_offers = t.empty;
      committed_offers = s'.committed_offers;
      thunks = ts;
    }

    abbrev thunk : ClearingState t a → RoundThunk t.Trie
    thunk s' = record (new_thunk t r indeterminate block ob) { clearing = s'.thunk }

    -- The rollback of the thunk of a block whose clearing can be undone at every key.
    cleared-RolledBack :
        (s' : ClearingState t a)
        → All (λ th. th.current_block_number ≤ n) ob.thunks
        → n < block
        → persisted ≤ n
        → ((k : ℕ)
            → RestorableState t laws r r_laws a k
                (find t k (committed_after t laws r r_laws ob))
                s')
        → PartialKnown n (thunk s')
        → RolledBack ob (rollback_thunks t r persisted n (after s' (ob.thunks ++ thunk s' ∷ [])))
    unfolding rollback_thunks new_thunk
    cleared-RolledBack s' older later durable ready known =
        let kept : ltb n persisted ≡ false = ground arith in
        rw (kept, undo_later-last t r n (thunk s') ob.thunks s'.committed_offers older later)
          (
            refl,
            λ k.
                undo_thunk-restored t laws r r_laws a indeterminate block ob fresh k s' (ready k)
                  (known later),
          )

    commit_and_clear-Reversible :
        OffersAbove 0 category (t.entries (committed_after t laws r r_laws ob))
        → All (λ th. th.current_block_number ≤ n) ob.thunks
        → n < block
        → persisted ≤ n
        → Reversible persisted n ob
            (commit_and_clear t r a indeterminate block category supply prices tax_rate c s ob)
    unfolding commit_and_clear tentative_commit_for_validation
    commit_and_clear-Reversible offers older later durable =
        let top = new_thunk t r indeterminate block ob in
        elim (Option-cases (add_new_thunk_nolock t r top ob.thunks)) [
          | inl failed ↦ rw (failed, commit_and_clear) tt
          | inr (ts, added) ↦
              let start : ClearingState t a = record s {
                committed_offers = committed_after t laws r r_laws ob;
                thunk = top.clearing;
              } in
              let last =
                subst (λ m. LastAdded t r top ob.thunks m) added (added_last t r top ob.thunks) in
              let ready = λ (k : ℕ).
                process_clear_offers-RestorableResult t laws r r_laws a k category supply prices
                  tax_rate c start offers
                  (merged-unmarked t laws r r_laws a indeterminate block ob fresh k) in
              elim (Option-cases
                (process_clear_offers t a category supply prices tax_rate c start)) [
                  | inl failed ↦ rw (added, failed, commit_and_clear) tt
                  | inr ((c', s'), done) ↦
                      let updated =
                        ap (update_top t r (λ th. record th { clearing = s'.thunk })) last
                        ∙ update_top-last t r _ top ob.thunks in
                      rw (added, done, commit_and_clear)
                        (rw updated λ known.
                          cleared-RolledBack s' older later durable
                            (λ k.
                              subst
                                (λ m.
                                  RestorableResult t laws r r_laws a k
                                    (find t k start.committed_offers) m)
                                done (ready k))
                            (All-last (λ th. PartialKnown n th) ob.thunks (thunk s') known))
                ]
        ]

  -- Take an orderbook whose new offers are unmarked and at their keys, which its committed offers
  -- do not have, and whose offers after the commit stand by increasing key, with amounts above 0
  -- and of its category. If a block of production, after round `n` and after every thunk, commits
  -- and clears it without an error, and if its partly executed offer is not a new one, then the
  -- rollback to `n` throws nothing where no later round is persisted, and leaves the thunks of
  -- before and at every key the offer of before: what was deleted, cleared in full or executed in
  -- part is back, and the new offers are gone.
  pub rollback_thunks-commit_and_clear :
      (a : Accounts) (indeterminate : OrderbookLmdbCommitmentThunk t.Trie) (block n persisted : ℕ)
      (category : OfferCategory) (supply : FractionalAsset) (prices : List ℕ) (tax_rate : ℕ)
      (c : SingleOrderbookStateCommitment) (s : ClearingState t a) (ob result : OrderbookRounds t)
      → Fresh t laws r r_laws ob
      → OffersAbove 0 category (t.entries (committed_after t laws r r_laws ob))
      → All (λ th. th.current_block_number ≤ n) ob.thunks
      → n < block
      → persisted ≤ n
      → commit_and_clear t r a indeterminate block category supply prices tax_rate c s ob
        ≡ some result
      → All (λ th. PartialKnown n th) result.thunks
      → RolledBack ob (rollback_thunks t r persisted n result)
  rollback_thunks-commit_and_clear a indeterminate block n persisted category supply prices tax_rate
        c s ob result fresh offers older later durable done known =
      subst (λ m. Reversible persisted n ob m) done
        (commit_and_clear-Reversible a indeterminate block n persisted category supply prices
          tax_rate c s ob fresh offers older later durable)
        known
