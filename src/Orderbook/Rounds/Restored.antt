-- ===== src/Orderbook/Rounds/Restored.antt =====
-- What a key has after the commit of a block, its clearing and the undoing of its thunk.
use speedex.Prelude.{
  ℕ, ◌≡◌, refl, sym, subst, ◌∙◌, ◌&&◌, ◌==◌, true, false, none, some, map, Bool-cases, inl, inr,
  arith, ◌⊎◌,
}
use speedex.Types.{Offer}
use speedex.Orderbook.Interfaces.{OrderbookTrie, OrderbookTrieLaws, Accounts, find_entry}
use speedex.Orderbook.RoundTrie.{RoundTrie, RoundTrieLaws, find}
use speedex.Orderbook.ClearOffers.{OrderbookLmdbCommitmentThunk, ClearingState}
use speedex.Orderbook.Rounds.{RoundThunk, OrderbookRounds, new_thunk, undo_thunk}
use speedex.Orderbook.Rounds.Undo.{
  has_key, insert_all_lem, undo_thunk-added, undo_thunk-partial, undo_thunk-kept, deletions_undone,
  cleaned,
}
use speedex.Orderbook.Rounds.Cleared.{RestorableState}
use speedex.Orderbook.Rounds.Thunks.{Keyed, not_new, is_new}

module _ (t : OrderbookTrie) (laws : OrderbookTrieLaws t) (r : RoundTrie t)
    (r_laws : RoundTrieLaws t r) where
  -- The orderbook before a block, and the new offers: at their keys, which the orderbook does not
  -- have, and without marks.
  abbrev pub Fresh : OrderbookRounds t → Type 0
  Fresh ob =
      Keyed (t.entries ob.uncommitted_offers)
      × ((k : ℕ) (o : Offer)
          → find t k ob.uncommitted_offers ≡ some o
          → find t k ob.committed_offers ≡ none)
      × ((k : ℕ) → r.is_marked ob.uncommitted_offers k ≡ false)

  -- The offers after the commit.
  abbrev pub committed_after : OrderbookRounds t → t.Trie
  committed_after ob =
      r.merge_in (r.perform_marked_deletions ob.committed_offers).0 ob.uncommitted_offers

  module _ (a : Accounts) (indeterminate : OrderbookLmdbCommitmentThunk t.Trie) (block : ℕ)
      (ob : OrderbookRounds t) (fresh : Fresh ob) (k : ℕ) where
    abbrev kept : t.Trie
    kept = (r.perform_marked_deletions ob.committed_offers).0

    abbrev merged : t.Trie
    merged = committed_after ob

    pub merged-unmarked : r.is_marked merged k ≡ false
    merged-unmarked =
        r_laws.marks_merge k kept ob.uncommitted_offers
          (r_laws.marks_performed k ob.committed_offers) (fresh.2 k)

    -- A new offer.
    merged-new : (o : Offer) → find t k ob.uncommitted_offers ≡ some o → find t k merged ≡ some o
    merged-new o new =
        let before = fresh.1 k o new in
        let gone : find t k kept ≡ none =
          r_laws.performed k ob.committed_offers ∙ rw before (ground arith) in
        r_laws.merged_right k kept ob.uncommitted_offers gone ∙ new

    -- Any other key: either its entry was deleted and stands in the thunk, or it is still there.
    merged-old :
        find t k ob.uncommitted_offers ≡ none
        → ((find t k merged ≡ none)
            × (find_entry k (new_thunk t r indeterminate block ob).deleted_keys
                ≡ find t k ob.committed_offers))
          ⊎ ((find t k merged ≡ find t k ob.committed_offers)
              × (find_entry k (new_thunk t r indeterminate block ob).deleted_keys ≡ none))
    unfolding new_thunk
    merged-old old =
        let same = r_laws.merged_left k kept ob.uncommitted_offers old in
        let left = r_laws.performed k ob.committed_offers in
        let listed = r_laws.accumulated k ob.committed_offers in
        elim (Bool-cases (r.is_marked ob.committed_offers k)) [
          | inl doomed ↦ inl (same ∙ left ∙ rw doomed refl, listed ∙ rw doomed refl)
          | inr stays ↦ inr (same ∙ left ∙ rw stays refl, listed ∙ rw stays refl)
        ]

    -- The thunk after the clearing.
    abbrev pub cleared_thunk : ClearingState t a → RoundThunk t.Trie
    cleared_thunk s = record (new_thunk t r indeterminate block ob) { clearing = s.thunk }

    module _ (s : ClearingState t a)
        (ready : RestorableState t laws r r_laws a k (find t k merged) s) where
      abbrev undone : t.Trie
      undone = deletions_undone t laws r r_laws k (cleared_thunk s) s.committed_offers

      abbrev clean : t.Trie
      clean = cleaned t laws r r_laws k (cleared_thunk s) s.committed_offers

      -- What the first two steps of the undoing put at the key of an offer that is not new.
      merge-restored :
          find t k ob.uncommitted_offers ≡ none
          → (((find t k s.thunk.cleared_offers ≡ find t k merged)
                × (find t k s.committed_offers ≡ none))
              ⊎ ((find t k s.thunk.cleared_offers ≡ none)
                  × (find t k s.committed_offers ≡ find t k merged)))
          → find t k (r.merge_in undone clean) ≡ find t k ob.committed_offers
      unfolding new_thunk
      merge-restored old side =
          let same_clean = r_laws.cleaned k s.thunk.partial_exec_key s.thunk.cleared_offers in
          let inserted =
            insert_all_lem t laws r r_laws k (λ j. find t j ob.committed_offers)
              (new_thunk t r indeterminate block ob).deleted_keys s.committed_offers
              (r_laws.accumulated_within ob.committed_offers) in
          elim (merged-old old) [
            | inl (gone, listed) ↦
                let none_taken : find t k clean ≡ none =
                  same_clean
                  ∙ elim side [ inl (taken, left) ↦ taken ∙ gone | inr (taken, left) ↦ taken ] in
                r_laws.merged_left k undone clean none_taken ∙ elim inserted [
                  | inr (o, found, done) ↦ done
                  | inl (absent, same) ↦ same ∙ elim side [
                    | inl (taken, left) ↦ left ∙ sym absent ∙ listed
                    | inr (taken, left) ↦ left ∙ gone ∙ sym absent ∙ listed
                  ]
                ]
            | inr (still, unlisted) ↦
                let same : find t k undone ≡ find t k s.committed_offers = elim inserted [
                  | inl (absent, same) ↦ same
                  | inr (o, found, done) ↦ ground (arith, found, unlisted)
                ] in
                elim side [
                  | inl (taken, left) ↦
                      r_laws.merged_right k undone clean (same ∙ left) ∙ same_clean ∙ taken ∙ still
                  | inr (taken, left) ↦
                      r_laws.merged_left k undone clean (same_clean ∙ taken) ∙ same ∙ left ∙ still
                ]
          ]

      pub undo_thunk-restored :
          (s.thunk.exists_partial_exec ≡ true
            → has_key s.thunk.partial_exec_key
                (new_thunk t r indeterminate block ob).uncommitted_offers_vec
              ≡ false)
          → find t k (undo_thunk t r (cleared_thunk s) s.committed_offers)
            ≡ find t k ob.committed_offers
      unfolding new_thunk
      undo_thunk-restored known =
          let vec = map (λ e. e.1) (t.entries ob.uncommitted_offers) in
          elim (Bool-cases (has_key k vec)) [
            | inl new ↦
                let (o, found) = is_new k (t.entries ob.uncommitted_offers) fresh.0 new in
                let whole : (s.thunk.exists_partial_exec && s.thunk.partial_exec_key == k) ≡ false =
                  elim (Bool-cases s.thunk.exists_partial_exec) [
                    | inr none_executed ↦ rw none_executed refl
                    | inl partial ↦ elim (Bool-cases (s.thunk.partial_exec_key == k)) [
                      | inr unlike ↦ rw (partial, unlike) refl
                      | inl here ↦
                          let same_key : s.thunk.partial_exec_key ≡ k = ground arith in
                          let absent =
                            subst (λ j. has_key j vec ≡ false) same_key (known partial) in
                          ground (arith, absent, new)
                    ]
                  ] in
                undo_thunk-added t laws r r_laws k (cleared_thunk s) s.committed_offers new whole
                ∙ sym (fresh.1 k o found)
            | inr other ↦
                let old = not_new k (t.entries ob.uncommitted_offers) fresh.0 other in
                elim ready.0 [
                  | inl (partial, same_key, before) ↦
                      undo_thunk-partial t laws r r_laws k (cleared_thunk s) s.committed_offers
                        partial same_key
                      ∙ sym before
                      ∙ elim (merged-old old) [
                        | inl (gone, listed) ↦ ground (arith, gone, before)
                        | inr (still, unlisted) ↦ still
                      ]
                  | inr (whole, side) ↦
                      undo_thunk-kept t laws r r_laws k (cleared_thunk s) s.committed_offers ready.1
                        ready.2 other whole
                      ∙ merge-restored old side
                ]
          ]
