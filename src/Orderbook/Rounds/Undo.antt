-- ===== src/Orderbook/Rounds/Undo.antt =====
-- What the undoing of a thunk does to one key.
use speedex.Prelude.{
  ℕ, ◌≡◌, refl, sym, ap, subst, ◌∙◌, if◌then◌else◌, ◌||◌, ◌&&◌, ◌==◌, Bool, true, false, List, [],
  ◌∷◌, Option, none, some, Bool-cases, Option-cases, inl, inr, ◌⊎◌, arith,
}
use speedex.Types.{Offer}
use speedex.Orderbook.Interfaces.{
  Entries, OrderbookTrie, OrderbookTrieLaws, insert_entry, find_entry,
}
use speedex.Orderbook.RoundTrie.{RoundTrie, RoundTrieLaws, find, Within}
use speedex.Orderbook.ClearOffers.{OrderbookLmdbCommitmentThunk}
use speedex.Orderbook.Rounds.{
  RoundThunk, generate_orderbook_trie_key, insert_all, mark_all, undo_thunk,
}

-- An insertion is what its key finds, and nothing else changes.
pub find_entry-insert_entry :
    (k key : ℕ) (o : Offer) (es : Entries)
    → find_entry k (insert_entry key o es) ≡ (if key == k then some o else find_entry k es)
unfolding find_entry insert_entry
find_entry-insert_entry k key o [] = refl
find_entry-insert_entry k key o ((j, x) ∷ es) =
    let ih = find_entry-insert_entry k key o es in ground (arith, ih)

-- Whether an offer has the key.
abbrev pub has_key : ℕ → List Offer → Bool
has_key k [] = false
has_key k (o ∷ os) = generate_orderbook_trie_key o == k || has_key k os

module _ (t : OrderbookTrie) (laws : OrderbookTrieLaws t) (r : RoundTrie t)
    (r_laws : RoundTrieLaws t r) (k : ℕ) where
  pub find-insert :
      (key : ℕ) (o : Offer) (x : t.Trie)
      → find t k (t.insert key o x) ≡ (if key == k then some o else find t k x)
  find-insert key o x =
      ap (find_entry k) (laws.entries_insert key o x)
      ∙ find_entry-insert_entry k key o (t.entries x)

  -- The entries of a lookup, inserted, put back what the lookup has at their keys.
  pub insert_all_lem :
      (lookup : ℕ → Option Offer) (es : Entries) (x : t.Trie)
      → Within lookup es
      → ((find_entry k es ≡ none) × (find t k (insert_all t r es x) ≡ find t k x))
        ⊎ ((o : Offer) × (find_entry k es ≡ some o) × (find t k (insert_all t r es x) ≡ lookup k))
  unfolding insert_all find_entry
  insert_all_lem lookup [] x h = inl (refl, refl)
  insert_all_lem lookup ((j, o) ∷ es) x h =
      let rest = insert_all_lem lookup es (t.insert j o x) h.1 in
      elim (Bool-cases (j == k)) [
        | inr other ↦ elim rest [
          | inr (p, found, done) ↦ inr (p, rw other found, done)
          | inl (absent, same) ↦ inl (rw other absent, same ∙ find-insert j o x ∙ rw other refl)
        ]
        | inl here ↦ inr (
          o,
          rw here refl,
          elim rest [
            | inr (p, found, done) ↦ done
            | inl (absent, same) ↦
                let same_key : j ≡ k = ground arith in
                same ∙ find-insert j o x ∙ rw here refl ∙ sym h.0 ∙ ap lookup same_key
          ],
        )
      ]

  pub insert_all-marks :
      (es : Entries) (x : t.Trie)
      → r.is_marked x k ≡ false
      → r.is_marked (insert_all t r es x) k ≡ false
  unfolding insert_all
  insert_all-marks [] x h = h
  insert_all-marks ((j, o) ∷ es) x h =
      insert_all-marks es (t.insert j o x) (r_laws.marks_insert k j o x h)

  pub find-mark_all : (os : List Offer) (x : t.Trie) → find t k (mark_all t r os x) ≡ find t k x
  unfolding mark_all
  find-mark_all [] x = refl
  find-mark_all (o ∷ os) x =
      find-mark_all os (r.mark_for_deletion (generate_orderbook_trie_key o) x)
      ∙ r_laws.marked k (generate_orderbook_trie_key o) x

  -- The offers' keys are marked where they have an entry, and no other key is.
  pub unmarked-mark_all :
      (os : List Offer) (x : t.Trie)
      → has_key k os ≡ false
      → r.is_marked x k ≡ false
      → r.is_marked (mark_all t r os x) k ≡ false
  unfolding mark_all
  unmarked-mark_all [] x other h = h
  unmarked-mark_all (o ∷ os) x other h =
      let key = generate_orderbook_trie_key o in
      let unlike : (key == k) ≡ false = ground arith in
      let rest : has_key k os ≡ false = ground arith in
      unmarked-mark_all os (r.mark_for_deletion key x) rest (r_laws.marks_absent k key x unlike ∙ h)

  pub marked-mark_all :
      (os : List Offer) (p : Offer) (x : t.Trie)
      → find t k x ≡ some p
      → (has_key k os || r.is_marked x k) ≡ true
      → r.is_marked (mark_all t r os x) k ≡ true
  unfolding mark_all
  marked-mark_all [] p x found h = h
  marked-mark_all (o ∷ os) p x found h =
      let key = generate_orderbook_trie_key o in
      let still = r_laws.marked k key x ∙ found in
      let next = marked-mark_all os p (r.mark_for_deletion key x) still in
      elim (Bool-cases (key == k)) [
        | inl here ↦
            let same_key : k ≡ key = ground arith in
            let there = subst (λ j. find t j x ≡ some p) same_key found in
            let now = r_laws.marks_mark k key p x there in next (rw (now, here) (ground arith))
        | inr other ↦
            let same = r_laws.marks_absent k key x other in next (rw same (ground (arith, h)))
      ]

  -- Either the thunk's clearing took the entry of `k` in full, or it left it, or executed it in part.
  abbrev pub Restorable : OrderbookLmdbCommitmentThunk t.Trie → t.Trie → Option Offer → Type 0
  Restorable c x before =
      ((c.exists_partial_exec ≡ true)
        × (c.partial_exec_key ≡ k)
        × (before ≡ some c.preexecute_partial_exec_offer))
      ⊎ (((c.exists_partial_exec && c.partial_exec_key == k) ≡ false)
          × (((find t k c.cleared_offers ≡ before) × (find t k x ≡ none))
              ⊎ ((find t k c.cleared_offers ≡ none) × (find t k x ≡ before))))

  after_marks :
      (os : List Offer) (x : t.Trie)
      → (has_key k os ≡ true) ⊎ (r.is_marked x k ≡ false)
      → find t k (r.perform_marked_deletions (mark_all t r os x)).0
        ≡ (if has_key k os then none else find t k x)
  after_marks os x h = r_laws.performed k (mark_all t r os x) ∙ elim (Bool-cases (has_key k os)) [
    | inl new ↦ elim (Option-cases (find t k x)) [
      | inl absent ↦ rw (find-mark_all os x, new, absent) (ground arith)
      | inr (p, found) ↦
          let marked : (has_key k os || r.is_marked x k) ≡ true = ground (arith, new) in
          rw (marked-mark_all os p x found marked, new) refl
    ]
    | inr old ↦ elim h [
      | inl new ↦ ground (arith, old, new)
      | inr unmarked ↦ rw (unmarked-mark_all os x old unmarked, find-mark_all os x, old) refl
    ]
  ]

  after_partial :
      (c : OrderbookLmdbCommitmentThunk t.Trie) (x : t.Trie)
      → (c.exists_partial_exec && c.partial_exec_key == k) ≡ false
      → find t k (
          if c.exists_partial_exec
          then t.insert c.partial_exec_key c.preexecute_partial_exec_offer x
          else x)
        ≡ find t k x
  after_partial c x other = elim (Bool-cases c.exists_partial_exec) [
    | inr whole ↦ rw whole refl
    | inl partial ↦
        let unlike : (c.partial_exec_key == k) ≡ false = ground arith in
        rw partial
          (find-insert c.partial_exec_key c.preexecute_partial_exec_offer x ∙ rw unlike refl)
  ]

  module _ (thunk : RoundThunk t.Trie) (x : t.Trie) where
    abbrev pub deletions_undone : t.Trie
    deletions_undone = insert_all t r thunk.deleted_keys x

    abbrev pub cleaned : t.Trie
    cleaned =
        r.clean_singlechild_nodes thunk.clearing.partial_exec_key thunk.clearing.cleared_offers

    -- The offers that the thunk's block added are gone.
    pub undo_thunk-added :
        has_key k thunk.uncommitted_offers_vec ≡ true
        → (thunk.clearing.exists_partial_exec && thunk.clearing.partial_exec_key == k) ≡ false
        → find t k (undo_thunk t r thunk x) ≡ none
    unfolding undo_thunk
    undo_thunk-added added whole =
        after_partial thunk.clearing _ whole
        ∙ after_marks thunk.uncommitted_offers_vec (r.merge_in deletions_undone cleaned) (inl added)
        ∙ rw added refl

    -- The entry before a partial execution is back.
    pub undo_thunk-partial :
        thunk.clearing.exists_partial_exec ≡ true
        → thunk.clearing.partial_exec_key ≡ k
        → find t k (undo_thunk t r thunk x) ≡ some thunk.clearing.preexecute_partial_exec_offer
    unfolding undo_thunk
    undo_thunk-partial partial same_key =
        let here : (thunk.clearing.partial_exec_key == k) ≡ true = ground arith in
        rw partial (
          find-insert thunk.clearing.partial_exec_key thunk.clearing.preexecute_partial_exec_offer _
          ∙ rw here refl)

    -- A key that no added offer has finds what the first two steps put there.
    pub undo_thunk-kept :
        r.is_marked x k ≡ false
        → r.is_marked thunk.clearing.cleared_offers k ≡ false
        → has_key k thunk.uncommitted_offers_vec ≡ false
        → (thunk.clearing.exists_partial_exec && thunk.clearing.partial_exec_key == k) ≡ false
        → find t k (undo_thunk t r thunk x) ≡ find t k (r.merge_in deletions_undone cleaned)
    unfolding undo_thunk
    undo_thunk-kept unmarked clear_unmarked others whole =
        after_partial thunk.clearing _ whole
        ∙ after_marks thunk.uncommitted_offers_vec (r.merge_in deletions_undone cleaned) (
            inr (
              r_laws.marks_merge k deletions_undone cleaned
                (insert_all-marks thunk.deleted_keys x unmarked)
                (r_laws.marks_clean k thunk.clearing.partial_exec_key thunk.clearing.cleared_offers
                  clear_unmarked)))
        ∙ rw others refl
