-- ===== src/Orderbook/Rounds/Cleared.antt =====
-- What the clearing of an orderbook leaves of one key: enough to undo it.
use speedex.Prelude.{
  ℕ, ◌+◌, ◌-◌, ◌%◌, ◌^◌, ◌≡◌, refl, sym, ap, subst, ◌∙◌, ◌==◌, true, false, leb, ltb, List, [], ◌∷◌,
  Option, none, some, get_or, Bool-cases, Option-cases, inl, inr, ◌⊎◌, arith,
}
use speedex.Prelude.Int.{ℤ, to_uint64}
use speedex.Types.{Offer, OfferCategory}
use speedex.FixedPoint.{FractionalAsset, from_integral, minus, floor, same_value}
use speedex.Orderbook.Clearing.{clear_offer_partial}
use speedex.Orderbook.CommitmentChecker.{SingleOrderbookStateCommitment}
use speedex.Orderbook.Interfaces.{
  Entries, OrderbookTrie, OrderbookTrieLaws, Accounts, find_entry, delete_entry, split_entries,
}
use speedex.Orderbook.RoundTrie.{RoundTrie, RoundTrieLaws, find}
use speedex.Orderbook.ClearOffers.{
  ClearingState, clear_all, put_back, set_partial_exec, process_partial, process_clear_offers,
}
use speedex.Orderbook.ClearOffers.Splits.{OffersAbove, absent}
use speedex.Orderbook.Rounds.Undo.{Restorable, find-insert}

pub find_entry-delete_entry :
    (k key : ℕ) (es : Entries)
    → (key == k) ≡ false
    → find_entry k (delete_entry key es) ≡ find_entry k es
unfolding find_entry delete_entry
find_entry-delete_entry k key [] other = refl
find_entry-delete_entry k key ((j, o) ∷ es) other =
    let ih = find_entry-delete_entry k key es other in ground (arith, ih)

-- One side of a split has the entry, and the other one has none.
abbrev pub OneSide : (taken left before : Option Offer) → Type 0
OneSide taken left before = ((taken ≡ before) × (left ≡ none)) ⊎ ((taken ≡ none) × (left ≡ before))

pub split_entries-OneSide :
    (category : OfferCategory) (k j endow : ℕ) (es : Entries)
    → OffersAbove j category es
    → OneSide
        (find_entry k (split_entries endow es).0)
        (find_entry k (split_entries endow es).1)
        (find_entry k es)
unfolding split_entries find_entry
split_entries-OneSide category k j endow [] h = inl (refl, refl)
split_entries-OneSide category k j endow ((i, o) ∷ es) h =
    let rest = split_entries-OneSide category k i (endow - o.amount) es h.3 in
    elim (Bool-cases (leb o.amount endow)) [
      | inr more ↦ rw more (inr (refl, refl))
      | inl fits ↦ elim (Bool-cases (i == k)) [
        | inr other ↦ rw (fits, other) rest
        | inl here ↦
            let missing = (absent category i k es (ground arith) h.3).0 in
            rw (fits, here)
              (inl
                (refl, elim rest [ inl (taken, left) ↦ left | inr (taken, left) ↦ left ∙ missing ]))
      ]
    ]

module _ (t : OrderbookTrie) (laws : OrderbookTrieLaws t) (r : RoundTrie t)
    (r_laws : RoundTrieLaws t r) (a : Accounts) (k : ℕ) where
  -- The state can be undone to `before` at the key, and has no mark on it.
  abbrev pub RestorableState : Option Offer → ClearingState t a → Type 0
  RestorableState before s =
      Restorable t laws r r_laws k s.thunk s.committed_offers before
      × (r.is_marked s.committed_offers k ≡ false)
      × (r.is_marked s.thunk.cleared_offers k ≡ false)

  abbrev pub RestorableResult :
      Option Offer → Option (SingleOrderbookStateCommitment × ClearingState t a) → Type 0
  RestorableResult before none = Unit
  RestorableResult before (some (c, s)) = RestorableState before s

  put_back-RestorableState :
      (before : Option Offer) (o : Offer) (x : ℤ) (s : ClearingState t a)
      → s.thunk.exists_partial_exec ≡ true
      → RestorableState before s
      → RestorableState before (put_back t a s.thunk.partial_exec_key o x s)
  unfolding put_back
  put_back-RestorableState before o x s partial (how, unmarked, cleared_unmarked) =
      elim (Bool-cases ((o.amount + 2 ^ 64 - to_uint64 x) % 2 ^ 64 == 0)) [
        | inl nothing ↦ rw nothing (how, unmarked, cleared_unmarked)
        | inr more ↦
            let o' : Offer = record o { amount = (o.amount + 2 ^ 64 - to_uint64 x) % 2 ^ 64 } in
            rw more (
              elim how [
                | inl executed ↦ inl executed
                | inr (other, side) ↦
                    let unlike : (s.thunk.partial_exec_key == k) ≡ false = ground (arith, other) in
                    let same =
                      find-insert t laws r r_laws k s.thunk.partial_exec_key o' s.committed_offers
                      ∙ rw unlike refl in
                    inr (
                      other,
                      elim side [
                        | inl (taken, left) ↦ inl (taken, same ∙ left)
                        | inr (taken, left) ↦ inr (taken, same ∙ left)
                      ],
                    )
              ],
              r_laws.marks_insert k s.thunk.partial_exec_key o' s.committed_offers unmarked,
              cleared_unmarked,
            )
      ]

  -- The deletion of the lowest offer that is left, for a partial execution.
  module _ (before : Option Offer) (key : ℕ) (offer : Offer) (sell_amount : ℤ) (db : a.Db)
      (log : a.Log) (s : ClearingState t a) where
    abbrev executed : ClearingState t a
    executed = record s {
      committed_offers = (t.perform_deletion key s.committed_offers).1;
      thunk = set_partial_exec t a key sell_amount offer s.thunk;
      db = db;
      log = log;
    }

    executed-RestorableState :
        find t key s.committed_offers ≡ some offer
        → OneSide (find t k s.thunk.cleared_offers) (find t k s.committed_offers) before
        → r.is_marked s.committed_offers k ≡ false
        → r.is_marked s.thunk.cleared_offers k ≡ false
        → RestorableState before executed
    executed-RestorableState found side unmarked cleared_unmarked = (
      elim (Bool-cases (key == k)) [
        | inl here ↦
            let same_key : key ≡ k = ground arith in
            let there = subst (λ j. find t j s.committed_offers ≡ some offer) same_key found in
            inl (
              refl,
              same_key,
              elim side [
                | inl (taken, left) ↦ ground (arith, left, there)
                | inr (taken, left) ↦ sym left ∙ there
              ],
            )
        | inr other ↦
            let same =
              ap (find_entry k) (laws.entries_deletion key s.committed_offers)
              ∙ find_entry-delete_entry k key (t.entries s.committed_offers) other in
            inr (
              other,
              elim side [
                | inl (taken, left) ↦ inl (taken, same ∙ left)
                | inr (taken, left) ↦ inr (taken, same ∙ left)
              ],
            )
      ],
      r_laws.marks_deletion k key s.committed_offers unmarked,
      cleared_unmarked,
    )

  process_partial-RestorableResult :
      (before : Option Offer) (key : ℕ) (remaining : FractionalAsset)
      (sell_price buy_price tax_rate : ℕ) (c : SingleOrderbookStateCommitment)
      (s : ClearingState t a)
      → OneSide (find t k s.thunk.cleared_offers) (find t k s.committed_offers) before
      → r.is_marked s.committed_offers k ≡ false
      → r.is_marked s.thunk.cleared_offers k ≡ false
      → RestorableResult before
          (process_partial t a key remaining sell_price buy_price tax_rate c s)
  unfolding process_partial
  process_partial-RestorableResult before key remaining sell_price buy_price tax_rate c s side
        unmarked cleared_unmarked =
      elim (Option-cases (t.perform_deletion key s.committed_offers).0) [
        | inl nothing ↦ rw (nothing, process_partial) tt
        | inr (offer, deleted) ↦ elim (Option-cases (a.lookup_user s.db offer.owner)) [
          | inl nobody ↦ rw (deleted, nobody, process_partial) tt
          | inr (idx, user) ↦
              let sold =
                clear_offer_partial a.transfer_available offer sell_price buy_price tax_rate
                  remaining s.db idx in
              let log = a.log_self_modification s.log offer.owner offer.offer_id in
              elim (Bool-cases (ltb offer.amount (to_uint64 sold.1))) [
                | inl more ↦ rw (deleted, user, more, process_partial) tt
                | inr fine ↦
                    rw (deleted, user, fine, process_partial)
                      (put_back-RestorableState before offer sold.1
                        (executed before key offer sold.1 sold.0 log s) refl
                        (executed-RestorableState before key offer sold.1 sold.0 log s
                          (sym (laws.deleted key s.committed_offers) ∙ deleted) side unmarked
                          cleared_unmarked))
              ]
        ]
      ]

  -- Every key finds after the clearing, in the offers, in those that the thunk keeps or in the
  -- partly executed one, what it had before.
  pub process_clear_offers-RestorableResult :
      (category : OfferCategory) (supply : FractionalAsset) (prices : List ℕ) (tax_rate : ℕ)
      (c : SingleOrderbookStateCommitment) (s : ClearingState t a)
      → OffersAbove 0 category (t.entries s.committed_offers)
      → r.is_marked s.committed_offers k ≡ false
      → RestorableResult
          (find t k s.committed_offers)
          (process_clear_offers t a category supply prices tax_rate c s)
  unfolding process_clear_offers
  process_clear_offers-RestorableResult category supply prices tax_rate c s offers unmarked =
      let endow = floor supply in
      let sell_price = get_or prices category.sell_asset 0 in
      let buy_price = get_or prices category.buy_asset 0 in
      let cut = t.endow_split endow s.committed_offers in
      let taken_same = ap (find_entry k) (laws.split_taken endow s.committed_offers) in
      let left_same = ap (find_entry k) (laws.split_left endow s.committed_offers) in
      let side : OneSide (find t k cut.0) (find t k cut.1) (find t k s.committed_offers) =
        elim (split_entries-OneSide category k 0 endow (t.entries s.committed_offers) offers) [
          | inl (taken, left) ↦ inl (taken_same ∙ taken, left_same ∙ left)
          | inr (taken, left) ↦ inr (taken_same ∙ taken, left_same ∙ left)
        ] in
      let left_unmarked = r_laws.marks_left k endow s.committed_offers unmarked in
      let taken_unmarked = r_laws.marks_taken k endow s.committed_offers unmarked in
      let remaining = minus supply (from_integral (t.root_endow cut.0)) in
      elim (Bool-cases (ltb (2 ^ 63 - 1) endow)) [
        | inl over ↦ rw (over, process_clear_offers) tt
        | inr fine ↦
            elim (Option-cases
              (clear_all a sell_price buy_price tax_rate (t.entries cut.0) (s.db, s.log))) [
                | inl failed ↦ rw (fine, failed, process_clear_offers) tt
                | inr (next, done) ↦ elim (Option-cases (t.get_lowest_key cut.1)) [
                  | inr (key, lowest) ↦
                      rw (fine, done, lowest, process_clear_offers)
                        (process_partial-RestorableResult (find t k s.committed_offers) key
                          remaining sell_price buy_price tax_rate _ _ side left_unmarked
                          taken_unmarked)
                  | inl empty ↦ elim (Bool-cases (same_value remaining (from_integral 0))) [
                    | inr rest ↦ rw (fine, done, empty, rest, process_clear_offers) tt
                    | inl nothing ↦
                        rw (fine, done, empty, nothing, process_clear_offers)
                          (inr (refl, side), left_unmarked, taken_unmarked)
                  ]
                ]
              ]
      ]
