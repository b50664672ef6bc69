-- ===== src/Orderbook/ClearOffers/Partial.antt =====
-- Validation of a block that leaves offers, the lowest of which is executed in part.
use mathlib.Core.Option
use speedex.Prelude.{
  ℕ, ◌+◌, ◌%◌, ◌^◌, ◌≤◌, ◌<◌, ◌≡◌, refl, sym, ap, subst, ◌∙◌, ◌==◌, ltb, true, false, List, ◌∷◌,
  ◌++◌, length, Option, some, get_or, Bool-cases, Option-cases, inl, inr, arith,
}
use speedex.Prelude.Int.{ℤ, to_uint64}
use speedex.Types.{Offer, OfferCategory}
use speedex.FixedPoint.{FractionalAsset, zero_asset, from_integral, plus, floor}
use speedex.Orderbook.Clearing.{clear_offer_partial}
use speedex.Orderbook.CommitmentChecker.{
  SingleOrderbookStateCommitment, no_stats, check_threshold_key,
}
use speedex.Orderbook.Interfaces.{
  Entries, OrderbookTrie, OrderbookTrieLaws, Accounts, AccountsLaws, find_entry, delete_entry,
  split_entries, endow_below,
}
use speedex.Orderbook.ClearOffers.{
  ClearingState, set_partial_exec, clear_all, put_back, process_partial, validate_partial,
  tentative_clear_offers_for_validation,
}
use speedex.Orderbook.ClearOffers.Splits.{OffersAbove, around, head_entry}
use speedex.Orderbook.ClearOffers.Moves.{clear_all-move, SameUsers, clear_all-SameUsers}
use speedex.Orderbook.ClearOffers.Outcome
use speedex.Orderbook.ClearOffers.Outcome.{
  Same, put_back-Same, accounted, all_accounted, check_each-one,
}
use speedex.Orderbook.ClearOffers.Cleared

module _ (t : OrderbookTrie) (laws : OrderbookTrieLaws t) (a : Accounts)
    (a_laws : AccountsLaws a) where
  module _ (category : OfferCategory) (supply : FractionalAsset) (prices : List ℕ) (tax_rate : ℕ)
      (s : ClearingState t a) where
    abbrev Accepted : Option (SingleOrderbookStateCommitment × ClearingState t a) → Type 0
    Accepted = Outcome.Accepted t a category supply prices tax_rate s

    abbrev sell : ℕ
    sell = Outcome.sell t a category supply prices tax_rate s

    abbrev buy : ℕ
    buy = Outcome.buy t a category supply prices tax_rate s

    abbrev es : Entries
    es = Outcome.es t a category supply prices tax_rate s

    abbrev taken : t.Trie
    taken = Outcome.taken t a category supply prices tax_rate s

    abbrev rest : t.Trie
    rest = Outcome.rest t a category supply prices tax_rate s

    abbrev remaining : FractionalAsset
    remaining = Outcome.remaining t a category supply prices tax_rate s

    abbrev settled : a.Db × a.Log → ClearingState t a
    settled = Outcome.settled t a category supply prices tax_rate s

    abbrev announced : SingleOrderbookStateCommitment → SingleOrderbookStateCommitment
    announced = Outcome.announced t a category supply prices tax_rate s

    module _ (offers : OffersAbove 0 category es) (fits : supply.value < 2 ^ 128)
        (c : SingleOrderbookStateCommitment) (next : a.Db × a.Log)
        (done : clear_all a sell buy tax_rate (t.entries taken) (s.db, s.log) ≡ some next) where
      abbrev split : es ≡ t.entries taken ++ t.entries rest
      split =
          Cleared.split t laws a a_laws category supply prices tax_rate s offers fits c next done

      abbrev taken-le : t.root_endow taken ≤ floor supply
      taken-le =
          Cleared.taken-le t laws a a_laws category supply prices tax_rate s offers fits c next done

      -- The transfer to the owner of the lowest offer that is left, and its entry in the log.
      abbrev pay : a.Ptr → Offer → a.Db × a.Log → a.Db × a.Log
      pay idx o (db, log) = (
        (clear_offer_partial a.transfer_available o sell buy tax_rate remaining db idx).0,
        a.log_self_modification log o.owner o.offer_id,
      )

      abbrev sold : a.Ptr → Offer → ℤ
      sold idx o =
          (clear_offer_partial a.transfer_available o sell buy tax_rate remaining next.0 idx).1

      module _ (key : ℕ) (o : Offer) (left : Entries) (h : t.entries rest ≡ (key, o) ∷ left) where
        abbrev others : t.Trie
        others = (t.perform_deletion key s.committed_offers).1

        abbrev again : t.Trie × t.Trie
        again = t.endow_split (t.endow_lt_key key s.committed_offers) others

        -- Validation finds the same offers on both sides of the threshold key.
        same_split :
            (o.category ≡ category)
            × ((t.perform_deletion key s.committed_offers).0 ≡ some o)
            × (t.endow_lt_key key s.committed_offers ≡ t.root_endow taken)
            × (t.entries again.0 ≡ t.entries taken)
            × (t.entries again.1 ≡ left)
            × (0 < key)
        same_split =
            let whole : es ≡ t.entries taken ++ (key, o) ∷ left =
              split ∙ ap (λ x. t.entries taken ++ x) h in
            let (above, category', found, kept, sum, parts) =
              around category key o left 0 (t.entries taken)
                (subst (OffersAbove 0 category) whole offers) in
            let below = laws.below key s.committed_offers ∙ ap (endow_below key) whole ∙ sum in
            let kept' =
              laws.entries_deletion key s.committed_offers ∙ ap (delete_entry key) whole ∙ kept in
            let parts' : split_entries (t.endow_lt_key key s.committed_offers) (t.entries others)
                ≡ (t.entries taken, left) =
              rw (below, kept') parts in
            (
              category',
              laws.deleted key s.committed_offers ∙ ap (find_entry key) whole ∙ found,
              below ∙ sym (laws.root taken),
              laws.split_taken _ others ∙ ap (λ r. r.0) parts',
              laws.split_left _ others ∙ ap (λ r. r.1) parts',
              above,
            )

        -- What the header says of the lowest offer that is left.
        abbrev threshold : SingleOrderbookStateCommitment
        threshold = record (announced c) {
          partial_exec_threshold_key = key;
          threshold_key_is_null = 0;
        }

        -- What production leaves, from the state before the offer that is left is put back.
        abbrev produced : a.Ptr → ClearingState t a
        produced idx = record (settled next) {
          committed_offers = (t.perform_deletion key rest).1;
          thunk = set_partial_exec t a key (sold idx o) o (settled next).thunk;
          db = (pay idx o next).0;
          log = (pay idx o next).1;
        }

        -- What validation leaves.
        abbrev validated : a.Ptr → ClearingState t a
        validated idx = record s {
          committed_offers = again.1;
          thunk = record (set_partial_exec t a key (sold idx o) o s.thunk) {
            cleared_offers = again.0;
          };
          db = (pay idx o next).0;
          log = (pay idx o next).1;
          fully_clear_offer_count = (s.fully_clear_offer_count + t.size again.0) % 2 ^ 32;
        }

        validate_lem :
            (idx : a.Ptr)
            → a.lookup_user s.db o.owner ≡ some idx
            → ltb o.amount (to_uint64 (sold idx o)) ≡ false
            → tentative_clear_offers_for_validation t a category prices tax_rate threshold no_stats
                s
              ≡ some (
                true,
                record {
                  activated_supply =
                      plus zero_asset (from_integral (t.endow_lt_key key s.committed_offers));
                },
                put_back t a key o (sold idx o) (validated idx),
              )
        unfolding tentative_clear_offers_for_validation validate_partial clear_offer_partial
        validate_lem idx user covered =
            let (category', found, below, taken', left', positive) = same_split in
            let sell' : get_or prices o.category.sell_asset 0 ≡ sell =
              ap (λ x. get_or prices x.sell_asset 0) category' in
            let buy' : get_or prices o.category.buy_asset 0 ≡ buy =
              ap (λ x. get_or prices x.buy_asset 0) category' in
            let cleared : clear_all a sell buy tax_rate (t.entries again.0)
                  (pay idx o (s.db, s.log))
                ≡ some (pay idx o next) =
              ap (λ x. clear_all a sell buy tax_rate x (pay idx o (s.db, s.log))) taken'
              ∙ clear_all-move a a_laws sell buy tax_rate idx o.category.buy_asset _ o.owner
                  o.offer_id (t.entries taken) (s.db, s.log)
              ∙ ap (Option.map (pay idx o)) done in
            rw (found, tentative_clear_offers_for_validation)
              (rw (user, sell', buy', covered, cleared, validate_partial) refl)

        pub partial-Accepted :
            Accepted
              (process_partial t a key remaining sell buy tax_rate (announced c) (settled next))
        unfolding process_partial clear_offer_partial check_threshold_key
        partial-Accepted =
            let (category', found, below, taken', left', positive) = same_split in
            let found' =
              laws.deleted key rest ∙ ap (find_entry key) h ∙ (head_entry key o left).0 in
            let left'' =
              laws.entries_deletion key rest
              ∙ ap (delete_entry key) h
              ∙ (head_entry key o left).1 in
            let users =
              subst (SameUsers a a_laws sell buy tax_rate s.db) done
                (clear_all-SameUsers a a_laws sell buy tax_rate (t.entries taken) (s.db, s.log)) in
            let size : t.size again.0 ≡ t.size taken =
              laws.size_entries again.0
              ∙ ap (length {A = ℕ × Offer}) taken'
              ∙ sym (laws.size_entries taken) in
            let nonzero : (key == 0) ≡ false = ground arith in
            elim (Option-cases (a.lookup_user next.0 o.owner)) [
              | inl nobody ↦ rw (found', nobody, process_partial) tt
              | inr (idx, user) ↦ elim (Bool-cases (ltb o.amount (to_uint64 (sold idx o)))) [
                | inl over ↦ rw (found', user, over, process_partial) tt
                | inr covered ↦
                    rw (found', user, covered, process_partial)
                      (
                        record {
                          activated_supply =
                              plus zero_asset
                                (from_integral (t.endow_lt_key key s.committed_offers));
                        },
                        put_back t a key o (sold idx o) (validated idx),
                        validate_lem idx (sym (users o.owner) ∙ user) covered,
                        put_back-Same t a laws key o (sold idx o) (produced idx) (validated idx) (
                          left'' ∙ sym left',
                          sym taken',
                          refl,
                          refl,
                          refl,
                          refl,
                          refl,
                          refl,
                          ap (λ n. (s.fully_clear_offer_count + n) % 2 ^ 32) (sym size),
                          refl,
                        ),
                        check_each-one _ _
                            (rw below (accounted (t.root_endow taken) supply taken-le fits))
                            (rw nonzero refl),
                      )
              ]
            ]
