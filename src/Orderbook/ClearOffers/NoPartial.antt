-- ===== src/Orderbook/ClearOffers/NoPartial.antt =====
-- Validation of a block that leaves no offer.
use mathlib.Core.List.{append-nil}
use speedex.Prelude.{
  ℕ, ◌+◌, ◌%◌, ◌^◌, ◌≤◌, ◌<◌, ◌≡◌, refl, sym, ap, ◌∙◌, true, List, [], ◌++◌, length, Option, some,
  arith,
}
use speedex.Types.{Offer, OfferCategory}
use speedex.FixedPoint.{FractionalAsset, zero_asset, from_integral, plus, floor, same_value}
use speedex.Orderbook.CommitmentChecker.{SingleOrderbookStateCommitment, check_threshold_key}
use speedex.Orderbook.Interfaces.{
  Entries, OrderbookTrie, OrderbookTrieLaws, Accounts, AccountsLaws, endow_of,
}
use speedex.Orderbook.ClearOffers.{
  ClearingState, set_no_partial_exec, clear_all, validate_no_partial,
  tentative_clear_offers_for_validation,
}
use speedex.Orderbook.ClearOffers.Splits.{OffersAbove, absent}
use speedex.Orderbook.ClearOffers.Outcome
use speedex.Orderbook.ClearOffers.Outcome.{
  Same, put_back-Same, accounted, all_accounted, check_each-one,
}
use speedex.Orderbook.ClearOffers.Cleared

module _ (t : OrderbookTrie) (laws : OrderbookTrieLaws t) (a : Accounts)
    (a_laws : AccountsLaws a) where
  module _ (category : OfferCategory) (supply : FractionalAsset) (prices : List ℕ) (tax_rate : ℕ)
      (s : ClearingState t a) where
    abbrev Accepted : Option (SingleOrderbookStateCommitment × ClearingState t a) → Type 0
    Accepted = Outcome.Accepted t a category supply prices tax_rate s

    abbrev sell : ℕ
    sell = Outcome.sell t a category supply prices tax_rate s

    abbrev buy : ℕ
    buy = Outcome.buy t a category supply prices tax_rate s

    abbrev es : Entries
    es = Outcome.es t a category supply prices tax_rate s

    abbrev taken : t.Trie
    taken = Outcome.taken t a category supply prices tax_rate s

    abbrev rest : t.Trie
    rest = Outcome.rest t a category supply prices tax_rate s

    abbrev remaining : FractionalAsset
    remaining = Outcome.remaining t a category supply prices tax_rate s

    abbrev settled : a.Db × a.Log → ClearingState t a
    settled = Outcome.settled t a category supply prices tax_rate s

    abbrev announced : SingleOrderbookStateCommitment → SingleOrderbookStateCommitment
    announced = Outcome.announced t a category supply prices tax_rate s

    module _ (offers : OffersAbove 0 category es) (fits : supply.value < 2 ^ 128)
        (c : SingleOrderbookStateCommitment) (next : a.Db × a.Log)
        (done : clear_all a sell buy tax_rate (t.entries taken) (s.db, s.log) ≡ some next) where
      abbrev split : es ≡ t.entries taken ++ t.entries rest
      split =
          Cleared.split t laws a a_laws category supply prices tax_rate s offers fits c next done

      abbrev taken-le : t.root_endow taken ≤ floor supply
      taken-le =
          Cleared.taken-le t laws a a_laws category supply prices tax_rate s offers fits c next done

      abbrev all_offers : t.Trie
      all_offers = (t.perform_deletion 0 s.committed_offers).1

      -- With no offer left, the header has no threshold key, and validation clears them all.
      pub no_partial-Accepted :
          t.entries rest ≡ []
          → same_value remaining (from_integral 0) ≡ true
          → Accepted (
              some (
                record (announced c) { partial_exec_threshold_key = 0; threshold_key_is_null = 1 },
                record (settled next) { thunk = set_no_partial_exec t a (settled next).thunk },
              ))
      unfolding tentative_clear_offers_for_validation validate_no_partial check_threshold_key
      no_partial-Accepted none_left nothing =
          let whole : es ≡ t.entries taken =
            split ∙ ap (λ x. t.entries taken ++ x) none_left ∙ append-nil (t.entries taken) in
          let (missing, kept, small) = absent category 0 0 es (omega arith) offers in
          let kept' : t.entries (t.perform_deletion 0 s.committed_offers).1 ≡ t.entries taken =
            laws.entries_deletion 0 s.committed_offers ∙ kept ∙ whole in
          let missing' = laws.deleted 0 s.committed_offers ∙ missing in
          let none_below = laws.below 0 s.committed_offers ∙ small in
          let sum : t.root_endow all_offers ≡ t.root_endow taken =
            laws.root all_offers ∙ ap endow_of kept' ∙ sym (laws.root taken) in
          let size : t.size all_offers ≡ t.size taken =
            laws.size_entries all_offers
            ∙ ap (length {A = ℕ × Offer}) kept'
            ∙ sym (laws.size_entries taken) in
          (
            record {
              activated_supply =
                  plus (plus zero_asset (from_integral (t.endow_lt_key 0 s.committed_offers)))
                    (from_integral (t.root_endow all_offers));
            },
            record s {
              committed_offers = t.empty;
              thunk = record (set_no_partial_exec t a s.thunk) { cleared_offers = all_offers };
              db = next.0;
              log = next.1;
              fully_clear_offer_count = (s.fully_clear_offer_count + t.size all_offers) % 2 ^ 32;
            },
            rw (missing', nothing, kept', done, tentative_clear_offers_for_validation) refl,
            (
              none_left ∙ sym laws.entries_empty,
              sym kept',
              refl,
              refl,
              refl,
              refl,
              refl,
              refl,
              ap (λ n. (s.fully_clear_offer_count + n) % 2 ^ 32) (sym size),
              refl,
            ),
            check_each-one _ _
                (rw (none_below, sum)
                  (all_accounted (t.root_endow taken) supply taken-le fits nothing))
                refl,
          )
