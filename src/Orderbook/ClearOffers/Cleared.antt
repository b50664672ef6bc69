-- ===== src/Orderbook/ClearOffers/Cleared.antt =====
-- The offers that production clears in full, and those that are left.
use speedex.Prelude.{ℕ, ◌^◌, ◌≤◌, ◌<◌, ◌≡◌, sym, ap, ◌∙◌, List, ◌++◌, Option, some}
use speedex.Types.{OfferCategory}
use speedex.FixedPoint.{FractionalAsset, floor}
use speedex.Orderbook.CommitmentChecker.{SingleOrderbookStateCommitment}
use speedex.Orderbook.Interfaces.{
  Entries, OrderbookTrie, OrderbookTrieLaws, Accounts, AccountsLaws, split_entries,
}
use speedex.Orderbook.ClearOffers.{ClearingState, clear_all}
use speedex.Orderbook.ClearOffers.Splits.{OffersAbove, split_lem}
use speedex.Orderbook.ClearOffers.Outcome
use speedex.Orderbook.ClearOffers.Outcome.{
  Same, put_back-Same, accounted, all_accounted, check_each-one,
}

module _ (t : OrderbookTrie) (laws : OrderbookTrieLaws t) (a : Accounts)
    (a_laws : AccountsLaws a) where
  module _ (category : OfferCategory) (supply : FractionalAsset) (prices : List ℕ) (tax_rate : ℕ)
      (s : ClearingState t a) where
    abbrev Accepted : Option (SingleOrderbookStateCommitment × ClearingState t a) → Type 0
    Accepted = Outcome.Accepted t a category supply prices tax_rate s

    abbrev sell : ℕ
    sell = Outcome.sell t a category supply prices tax_rate s

    abbrev buy : ℕ
    buy = Outcome.buy t a category supply prices tax_rate s

    abbrev es : Entries
    es = Outcome.es t a category supply prices tax_rate s

    abbrev taken : t.Trie
    taken = Outcome.taken t a category supply prices tax_rate s

    abbrev rest : t.Trie
    rest = Outcome.rest t a category supply prices tax_rate s

    abbrev remaining : FractionalAsset
    remaining = Outcome.remaining t a category supply prices tax_rate s

    abbrev settled : a.Db × a.Log → ClearingState t a
    settled = Outcome.settled t a category supply prices tax_rate s

    abbrev announced : SingleOrderbookStateCommitment → SingleOrderbookStateCommitment
    announced = Outcome.announced t a category supply prices tax_rate s

    module _ (offers : OffersAbove 0 category es) (fits : supply.value < 2 ^ 128)
        (c : SingleOrderbookStateCommitment) (next : a.Db × a.Log)
        (done : clear_all a sell buy tax_rate (t.entries taken) (s.db, s.log) ≡ some next) where
      pub split : es ≡ t.entries taken ++ t.entries rest
      split =
          (split_lem (floor supply) es).0
          ∙ ap (λ x. x ++ (split_entries (floor supply) es).1)
              (sym (laws.split_taken (floor supply) s.committed_offers))
          ∙ ap (λ x. t.entries taken ++ x) (sym (laws.split_left (floor supply) s.committed_offers))

      pub taken-le : t.root_endow taken ≤ floor supply
      taken-le =
          rw (laws.root taken, laws.split_taken (floor supply) s.committed_offers)
            ((split_lem (floor supply) es).1)
