-- ===== src/Orderbook/ClearOffers/Agrees.antt =====
-- Validation accepts what production commits to, and leaves the same orderbook.
use speedex.Prelude.{
  ℕ, ◌-◌, ◌^◌, ◌<◌, ◌≡◌, refl, ap, ◌∙◌, ltb, false, List, [], ◌∷◌, some, Bool-cases, Option-cases,
  inl, inr,
}
use speedex.Types.{OfferCategory}
use speedex.FixedPoint.{FractionalAsset, from_integral, floor, same_value}
use speedex.Orderbook.CommitmentChecker.{SingleOrderbookStateCommitment}
use speedex.Orderbook.Interfaces.{
  Entries, OrderbookTrie, OrderbookTrieLaws, Accounts, AccountsLaws, lowest,
}
use speedex.Orderbook.ClearOffers.{ClearingState, clear_all, process_clear_offers}
use speedex.Orderbook.ClearOffers.Splits.{OffersAbove}
use speedex.Orderbook.ClearOffers.Outcome
use speedex.Orderbook.ClearOffers.Outcome.{
  Same, put_back-Same, accounted, all_accounted, check_each-one,
}
use speedex.Orderbook.ClearOffers.NoPartial.{no_partial-Accepted}
use speedex.Orderbook.ClearOffers.Partial.{partial-Accepted}

module _ (t : OrderbookTrie) (laws : OrderbookTrieLaws t) (a : Accounts)
    (a_laws : AccountsLaws a) where
  module _ (category : OfferCategory) (supply : FractionalAsset) (prices : List ℕ) (tax_rate : ℕ)
      (s : ClearingState t a) where
    abbrev sell : ℕ
    sell = Outcome.sell t a category supply prices tax_rate s

    abbrev buy : ℕ
    buy = Outcome.buy t a category supply prices tax_rate s

    abbrev es : Entries
    es = Outcome.es t a category supply prices tax_rate s

    abbrev taken : t.Trie
    taken = Outcome.taken t a category supply prices tax_rate s

    abbrev rest : t.Trie
    rest = Outcome.rest t a category supply prices tax_rate s

    abbrev remaining : FractionalAsset
    remaining = Outcome.remaining t a category supply prices tax_rate s

    abbrev settled : a.Db × a.Log → ClearingState t a
    settled = Outcome.settled t a category supply prices tax_rate s

    abbrev announced : SingleOrderbookStateCommitment → SingleOrderbookStateCommitment
    announced = Outcome.announced t a category supply prices tax_rate s

    split_on_lowest :
        (c : SingleOrderbookStateCommitment)
        → OffersAbove 0 category (t.entries s.committed_offers)
        → supply.value < 2 ^ 128
        → ltb (2 ^ 63 - 1) (floor supply) ≡ false
        → (next : a.Db × a.Log)
        → clear_all a sell buy tax_rate (t.entries taken) (s.db, s.log) ≡ some next
        → (left : Entries) → t.entries rest ≡ left
        → Outcome.Accepted t a category supply prices tax_rate s
            (process_clear_offers t a category supply prices tax_rate c s)
    unfolding process_clear_offers
    split_on_lowest c offers fits fine next done [] h =
        let none_left = laws.lowest_key rest ∙ ap lowest h in
        elim (Bool-cases (same_value remaining (from_integral 0))) [
          | inl nothing ↦
              rw (fine, done, none_left, nothing, process_clear_offers)
                (no_partial-Accepted t laws a a_laws category supply prices tax_rate s offers fits c
                  next done h nothing)
          | inr more ↦ rw (fine, done, none_left, more, process_clear_offers) tt
        ]
    split_on_lowest c offers fits fine next done ((key, o) ∷ left) h =
        let found = laws.lowest_key rest ∙ ap lowest h in
        rw (fine, done, found, process_clear_offers)
          (partial-Accepted t laws a a_laws category supply prices tax_rate s offers fits c next
            done key o left h)

    -- Where the offers have one category, increasing keys above 0 and amounts above 0, and production
    -- clears them without an error, validation of what it announces accepts, from the same state,
    -- and leaves the same offers, thunk, balances, log and counts. The supply that it gathers passes
    -- the check of the statistics, as does the threshold key.
    pub process_clear_offers-Accepted :
        (c : SingleOrderbookStateCommitment)
        → OffersAbove 0 category (t.entries s.committed_offers)
        → supply.value < 2 ^ 128
        → Outcome.Accepted t a category supply prices tax_rate s
            (process_clear_offers t a category supply prices tax_rate c s)
    unfolding process_clear_offers
    process_clear_offers-Accepted c offers fits =
        elim (Bool-cases (ltb (2 ^ 63 - 1) (floor supply))) [
          | inl huge ↦ rw (huge, process_clear_offers) tt
          | inr fine ↦
              elim (Option-cases (clear_all a sell buy tax_rate (t.entries taken) (s.db, s.log))) [
                | inl failed ↦ rw (fine, failed, process_clear_offers) tt
                | inr (next, done) ↦
                    split_on_lowest c offers fits fine next done (t.entries rest) refl
              ]
        ]
