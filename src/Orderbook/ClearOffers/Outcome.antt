-- ===== src/Orderbook/ClearOffers/Outcome.antt =====
-- When validation agrees with production on the clearing of an orderbook.
use speedex.Prelude.{
  ℕ, ◌+◌, ◌-◌, ◌%◌, ◌^◌, ◌≤◌, ◌<◌, ◌≡◌, refl, sym, ap, ◌∙◌, ◌==◌, true, List, [], ◌∷◌, Option, none,
  some, get_or, Bool-cases, inl, inr, arith,
}
use speedex.Prelude.Int.{ℤ, to_uint64}
use speedex.Types.{Offer, OfferCategory}
use speedex.FixedPoint.{FractionalAsset, zero_asset, from_integral, plus, minus, floor, same_value}
use speedex.Orderbook.CommitmentChecker.{
  SingleOrderbookStateCommitment, SingleValidationStatistics, no_stats, check_each,
  check_threshold_key, activation_amount, supply_activated,
}
use speedex.Orderbook.Interfaces.{Entries, OrderbookTrie, OrderbookTrieLaws, Accounts, insert_entry}
use speedex.Orderbook.ClearOffers.{ClearingState, put_back, tentative_clear_offers_for_validation}

-- What is cleared in full and the rest of the supply are the supply.
pub accounted :
    (n : ℕ) (supply : FractionalAsset)
    → n ≤ floor supply
    → supply.value < 2 ^ 128
    → same_value (plus (plus zero_asset (from_integral n)) (minus supply (from_integral n))) supply
      ≡ true
unfolding plus minus from_integral floor
accounted n supply le fits = ground arith

pub all_accounted :
    (n : ℕ) (supply : FractionalAsset)
    → n ≤ floor supply
    → supply.value < 2 ^ 128
    → same_value (minus supply (from_integral n)) (from_integral 0) ≡ true
    → same_value
        (plus
          (plus (plus zero_asset (from_integral 0)) (from_integral n))
          (minus supply (from_integral n)))
        supply
      ≡ true
unfolding plus minus from_integral floor
all_accounted n supply le fits nothing = ground arith

pub check_each-one :
    (stats : SingleValidationStatistics) (c : SingleOrderbookStateCommitment)
    → same_value (plus stats.activated_supply (activation_amount c)) (supply_activated c) ≡ true
    → check_threshold_key c ≡ true
    → check_each (stats ∷ []) (c ∷ []) ≡ true
unfolding check_each
check_each-one stats c sum key = rw (sum, key) refl

module _ (t : OrderbookTrie) (a : Accounts) where
  -- Two states with the same offers, thunk, accounts, log and counts.
  abbrev pub Same : ClearingState t a → ClearingState t a → Type 0
  Same s v =
      (t.entries s.committed_offers ≡ t.entries v.committed_offers)
      × (t.entries s.thunk.cleared_offers ≡ t.entries v.thunk.cleared_offers)
      × (s.thunk.exists_partial_exec ≡ v.thunk.exists_partial_exec)
      × (s.thunk.partial_exec_key ≡ v.thunk.partial_exec_key)
      × (s.thunk.partial_exec_amount ≡ v.thunk.partial_exec_amount)
      × (s.thunk.preexecute_partial_exec_offer ≡ v.thunk.preexecute_partial_exec_offer)
      × (s.db ≡ v.db)
      × (s.log ≡ v.log)
      × (s.fully_clear_offer_count ≡ v.fully_clear_offer_count)
      × (s.partial_clear_offer_count ≡ v.partial_clear_offer_count)

  -- To put an offer back keeps them the same.
  pub put_back-Same :
      (laws : OrderbookTrieLaws t) (key : ℕ) (o : Offer) (x : ℤ) (s v : ClearingState t a)
      → Same s v
      → Same (put_back t a key o x s) (put_back t a key o x v)
  unfolding put_back
  put_back-Same laws key o x s v same =
      elim (Bool-cases ((o.amount + 2 ^ 64 - to_uint64 x) % 2 ^ 64 == 0)) [
        | inl nothing ↦ rw nothing same
        | inr more ↦
            let o' : Offer = record o { amount = (o.amount + 2 ^ 64 - to_uint64 x) % 2 ^ 64 } in
            rw more (
              laws.entries_insert key o' s.committed_offers
                  ∙ ap (insert_entry key o') same.0
                  ∙ sym (laws.entries_insert key o' v.committed_offers),
              same.1,
              same.2,
              same.3,
              same.4,
              same.5,
              same.6,
              same.7,
              same.8,
              ap (λ n. (n + 1) % 2 ^ 32) same.9,
            )
      ]

  module _ (category : OfferCategory) (supply : FractionalAsset) (prices : List ℕ) (tax_rate : ℕ)
      (s : ClearingState t a) where
    -- Validation of the result accepts, from the same state, and its statistics pass the check.
    abbrev pub Accepted : Option (SingleOrderbookStateCommitment × ClearingState t a) → Type 0
    Accepted none = Unit
    Accepted (some (c, s')) =
        (stats : SingleValidationStatistics) × (v : ClearingState t a)
        × (tentative_clear_offers_for_validation t a category prices tax_rate c no_stats s
            ≡ some (true, stats, v))
        × Same s' v
        × (check_each (stats ∷ []) (c ∷ []) ≡ true)

    abbrev pub sell : ℕ
    sell = get_or prices category.sell_asset 0

    abbrev pub buy : ℕ
    buy = get_or prices category.buy_asset 0

    abbrev pub es : Entries
    es = t.entries s.committed_offers

    abbrev pub taken : t.Trie
    taken = (t.endow_split (floor supply) s.committed_offers).0

    abbrev pub rest : t.Trie
    rest = (t.endow_split (floor supply) s.committed_offers).1

    abbrev pub remaining : FractionalAsset
    remaining = minus supply (from_integral (t.root_endow taken))

    -- What production has done and announced after the offers that are cleared in full.
    abbrev pub settled : a.Db × a.Log → ClearingState t a
    settled (db, log) = record s {
      committed_offers = rest;
      thunk = record s.thunk { cleared_offers = taken };
      db = db;
      log = log;
      fully_clear_offer_count = (s.fully_clear_offer_count + t.size taken) % 2 ^ 32;
    }

    abbrev pub announced : SingleOrderbookStateCommitment → SingleOrderbookStateCommitment
    announced c = record c {
      fractional_supply_activated = supply.value;
      partial_exec_offer_activation_amount = remaining.value;
    }
