-- ===== src/Orderbook/ClearOffers.antt =====
-- The clearing of an orderbook at the end of a block: production's `process_clear_offers`, and
-- validation's `tentative_clear_offers_for_validation` (orderbook/orderbook.cc, orderbook/thunk.h).
-- `none` is a thrown error. The persistence thunk is the top one, and its lock is left out, as are
-- messages; what is written to the commitment in bytes is the number that they stand for.
pub mod Splits
pub mod Moves
pub mod Outcome
pub mod Cleared
pub mod NoPartial
pub mod Partial
pub mod Agrees
mod Tests
use speedex.Prelude.{
  ℕ, ◌+◌, ◌-◌, ◌%◌, ◌^◌, Bool, true, false, not, ◌||◌, if◌then◌else◌, leb, ltb, ◌==◌, List, [], ◌∷◌,
  Option, none, some, get_or,
}
use speedex.Prelude.Int.{ℤ, to_uint64}
use speedex.Types.{Offer, OfferCategory}
use speedex.Price.{a_over_b_lt_c}
use speedex.FixedPoint.{FractionalAsset, from_integral, plus, minus, floor, same_value}
use speedex.Orderbook.Clearing.{clear_offer_full, clear_offer_partial}
use speedex.Orderbook.CommitmentChecker.{
  SingleOrderbookStateCommitment, SingleValidationStatistics, activation_amount,
}
use speedex.Orderbook.Interfaces.{OrderbookTrie, Accounts, Entries}

-- The key that no offer has: all bytes of it 0xFF.
abbrev pub max_key : ℕ
max_key = 2 ^ 176 - 1

pub record OrderbookLmdbCommitmentThunk (Trie : Type 0) : Type 0 where
  pub partial_exec_key : ℕ
  pub partial_exec_amount : ℤ
  pub preexecute_partial_exec_offer : Offer
  pub cleared_offers : Trie
  pub exists_partial_exec : Bool

-- What the clearing changes: the offers, the top thunk, the database, the log, and the two counts
-- of the block's statistics.
pub record ClearingState (t : OrderbookTrie) (a : Accounts) : Type 0 where
  pub committed_offers : t.Trie
  pub thunk : OrderbookLmdbCommitmentThunk t.Trie
  pub db : a.Db
  pub log : a.Log
  pub fully_clear_offer_count : ℕ
  pub partial_clear_offer_count : ℕ

module _ (a : Accounts) (sell_price buy_price tax_rate : ℕ) where
  -- `CompleteClearingFunc`
  unfoldable pub complete_clearing : Offer → a.Db × a.Log → Option (a.Db × a.Log)
  complete_clearing offer (db, log) =
      if a_over_b_lt_c sell_price buy_price offer.min_price || offer.amount == 0
      then none
      else elim (a.lookup_user db offer.owner) [
        | none ↦ none
        | some idx ↦ some (
          clear_offer_full a.transfer_available offer sell_price buy_price tax_rate db idx,
          a.log_self_modification log offer.owner offer.offer_id,
        )
      ]

  -- `trie.apply(func)`
  unfoldable pub clear_all : Entries → a.Db × a.Log → Option (a.Db × a.Log)
  clear_all [] acc = some acc
  clear_all ((key, offer) ∷ es) acc = elim (complete_clearing offer acc) [
    | none ↦ none
    | some next ↦ clear_all es next
  ]

module _ (t : OrderbookTrie) (a : Accounts) where
  abbrev pub set_no_partial_exec :
      OrderbookLmdbCommitmentThunk t.Trie → OrderbookLmdbCommitmentThunk t.Trie
  set_no_partial_exec thunk = record thunk {
    exists_partial_exec = false;
    partial_exec_key = max_key;
  }

  abbrev pub set_partial_exec :
      ℕ → ℤ → Offer → OrderbookLmdbCommitmentThunk t.Trie → OrderbookLmdbCommitmentThunk t.Trie
  set_partial_exec key amount offer thunk = record thunk {
    partial_exec_key = key;
    partial_exec_amount = amount;
    preexecute_partial_exec_offer = offer;
    exists_partial_exec = true;
  }

  -- The partly executed offer goes back with what it has left, if it has anything left.
  unfoldable pub put_back : ℕ → Offer → ℤ → ClearingState t a → ClearingState t a
  put_back key offer sell_amount s =
      let left = (offer.amount + 2 ^ 64 - to_uint64 sell_amount) % 2 ^ 64 in
      if left == 0 then s else record s {
        committed_offers = t.insert key (record offer { amount = left }) s.committed_offers;
        partial_clear_offer_count = (s.partial_clear_offer_count + 1) % 2 ^ 32;
      }

  -- `process_clear_offers` from the deletion of the lowest offer that is left.
  unfoldable pub process_partial :
      ℕ
      → FractionalAsset
      → ℕ
      → ℕ
      → ℕ
      → SingleOrderbookStateCommitment
      → ClearingState t a
      → Option (SingleOrderbookStateCommitment × ClearingState t a)
  process_partial key remaining_to_clear sell_price buy_price tax_rate c s =
      let (try_delete, left) = t.perform_deletion key s.committed_offers in
      elim try_delete [
        | none ↦ none
        | some offer ↦ elim (a.lookup_user s.db offer.owner) [
          | none ↦ none
          | some idx ↦
              let (db, sell_amount, buy_amount) =
                clear_offer_partial a.transfer_available offer sell_price buy_price tax_rate
                  remaining_to_clear s.db idx in
              if ltb offer.amount (to_uint64 sell_amount)
              then none
              else some (
                record c { partial_exec_threshold_key = key; threshold_key_is_null = 0 },
                put_back key offer sell_amount (record s {
                  committed_offers = left;
                  thunk = set_partial_exec key sell_amount offer s.thunk;
                  db = db;
                  log = a.log_self_modification s.log offer.owner offer.offer_id;
                }),
              )
        ]
      ]

  unfoldable pub process_clear_offers :
      OfferCategory
      → FractionalAsset
      → List ℕ
      → ℕ
      → SingleOrderbookStateCommitment
      → ClearingState t a
      → Option (SingleOrderbookStateCommitment × ClearingState t a)
  process_clear_offers category supply_activated prices tax_rate c s =
      let sell_price = get_or prices category.sell_asset 0 in
      let buy_price = get_or prices category.buy_asset 0 in
      let clear_amount = floor supply_activated in
      let (fully_cleared, rest) = t.endow_split clear_amount s.committed_offers in
      let remaining_to_clear =
        minus supply_activated (from_integral (t.root_endow fully_cleared)) in
      let c' : SingleOrderbookStateCommitment = record c {
        fractional_supply_activated = supply_activated.value;
        partial_exec_offer_activation_amount = remaining_to_clear.value;
      } in
      if ltb (2 ^ 63 - 1) clear_amount
      then none
      else elim (clear_all a sell_price buy_price tax_rate (t.entries fully_cleared)
          (s.db, s.log)) [
            | none ↦ none
            | some (db, log) ↦
                let s' : ClearingState t a = record s {
                  committed_offers = rest;
                  thunk = record s.thunk { cleared_offers = fully_cleared };
                  db = db;
                  log = log;
                  fully_clear_offer_count =
                      (s.fully_clear_offer_count + t.size fully_cleared) % 2 ^ 32;
                } in
                elim (t.get_lowest_key rest) [
                  | some key ↦
                      process_partial key remaining_to_clear sell_price buy_price tax_rate c' s'
                  | none ↦
                      if not (same_value remaining_to_clear (from_integral 0))
                      then none
                      else some (
                        record c' { partial_exec_threshold_key = 0; threshold_key_is_null = 1 },
                        record s' { thunk = set_no_partial_exec s'.thunk },
                      )
                ]
          ]

  -- The branch of `tentative_clear_offers_for_validation` with no offer at the threshold key.
  unfoldable pub validate_no_partial :
      ℕ
      → ℕ
      → ℕ
      → SingleOrderbookStateCommitment
      → SingleValidationStatistics
      → ClearingState t a
      → Option (Bool × SingleValidationStatistics × ClearingState t a)
  validate_no_partial sell_price buy_price tax_rate c stats s =
      if not (c.partial_exec_threshold_key == 0)
        || not (same_value (activation_amount c) (from_integral 0))
      then some (false, stats, s)
      else elim (clear_all a sell_price buy_price tax_rate (t.entries s.committed_offers)
          (s.db, s.log)) [
            | none ↦ none
            | some (db, log) ↦ some (
              true,
              record {
                activated_supply =
                    plus stats.activated_supply (from_integral (t.root_endow s.committed_offers));
              },
              record s {
                committed_offers = t.empty;
                thunk = record (set_no_partial_exec s.thunk) {
                  cleared_offers = s.committed_offers;
                };
                db = db;
                log = log;
                fully_clear_offer_count =
                    (s.fully_clear_offer_count + t.size s.committed_offers) % 2 ^ 32;
              },
            )
          ]

  -- The branch with one, which the caller has deleted. It is paid at the prices of its own category,
  -- and the offers that are cleared in full at those of the orderbook's.
  unfoldable pub validate_partial :
      Offer
      → ℕ
      → ℕ
      → ℕ
      → List ℕ
      → ℕ
      → SingleOrderbookStateCommitment
      → SingleValidationStatistics
      → ClearingState t a
      → Option (Bool × SingleValidationStatistics × ClearingState t a)
  validate_partial offer endow_below_partial_exec_key sell_price buy_price prices tax_rate c stats
        s =
      let key = c.partial_exec_threshold_key in
      let own_sell_price = get_or prices offer.category.sell_asset 0 in
      let own_buy_price = get_or prices offer.category.buy_asset 0 in
      let log' = a.log_self_modification s.log offer.owner offer.offer_id in
      elim (a.lookup_user s.db offer.owner) [
        | none ↦ some (
          false,
          stats,
          record s { log = log'; committed_offers = t.insert key offer s.committed_offers },
        )
        | some idx ↦
            let (db', sell_amount, buy_amount) =
              clear_offer_partial a.transfer_available offer own_sell_price own_buy_price tax_rate
                (activation_amount c) s.db idx in
            let (cleared, left) = t.endow_split endow_below_partial_exec_key s.committed_offers in
            if ltb offer.amount (to_uint64 sell_amount)
            then some (
              false,
              stats,
              record s {
                db = db';
                log = log';
                committed_offers = t.insert key offer s.committed_offers;
              },
            )
            else elim (clear_all a sell_price buy_price tax_rate (t.entries cleared) (db', log')) [
              | none ↦ none
              | some (db, log) ↦ some (
                true,
                stats,
                put_back key offer sell_amount (record s {
                  committed_offers = left;
                  thunk = record (set_partial_exec key sell_amount offer s.thunk) {
                    cleared_offers = cleared;
                  };
                  db = db;
                  log = log;
                  fully_clear_offer_count = (s.fully_clear_offer_count + t.size cleared) % 2 ^ 32;
                }),
              )
            ]
      ]

  unfoldable pub tentative_clear_offers_for_validation :
      OfferCategory
      → List ℕ
      → ℕ
      → SingleOrderbookStateCommitment
      → SingleValidationStatistics
      → ClearingState t a
      → Option (Bool × SingleValidationStatistics × ClearingState t a)
  tentative_clear_offers_for_validation category prices tax_rate c stats s =
      let key = c.partial_exec_threshold_key in
      let sell_price = get_or prices category.sell_asset 0 in
      let buy_price = get_or prices category.buy_asset 0 in
      let endow = t.endow_lt_key key s.committed_offers in
      let stats' : SingleValidationStatistics = record {
        activated_supply = plus stats.activated_supply (from_integral endow);
      } in
      let (deleted, left) = t.perform_deletion key s.committed_offers in
      let s' : ClearingState t a = record s { committed_offers = left } in
      elim deleted [
        | none ↦ validate_no_partial sell_price buy_price tax_rate c stats' s'
        | some offer ↦ validate_partial offer endow sell_price buy_price prices tax_rate c stats' s'
      ]
