-- ===== src/Orderbook/Rounds/Tests.antt =====
-- Runs of an orderbook's rounds, on tries that are their entries and the keys that are marked.
mod Marked
use mathlib.Core.Option
use speedex.Prelude.{
  ℕ, ◌+◌, ◌*◌, ◌^◌, ◌≡◌, refl, ap, subst, ◌∙◌, if◌then◌else◌, ◌||◌, ◌==◌, Bool, true, false, List,
  [], ◌∷◌, ◌++◌, ltb, ◌&&◌, Option, none, some, length, arith, Bool-cases, Option-cases, inl, inr,
}
use speedex.Prelude.Int.{ℤ, pos, add64, wrap64, to_uint64}
use speedex.Types.{Offer, OfferCategory}
use speedex.Orderbook.Interfaces.{
  Accounts, Entries, OrderbookTrie, OrderbookTrieLaws, insert_entry, find_entry, delete_entry,
  split_entries, endow_of, endow_below, lowest,
}
use speedex.Orderbook.RoundTrie.{RoundTrie, RoundTrieLaws, Within}
use speedex.FixedPoint.{from_raw, floor, ceil, minus, from_integral, tax_and_round}
use speedex.Price.{a_over_b_lt_c}
use speedex.Orderbook.Clearing.{clear_offer_full, clear_offer_partial}
use speedex.Orderbook.CommitmentChecker.{SingleOrderbookStateCommitment}
use speedex.Orderbook.ClearOffers.{
  OrderbookLmdbCommitmentThunk, ClearingState, process_clear_offers, process_partial, put_back,
  clear_all, complete_clearing,
}
use speedex.Orderbook.Rounds.{
  OrderbookRounds, commit_and_clear, tentative_commit_for_validation, add_new_thunk_nolock,
  new_thunk, update_top, rollback_thunks, undo_later, undo_thunk, insert_all, mark_all,
  generate_orderbook_trie_key,
}
use speedex.Orderbook.Rounds.Restored.{Fresh}
use speedex.Orderbook.Rounds.Rollback.{RolledBack, rollback_thunks-commit_and_clear}
use speedex.Orderbook.Rounds.Undo.{has_key, find_entry-insert_entry}
use speedex.Orderbook.Rounds.Tests.Marked.{
  Keys, trie, trie-OrderbookTrieLaws, rounds, rounds-RoundTrieLaws, unmarked_entries,
  marked_entries, merge_entries,
}

abbrev accounts : Accounts
accounts = record {
  Db = ℕ → ℕ → ℤ;
  Ptr = ℕ;
  Log = List (ℕ × ℕ);
  lookup_user = λ db owner. if ltb owner 100 then some owner else none;
  transfer_available =
      λ db p asset x q j. if p == q && asset == j then add64 (db q j) x else db q j;
  log_self_modification = λ log owner id. (owner, id) ∷ log;
}

abbrev category : OfferCategory
category = record { sell_asset = 0; buy_asset = 1; offer_type = 0 }

abbrev offer : ℕ → ℕ → Offer
offer id min_price = record {
  category = category;
  offer_id = id;
  owner = 7;
  amount = 100;
  min_price = min_price;
}

abbrev key : ℕ → ℕ → ℕ
key id min_price = min_price * 2 ^ 128 + 7 * 2 ^ 64 + id

abbrev unset : OrderbookLmdbCommitmentThunk (Entries × Keys)
unset = record {
  partial_exec_key = 0;
  partial_exec_amount = pos 0;
  preexecute_partial_exec_offer = offer 0 0;
  cleared_offers = ([], []);
  exists_partial_exec = false;
}

-- Offer 3 is marked for deletion, and offer 0 is new.
abbrev before : OrderbookRounds trie
before = record {
  uncommitted_offers = ((key 0 (2 ^ 23), offer 0 (2 ^ 23)) ∷ [], []);
  committed_offers = (
    (key 1 (2 ^ 24), offer 1 (2 ^ 24))
        ∷ (key 2 (2 ^ 24), offer 2 (2 ^ 24))
        ∷ (key 3 (2 ^ 25), offer 3 (2 ^ 25))
        ∷ [],
    key 3 (2 ^ 25) ∷ [],
  );
  thunks = [];
}

abbrev start : ClearingState trie accounts
start = record {
  committed_offers = ([], []);
  thunk = unset;
  db = λ owner asset. pos 0;
  log = [];
  fully_clear_offer_count = 0;
  partial_clear_offer_count = 0;
}

abbrev header : SingleOrderbookStateCommitment
header = record {
  root_hash = 0;
  fractional_supply_activated = 0;
  partial_exec_threshold_key = 0;
  threshold_key_is_null = 0;
  partial_exec_offer_activation_amount = 0;
}

abbrev prices : List ℕ
prices = (3 * 2 ^ 24) ∷ (2 * 2 ^ 24) ∷ []

-- A block with a supply in units.
abbrev run : ℕ → ℕ → OrderbookRounds trie → Option (OrderbookRounds trie)
run block supply ob =
    commit_and_clear trie rounds accounts unset block category (from_raw (supply * 2 ^ 10)) prices
      15 header start ob

-- Offers 0 and 1 are cleared, and half of offer 2 is executed.
abbrev after : OrderbookRounds trie
after = record {
  uncommitted_offers = ([], []);
  committed_offers = ((key 2 (2 ^ 24), record (offer 2 (2 ^ 24)) { amount = 50 }) ∷ [], []);
  thunks =
      (record {
        clearing = record {
          partial_exec_key = key 2 (2 ^ 24);
          partial_exec_amount = pos 50;
          preexecute_partial_exec_offer = offer 2 (2 ^ 24);
          cleared_offers =
              ((key 0 (2 ^ 23), offer 0 (2 ^ 23)) ∷ (key 1 (2 ^ 24), offer 1 (2 ^ 24)) ∷ [], []);
          exists_partial_exec = true;
        };
        uncommitted_offers_vec = offer 0 (2 ^ 23) ∷ [];
        deleted_keys = (key 3 (2 ^ 25), offer 3 (2 ^ 25)) ∷ [];
        current_block_number = 5;
      })
      ∷ [];
}

run_250 : run 5 250 before ≡ some after
unfolding commit_and_clear tentative_commit_for_validation add_new_thunk_nolock new_thunk update_top
    marked_entries unmarked_entries merge_entries process_clear_offers process_partial put_back
    clear_all complete_clearing clear_offer_full clear_offer_partial split_entries find_entry
    delete_entry insert_entry endow_of floor ceil minus from_integral to_uint64 wrap64 tax_and_round
    a_over_b_lt_c
run_250 = refl

before-Fresh : Fresh trie trie-OrderbookTrieLaws rounds rounds-RoundTrieLaws before
unfolding generate_orderbook_trie_key find_entry
before-Fresh = ((refl, tt), only_new, λ k. refl)
  where
    only_new :
        (k : ℕ) (o : Offer)
        → find_entry k before.uncommitted_offers.0 ≡ some o
        → find_entry k before.committed_offers.0 ≡ none
    only_new k o found = elim (Bool-cases (key 0 (2 ^ 23) == k)) [
      | inr other ↦ ground (arith, found, other)
      | inl here ↦
          let same_key : key 0 (2 ^ 23) ≡ k = ground arith in
          subst (λ j. find_entry j before.committed_offers.0 ≡ none) same_key refl
    ]

rollback_thunks-commit_and_clear_example :
    RolledBack trie trie-OrderbookTrieLaws rounds rounds-RoundTrieLaws before
      (rollback_thunks trie rounds 3 4 after)
unfolding has_key generate_orderbook_trie_key merge_entries insert_entry unmarked_entries
rollback_thunks-commit_and_clear_example =
    rollback_thunks-commit_and_clear trie trie-OrderbookTrieLaws rounds rounds-RoundTrieLaws
      accounts unset 5 4 3 category (from_raw (250 * 2 ^ 10)) prices 15 header start before after
      before-Fresh
      (
        omega arith,
        omega arith,
        refl,
        (omega arith, omega arith, refl, (omega arith, omega arith, refl, tt)),
      )
      tt (omega arith) (omega arith) run_250 ((λ later partial. refl), tt)

-- A new offer that is executed in part is still there after the rollback of its block.
new_partial_left :
    Option.map
      (λ ob. find_entry (key 0 (2 ^ 23)) ob.committed_offers.0)
      (Option.bind (run 5 10 before) (rollback_thunks trie rounds 3 4))
    ≡ some (some (offer 0 (2 ^ 23)))
unfolding Option.bind rollback_thunks undo_later undo_thunk insert_all mark_all
    generate_orderbook_trie_key commit_and_clear tentative_commit_for_validation
    add_new_thunk_nolock new_thunk update_top marked_entries unmarked_entries merge_entries
    process_clear_offers process_partial put_back clear_all complete_clearing clear_offer_full
    clear_offer_partial split_entries find_entry delete_entry insert_entry endow_of floor ceil minus
    from_integral to_uint64 wrap64 tax_and_round a_over_b_lt_c
new_partial_left = refl

-- So is a new offer that the next block clears: the older thunk is undone first.
abbrev costly : OrderbookRounds trie
costly = record before {
  uncommitted_offers = ((key 4 (2 ^ 24 + 1), offer 4 (2 ^ 24 + 1)) ∷ [], []);
}

later_cleared_left :
    Option.map
      (λ ob. find_entry (key 4 (2 ^ 24 + 1)) ob.committed_offers.0)
      (Option.bind (Option.bind (run 5 0 costly) (run 6 300)) (rollback_thunks trie rounds 3 4))
    ≡ some (some (offer 4 (2 ^ 24 + 1)))
unfolding Option.bind rollback_thunks undo_later undo_thunk insert_all mark_all
    generate_orderbook_trie_key commit_and_clear tentative_commit_for_validation
    add_new_thunk_nolock new_thunk update_top marked_entries unmarked_entries merge_entries
    process_clear_offers process_partial put_back clear_all complete_clearing clear_offer_full
    clear_offer_partial split_entries find_entry delete_entry insert_entry endow_of floor ceil minus
    from_integral to_uint64 wrap64 tax_and_round a_over_b_lt_c
later_cleared_left = refl
