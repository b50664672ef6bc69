-- ===== src/Orderbook/ClearOffers/Tests.antt =====
-- Runs of the clearing of an orderbook, on tries that are their entries.
use mathlib.Core.Option
use speedex.Prelude.{
  ℕ, ◌+◌, ◌*◌, ◌^◌, ◌≡◌, refl, fun_ext, sym, ◌∙◌, ap, if◌then◌else◌, ltb, ◌==◌, ◌&&◌, Bool, true,
  false, List, [], ◌∷◌, none, some, length, arith, Bool-cases, inl, inr,
}
use speedex.Prelude.Int.{ℤ, pos, ◌+ℤ◌, add64, add64_assoc, wrap64, to_uint64, int_laws}
use speedex.Types.{Offer, OfferCategory}
use speedex.FixedPoint.{FractionalAsset, from_raw, floor, ceil, minus, from_integral, tax_and_round}
use speedex.Price.{a_over_b_lt_c}
use speedex.Orderbook.Clearing.{clear_offer_full, clear_offer_partial}
use speedex.Orderbook.CommitmentChecker.{SingleOrderbookStateCommitment}
use speedex.Orderbook.Interfaces.{
  Entries, OrderbookTrie, OrderbookTrieLaws, Accounts, AccountsLaws, insert_entry, find_entry,
  delete_entry, split_entries, endow_of, endow_below, lowest,
}
use speedex.Orderbook.ClearOffers.{
  ClearingState, process_clear_offers, process_partial, put_back, clear_all, complete_clearing,
}
use speedex.Orderbook.ClearOffers.Outcome.{Accepted}
use speedex.Orderbook.ClearOffers.Agrees.{process_clear_offers-Accepted}

abbrev trie : OrderbookTrie
trie = record {
  Trie = Entries;
  entries = λ x. x;
  empty = [];
  insert = insert_entry;
  perform_deletion = λ key x. (find_entry key x, delete_entry key x);
  endow_split = split_entries;
  endow_lt_key = endow_below;
  get_lowest_key = lowest;
  size = length;
  root_endow = endow_of;
}

trie-OrderbookTrieLaws : OrderbookTrieLaws trie
trie-OrderbookTrieLaws = record {
  entries_empty = refl;
  entries_insert = λ key o x. refl;
  deleted = λ key x. refl;
  entries_deletion = λ key x. refl;
  split_taken = λ endow x. refl;
  split_left = λ endow x. refl;
  below = λ key x. refl;
  lowest_key = λ x. refl;
  size_entries = λ x. refl;
  root = λ x. refl;
}

-- Balances of every owner and asset, and the set of the offers that are logged.
abbrev credit : (ℕ → ℕ → ℤ) → ℕ → ℕ → ℤ → ℕ → ℕ → ℤ
credit db p asset x q j = if p == q && asset == j then add64 (db q j) x else db q j

abbrev log_one : (ℕ → ℕ → Bool) → ℕ → ℕ → ℕ → ℕ → Bool
log_one log owner id o i = if owner == o && id == i then true else log o i

abbrev accounts : Accounts
accounts = record {
  Db = ℕ → ℕ → ℤ;
  Ptr = ℕ;
  Log = ℕ → ℕ → Bool;
  lookup_user = λ db owner. if ltb owner 100 then some owner else none;
  transfer_available = credit;
  log_self_modification = log_one;
}

add64_swap : (a b c : ℤ) → add64 (add64 a b) c ≡ add64 (add64 a c) b
add64_swap a b c = add64_assoc a b c ∙ ap wrap64 (plus_swap a b c) ∙ sym (add64_assoc a c b)
  where
    plus_swap : (a b c : ℤ) → a +ℤ b +ℤ c ≡ a +ℤ c +ℤ b
    plus_swap a b c = omega int_laws

credit_comm :
    (db : ℕ → ℕ → ℤ) (p q i j : ℕ) (x y : ℤ)
    → credit (credit db p i x) q j y ≡ credit (credit db q j y) p i x
credit_comm db p q i j x y = fun_ext λ r. fun_ext λ k. elim (Bool-cases (p == r && i == k)) [
  | inl first ↦ elim (Bool-cases (q == r && j == k)) [
    | inl second ↦ rw (first, second) (add64_swap (db r k) x y)
    | inr other ↦ rw (first, other) refl
  ]
  | inr other ↦ rw other refl
]

log_one_comm :
    (log : ℕ → ℕ → Bool) (owner other id other_id : ℕ)
    → log_one (log_one log owner id) other other_id ≡ log_one (log_one log other other_id) owner id
log_one_comm log owner other id other_id = fun_ext λ o. fun_ext λ i.
    elim (Bool-cases (owner == o && id == i)) [
      | inl first ↦ elim (Bool-cases (other == o && other_id == i)) [
        | inl second ↦ rw (first, second) refl
        | inr unlike ↦ rw (first, unlike) refl
      ]
      | inr unlike ↦ rw unlike refl
    ]

accounts-AccountsLaws : AccountsLaws accounts
accounts-AccountsLaws = record {
  lookup_transfer = λ db p asset owner x. refl;
  transfer_comm = credit_comm;
  log_comm = log_one_comm;
}

abbrev category : OfferCategory
category = record { sell_asset = 0; buy_asset = 1; offer_type = 0 }

abbrev offer : ℕ → ℕ → Offer
offer id min_price = record {
  category = category;
  offer_id = id;
  owner = 7;
  amount = 100;
  min_price = min_price;
}

-- The offer with key 2 is executed in part.
abbrev state : ClearingState trie accounts
state = record {
  committed_offers = (1, offer 1 (2 ^ 24)) ∷ (2, offer 2 (2 ^ 24)) ∷ (3, offer 3 (2 ^ 25)) ∷ [];
  thunk = record {
    partial_exec_key = 0;
    partial_exec_amount = pos 0;
    preexecute_partial_exec_offer = offer 0 0;
    cleared_offers = [];
    exists_partial_exec = false;
  };
  db = λ owner asset. pos 0;
  log = λ owner id. false;
  fully_clear_offer_count = 0;
  partial_clear_offer_count = 0;
}

abbrev prices : List ℕ
prices = (3 * 2 ^ 24) ∷ (2 * 2 ^ 24) ∷ []

-- 150 and a half units.
abbrev supply : FractionalAsset
supply = from_raw (150 * 2 ^ 10 + 2 ^ 9)

abbrev header : SingleOrderbookStateCommitment
header = record {
  root_hash = 0;
  fractional_supply_activated = 0;
  partial_exec_threshold_key = 0;
  threshold_key_is_null = 0;
  partial_exec_offer_activation_amount = 0;
}

process_clear_offers-Accepted_example :
    Accepted trie accounts category supply prices 15 state
      (process_clear_offers trie accounts category supply prices 15 header state)
process_clear_offers-Accepted_example =
    process_clear_offers-Accepted trie trie-OrderbookTrieLaws accounts accounts-AccountsLaws
      category supply prices 15 state header
      (
        omega arith,
        omega arith,
        refl,
        (omega arith, omega arith, refl, (omega arith, omega arith, refl, tt)),
      )
      (omega arith)

-- 50.5 units of the second offer are sold, 51 with the rounding.
state_cleared :
    Option.map
      (λ r. r.1.committed_offers)
      (process_clear_offers trie accounts category supply prices 15 header state)
    ≡ some ((2, record (offer 2 (2 ^ 24)) { amount = 49 }) ∷ (3, offer 3 (2 ^ 25)) ∷ [])
unfolding process_clear_offers process_partial put_back clear_all complete_clearing clear_offer_full
    clear_offer_partial split_entries find_entry delete_entry insert_entry endow_of floor ceil minus
    from_integral to_uint64 wrap64 tax_and_round a_over_b_lt_c
state_cleared = refl
