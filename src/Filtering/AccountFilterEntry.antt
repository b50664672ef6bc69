-- ===== src/Filtering/AccountFilterEntry.antt =====
-- What the filter knows of one account (filtering/account_filter_entry.h and .cc). `lookup_user` is
-- the account database, and `same_tx` the comparison that the XDR library generates. A thrown error
-- is `none`. `required_assets` is kept in the order of first use: the loop over it asks only
-- whether one of its entries fails.
pub mod Owes
pub mod Required
pub mod DoubleCancel
pub mod Collect
use speedex.Prelude.{
  ℕ, ◌+◌, ◌^◌, ◌-◌, Bool, true, false, if◌then◌else◌, leb, ltb, ◌==◌, ◌||◌, ◌&&◌, not, Option, none,
  some, List, [], ◌∷◌, min,
}
use speedex.Prelude.Int.{ℤ, pos, ltb_ℤ, add64, int64_max}
use speedex.Prelude.Dict.{Dict, lookup, value_or, insert}
use speedex.Types.{
  native_asset, Operation, create_account, create_sell_offer, cancel_sell_offer, payment,
  money_printer, unknown, SignedTransaction,
}
use speedex.MemoryDatabase.RevertableAsset.{add_overflows}
use speedex.MemoryDatabase.UserAccount.{UserAccount, lookup_available_balance}
use speedex.Filtering.AccountCreationFilter.{AccountCreationFilter, log_account_creation}

pub data FilterResult : Type 0 where
  valid_no_txs valid_has_txs missing_requirement invalid_duplicate : FilterResult
  account_nexist overflow_requirement : FilterResult

pub record AccountFilterEntry : Type 0 where
  pub account : ℕ
  pub min_seq_no : ℕ
  pub initialized : Bool
  pub reqs_computed : Bool
  pub txs : Dict SignedTransaction
  pub required_assets : Dict ℤ
  pub consumed_cancel_ids : List ℕ
  pub found_bad_duplicate : Bool
  pub found_invalid_reqs : Bool
  pub found_account_nexist : Bool
  pub overflow_req : Bool
  pub double_cancel : Bool
  pub checked_reqs_cached : Bool

abbrev pub uint64_max : ℕ
uint64_max = 2 ^ 64 - 1

abbrev pub new_entry : ℕ → AccountFilterEntry
new_entry account = record {
  account = account;
  min_seq_no = uint64_max;
  initialized = true;
  reqs_computed = false;
  txs = [];
  required_assets = [];
  consumed_cancel_ids = [];
  found_bad_duplicate = false;
  found_invalid_reqs = false;
  found_account_nexist = false;
  overflow_req = false;
  double_cancel = false;
  checked_reqs_cached = false;
}

unfoldable pub found_error : AccountFilterEntry → Bool
found_error e =
    e.found_bad_duplicate || e.found_invalid_reqs || e.found_account_nexist || e.overflow_req
    || e.double_cancel

abbrev pub log_reqs_invalid : AccountFilterEntry → AccountFilterEntry
log_reqs_invalid e = record e { checked_reqs_cached = true; found_invalid_reqs = true }

abbrev pub log_reqs_checked : AccountFilterEntry → AccountFilterEntry
log_reqs_checked e = record e { checked_reqs_cached = true }

abbrev pub log_invalid_account : AccountFilterEntry → AccountFilterEntry
log_invalid_account e = record e { found_account_nexist = true }

abbrev pub log_bad_duplicate : AccountFilterEntry → AccountFilterEntry
log_bad_duplicate e = record e { found_bad_duplicate = true }

abbrev pub log_double_cancel : AccountFilterEntry → AccountFilterEntry
log_double_cancel e = record e { double_cancel = true }

unfoldable pub add_req : AccountFilterEntry → ℕ → ℤ → AccountFilterEntry
unfolding found_error add_overflows
add_req e asset amount =
    if ltb_ℤ amount (pos 0)
    then e
    else if found_error e
    then e
    else let required = value_or (pos 0) asset e.required_assets in
      if add_overflows amount required
      then record e {
        required_assets = insert asset int64_max e.required_assets;
        overflow_req = true;
      }
      else record e { required_assets = insert asset (add64 required amount) e.required_assets }

abbrev pub has_id : ℕ → List ℕ → Bool
has_id id [] = false
has_id id (x ∷ xs) = (x == id) || has_id id xs

unfoldable pub add_cancel_id : AccountFilterEntry → ℕ → AccountFilterEntry
add_cancel_id e id =
    if has_id id e.consumed_cancel_ids
    then log_double_cancel e
    else record e { consumed_cancel_ids = id ∷ e.consumed_cancel_ids }

-- One turn of the inner loop of `compute_reqs`.
unfoldable pub add_op :
    Operation
    → AccountFilterEntry
    → AccountCreationFilter
    → Option (AccountFilterEntry × AccountCreationFilter)
unfolding add_req add_cancel_id
add_op (create_account op) e accounts =
    some
      (add_req e native_asset op.starting_balance, log_account_creation accounts op.new_account_id)
add_op (create_sell_offer op) e accounts =
    some (add_req e op.category.sell_asset op.amount, accounts)
add_op (cancel_sell_offer op) e accounts = some (add_cancel_id e op.offer_id, accounts)
add_op (payment op) e accounts = some (add_req e op.asset op.amount, accounts)
add_op (money_printer op) e accounts = some (e, accounts)
add_op (unknown tag) e accounts = none

unfoldable pub add_ops :
    List Operation
    → AccountFilterEntry
    → AccountCreationFilter
    → Option (AccountFilterEntry × AccountCreationFilter)
unfolding add_op
add_ops [] e accounts = some (e, accounts)
add_ops (op ∷ ops) e accounts = elim (add_op op e accounts) [
  | none ↦ none
  | some (e', accounts') ↦ add_ops ops e' accounts'
]

-- The outer loop, over the transactions left.
unfoldable pub add_all :
    Dict SignedTransaction
    → AccountFilterEntry
    → AccountCreationFilter
    → Option (AccountFilterEntry × AccountCreationFilter)
unfolding add_ops add_req
add_all [] e accounts = some (e, accounts)
add_all ((n, tx) ∷ txs) e accounts = elim (add_ops tx.transaction.operations e accounts) [
  | none ↦ none
  | some (e', accounts') ↦
      add_all txs (add_req e' native_asset (pos tx.transaction.max_fee)) accounts'
]

unfoldable pub compute_reqs :
    AccountFilterEntry → AccountCreationFilter → Option (AccountFilterEntry × AccountCreationFilter)
unfolding add_all
compute_reqs e accounts = if e.reqs_computed then none else elim (add_all e.txs e accounts) [
  | none ↦ none
  | some (e', accounts') ↦ some (record e' { reqs_computed = true }, accounts')
]

-- The loop of `compute_validity` over the requirements left.
unfoldable pub covers : UserAccount → Dict ℤ → Bool
covers acc [] = true
covers acc ((asset, req) ∷ reqs) =
    let rest = covers acc reqs in
    if ltb_ℤ (lookup_available_balance acc asset) req then false else rest

unfoldable pub check_valid : AccountFilterEntry → Option FilterResult
check_valid e =
    if not e.checked_reqs_cached
    then none
    else if e.found_bad_duplicate
    then some invalid_duplicate
    else if e.found_account_nexist
    then some account_nexist
    else if e.found_invalid_reqs
    then some missing_requirement
    else if e.overflow_req
    then some overflow_requirement
    else some valid_has_txs

module _ (lookup_user : ℕ → Option UserAccount) where
  unfoldable pub compute_validity :
      AccountFilterEntry
      → AccountCreationFilter
      → Option (AccountFilterEntry × AccountCreationFilter)
  unfolding found_error compute_reqs covers
  compute_validity e accounts =
      if e.checked_reqs_cached
      then none
      else if found_error e
      then some (log_reqs_checked e, accounts)
      else if not e.initialized
      then none
      else elim (compute_reqs e accounts) [
        | none ↦ none
        | some (e', accounts') ↦ elim (lookup_user e'.account) [
          | none ↦ some (log_invalid_account e', accounts')
          | some acc ↦ some (
            if covers acc e'.required_assets then log_reqs_checked e' else log_reqs_invalid e',
            accounts',
          )
        ]
      ]
