-- ===== src/Filtering/AccountFilterEntry/DoubleCancel.antt =====
-- A cancellation of the same offer twice hides the requirements that come after it.
use speedex.Prelude.{ℕ, ◌≡◌, refl, Option, some, [], ◌∷◌, arith, true, false, ==_refl}
use speedex.Prelude.Int.{ℤ, pos}
use speedex.Types.{native_asset, OfferCategory, SignedTransaction, cancel_sell_offer, payment}
use speedex.MemoryDatabase.UserAccount.{UserAccount}
use speedex.Filtering.AccountCreationFilter.{AccountCreationFilter}
use speedex.Filtering.AccountFilterEntry.{
  AccountFilterEntry, new_entry, log_reqs_checked, compute_validity, check_valid, valid_has_txs,
  found_error, compute_reqs, covers, add_all, add_ops, add_op, add_req, add_cancel_id,
}

-- Two cancellations of an offer, and a payment.
abbrev pub cancels_twice : ℕ → ℕ → ℕ → OfferCategory → ℕ → ℕ → ℕ → ℤ → SignedTransaction
cancels_twice owner seq fee category id receiver asset amount = record {
  transaction = record {
    metadata = record { source_account = owner; sequence_number = seq };
    operations =
        cancel_sell_offer (record { category = category; offer_id = id; min_price = 1 })
        ∷ cancel_sell_offer (record { category = category; offer_id = id; min_price = 1 })
        ∷ payment (record { receiver = receiver; asset = asset; amount = amount })
        ∷ [];
    max_fee = fee;
  };
  signature = 0;
}

abbrev entry_of : ℕ → ℕ → SignedTransaction → AccountFilterEntry
entry_of owner seq tx = record (new_entry owner) { txs = (seq, tx) ∷ [] }

error-skips :
    (e : AccountFilterEntry) (asset : ℕ) (amount : ℤ)
    → found_error e ≡ true
    → add_req e asset amount ≡ e
unfolding add_req
error-skips e asset amount bad = rw bad (ground arith)

abbrev marked : ℕ → AccountFilterEntry → AccountFilterEntry
marked id e = record e { consumed_cancel_ids = id ∷ []; double_cancel = true }

requires-nothing :
    (owner seq fee : ℕ) (category : OfferCategory) (id receiver asset : ℕ) (amount : ℤ)
    (accounts : AccountCreationFilter)
    → let tx = cancels_twice owner seq fee category id receiver asset amount in
      let e = entry_of owner seq tx in add_all e.txs e accounts ≡ some (marked id e, accounts)
unfolding add_all add_ops add_op add_cancel_id found_error
requires-nothing owner seq fee category id receiver asset amount accounts =
    let tx = cancels_twice owner seq fee category id receiver asset amount in
    let e = marked id (entry_of owner seq tx) in
    rw (==_refl id, error-skips e asset amount refl, error-skips e native_asset (pos fee) refl) refl

accepts :
    (lookup_user : ℕ → Option UserAccount) (acc : UserAccount) (e e' : AccountFilterEntry)
    (accounts : AccountCreationFilter)
    → e.checked_reqs_cached ≡ false
    → found_error e ≡ false
    → e.initialized ≡ true
    → e.reqs_computed ≡ false
    → add_all e.txs e accounts ≡ some (e', accounts)
    → lookup_user e'.account ≡ some acc
    → covers acc e'.required_assets ≡ true
    → compute_validity lookup_user e accounts
      ≡ some (log_reqs_checked (record e' { reqs_computed = true }), accounts)
unfolding compute_validity compute_reqs
accepts lookup_user acc e e' accounts unchecked ok ready fresh computed found covered =
    rw (computed, unchecked, ok, ready, fresh, found, covered)

-- The filter accepts an account whose only transaction cancels one offer twice and then pays,
-- whatever the amount and the fee are and whatever the account has available.
pub double_cancel-accepted :
    (lookup_user : ℕ → Option UserAccount) (acc : UserAccount) (accounts : AccountCreationFilter)
    (owner seq fee : ℕ) (category : OfferCategory) (id receiver asset : ℕ) (amount : ℤ)
    → lookup_user owner ≡ some acc
    → let e = record (new_entry owner) {
      txs = (seq, cancels_twice owner seq fee category id receiver asset amount) ∷ [];
    } in
      (e' : AccountFilterEntry) × (compute_validity lookup_user e accounts ≡ some (e', accounts))
      × (check_valid e' ≡ some valid_has_txs)
unfolding found_error covers check_valid
double_cancel-accepted lookup_user acc accounts owner seq fee category id receiver asset amount h =
    let e = entry_of owner seq (cancels_twice owner seq fee category id receiver asset amount) in
    (
      _,
      accepts lookup_user acc e (marked id e) accounts refl refl refl refl
          (requires-nothing owner seq fee category id receiver asset amount accounts) h refl,
      refl,
    )
