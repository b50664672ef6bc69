-- ===== src/ModLog/AccountModificationEntry/Merge.antt =====
-- Merging two entries of an account is the union of what they log.
use speedex.Prelude.{
  ℕ, ◌≡◌, refl, Bool, true, false, ltb, ◌==◌, ==_refl, ◌||◌, ◌&&◌, Option, none, some, List, [],
  ◌∷◌, arith, ap, sym, ◌∙◌,
}
use speedex.Types.{SignedTransaction, TxIdentifier}
use speedex.ModLog.AccountModificationEntry.{
  merge_by, identifier_less, tx_number, tx_less, AccountModificationEntry, same_owner, merge_value,
}
use speedex.ModLog.AccountModificationEntry.Sets.{
  or_else, has_key, find_key, Distinct, has_key-empty, has_key-head, has_key-merge_by,
  find_key-merge_by, number_fits, same_number→≡, same_identifier, identifier_fits,
  same_identifier→≡, same_identifier_refl,
}

-- Whether a transaction with the sequence number is in the set, and which one.
abbrev pub has_tx : ℕ → List SignedTransaction → Bool
has_tx = has_key ltb (◌==◌) number_fits same_number→≡ ==_refl tx_number

abbrev pub find_tx : ℕ → List SignedTransaction → Option SignedTransaction
find_tx = find_key ltb (◌==◌) number_fits same_number→≡ ==_refl tx_number

abbrev pub DistinctTxs : List SignedTransaction → Type 0
DistinctTxs = Distinct ltb (◌==◌) number_fits same_number→≡ ==_refl tx_number

abbrev pub has_number : ℕ → List ℕ → Bool
has_number = has_key ltb (◌==◌) number_fits same_number→≡ ==_refl (λ id. id)

abbrev pub has_identifier : TxIdentifier → List TxIdentifier → Bool
has_identifier =
    has_key identifier_less same_identifier identifier_fits same_identifier→≡ same_identifier_refl
      (λ id. id)

both_true : (a b : Bool) → (a && b) ≡ true → (a ≡ true) × (b ≡ true)
both_true a b h = (ground arith, ground arith)

-- What a result of merging two entries has to be: an error where both have a transaction with the
-- same number, else the entry with everything of both, and the one with what is in both.
unfoldable pub Merged :
    AccountModificationEntry
    → AccountModificationEntry
    → Option (AccountModificationEntry × AccountModificationEntry)
    → Type 0
Merged e o none =
    (n : ℕ) × (has_tx n e.new_transactions_self ≡ true) × (has_tx n o.new_transactions_self ≡ true)
Merged e o (some (e', o')) =
    ((n : ℕ) → (has_tx n e.new_transactions_self && has_tx n o.new_transactions_self) ≡ false)
    × ((n : ℕ)
        → find_tx n e'.new_transactions_self
          ≡ or_else (find_tx n e.new_transactions_self) (find_tx n o.new_transactions_self))
    × ((n : ℕ)
        → (has_number n e'.identifiers_self
            ≡ (has_number n e.identifiers_self || has_number n o.identifiers_self))
          × (has_number n o'.identifiers_self
              ≡ (has_number n e.identifiers_self && has_number n o.identifiers_self)))
    × ((id : TxIdentifier)
        → (has_identifier id e'.identifiers_other
            ≡ (has_identifier id e.identifiers_other || has_identifier id o.identifiers_other))
          × (has_identifier id o'.identifiers_other
              ≡ (has_identifier id e.identifiers_other && has_identifier id o.identifiers_other)))
    × (e'.owner ≡ e.owner)
    × (o'.owner ≡ o.owner)
    × (o'.new_transactions_self ≡ [])

txs_merged :
    (n : ℕ) (xs ys : List SignedTransaction)
    → (has_tx n (merge_by tx_less xs ys).0 ≡ (has_tx n xs || has_tx n ys))
      × (has_tx n (merge_by tx_less xs ys).1 ≡ (has_tx n xs && has_tx n ys))
txs_merged n xs ys = has_key-merge_by ltb (◌==◌) number_fits same_number→≡ ==_refl tx_number n xs ys

Merged-of :
    (e o : AccountModificationEntry) (left : List SignedTransaction)
    → DistinctTxs o.new_transactions_self
    → (merge_by tx_less e.new_transactions_self o.new_transactions_self).1 ≡ left
    → Merged e o (elim left [
      | tx ∷ txs ↦ none
      | [] ↦ some (
        record e {
          identifiers_self = (merge_by ltb e.identifiers_self o.identifiers_self).0;
          identifiers_other = (merge_by identifier_less e.identifiers_other o.identifiers_other).0;
          new_transactions_self =
              (merge_by tx_less e.new_transactions_self o.new_transactions_self).0;
        },
        record o {
          identifiers_self = (merge_by ltb e.identifiers_self o.identifiers_self).1;
          identifiers_other = (merge_by identifier_less e.identifiers_other o.identifiers_other).1;
          new_transactions_self = [];
        },
      )
    ])
unfolding Merged
Merged-of e o [] distinct q = (
  λ n.
      sym (txs_merged n e.new_transactions_self o.new_transactions_self).1
      ∙ ap (has_tx n) q
      ∙ nothing n,
  λ n.
      find_key-merge_by ltb (◌==◌) number_fits same_number→≡ ==_refl tx_number n
        e.new_transactions_self o.new_transactions_self distinct,
  λ n.
      has_key-merge_by ltb (◌==◌) number_fits same_number→≡ ==_refl (λ id. id) n e.identifiers_self
        o.identifiers_self,
  λ id.
      has_key-merge_by identifier_less same_identifier identifier_fits same_identifier→≡
        same_identifier_refl (λ i. i) id e.identifiers_other o.identifiers_other,
  refl,
  refl,
  refl,
)
  where
    nothing : (n : ℕ) → has_tx n [] ≡ false
    nothing n = has_key-empty ltb (◌==◌) number_fits same_number→≡ ==_refl tx_number n
Merged-of e o (tx ∷ txs) distinct q =
    let n = tx_number tx in
    let head = has_key-head ltb (◌==◌) number_fits same_number→≡ ==_refl tx_number tx txs in
    let both = both_true (has_tx n e.new_transactions_self) (has_tx n o.new_transactions_self) (
      sym (txs_merged n e.new_transactions_self o.new_transactions_self).1
      ∙ ap (has_tx n) q
      ∙ head) in
    (n, both.0, both.1)

-- Where no two new transactions of the second entry have the same sequence number, as in a set
-- ordered by it, merging two entries of the same account fails exactly if both have a new
-- transaction with the same sequence number. Else the merged entry has the new transactions of
-- both, each as it was, the transactions by which the account modified itself and those of others
-- by which it was modified, of both entries, and the account of the first; the second entry keeps
-- its account, no new transaction, and the identifiers that both had.
pub merge_value-Merged :
    (e o : AccountModificationEntry)
    → DistinctTxs o.new_transactions_self
    → same_owner e.owner o.owner ≡ true
    → Merged e o (merge_value e o)
unfolding merge_value
merge_value-Merged e o distinct same = rw same (Merged-of e o _ distinct refl)
