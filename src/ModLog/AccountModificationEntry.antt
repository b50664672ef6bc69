-- ===== src/ModLog/AccountModificationEntry.antt =====
-- What a block did to one account (modlog/account_modification_entry.h and .cc). A `std::set` is a
-- list in the order of its comparison, `less`, without equivalent entries. A thrown error is `none`.
-- The serialisation is not modelled.
pub mod Sets
pub mod Merge
use speedex.Prelude.{
  ℕ, Bool, true, false, if◌then◌else◌, ltb, ◌==◌, ◌||◌, ◌&&◌, not, Option, none, some, List, [],
  ◌∷◌,
}
use speedex.Types.{SignedTransaction, TxIdentifier}

module _ {ℓ} {A : Type ℓ} (less : A → A → Bool) where
  -- `insert`: nothing where an equivalent entry is there.
  unfoldable pub insert_by : A → List A → List A
  insert_by x [] = x ∷ []
  insert_by x (y ∷ ys) =
      let rest = insert_by x ys in
      if less x y then x ∷ y ∷ ys else if less y x then y ∷ rest else y ∷ ys

  -- Whether the set has an entry that is equivalent to `x`.
  unfoldable pub has_by : A → List A → Bool
  has_by x [] = false
  has_by x (y ∷ ys) = (not (less x y) && not (less y x)) || has_by x ys

  -- `merge`: the first set takes the entries that it does not have, the second keeps the rest.
  unfoldable pub merge_by : List A → List A → List A × List A
  unfolding insert_by has_by
  merge_by xs [] = (xs, [])
  merge_by xs (y ∷ ys) =
      let (merged, left) = merge_by xs ys in
      if has_by y xs then (merged, y ∷ left) else (insert_by y merged, left)

-- `operator<=>` of transaction identifiers, as less-than.
abbrev pub identifier_less : TxIdentifier → TxIdentifier → Bool
identifier_less a b =
    ltb a.owner b.owner || (a.owner == b.owner && ltb a.sequence_number b.sequence_number)

-- The sequence number that `TxComparator` compares.
abbrev pub tx_number : SignedTransaction → ℕ
tx_number tx = tx.transaction.metadata.sequence_number

abbrev pub tx_less : SignedTransaction → SignedTransaction → Bool
tx_less a b = ltb (tx_number a) (tx_number b)

pub record AccountModificationEntry : Type 0 where
  pub owner : Option ℕ
  pub identifiers_self : List ℕ
  pub identifiers_other : List TxIdentifier
  pub new_transactions_self : List SignedTransaction

abbrev pub new_entry : ℕ → AccountModificationEntry
new_entry owner = record {
  owner = some owner;
  identifiers_self = [];
  identifiers_other = [];
  new_transactions_self = [];
}

unfoldable pub add_identifier_self : AccountModificationEntry → ℕ → AccountModificationEntry
unfolding insert_by
add_identifier_self e id = record e { identifiers_self = insert_by ltb id e.identifiers_self }

unfoldable pub add_identifier_other :
    AccountModificationEntry → TxIdentifier → AccountModificationEntry
unfolding insert_by
add_identifier_other e id = record e {
  identifiers_other = insert_by identifier_less id e.identifiers_other;
}

unfoldable pub add_tx_self : AccountModificationEntry → SignedTransaction → AccountModificationEntry
unfolding insert_by
add_tx_self e tx = record e { new_transactions_self = insert_by tx_less tx e.new_transactions_self }

abbrev pub same_owner : Option ℕ → Option ℕ → Bool
same_owner none none = true
same_owner none (some b) = false
same_owner (some a) none = false
same_owner (some a) (some b) = a == b

-- Both entries as the call leaves them.
unfoldable pub merge_value :
    AccountModificationEntry
    → AccountModificationEntry
    → Option (AccountModificationEntry × AccountModificationEntry)
unfolding merge_by
merge_value e other =
    let (ids, ids_left) = merge_by ltb e.identifiers_self other.identifiers_self in
    let (others, others_left) =
      merge_by identifier_less e.identifiers_other other.identifiers_other in
    let (txs, txs_left) = merge_by tx_less e.new_transactions_self other.new_transactions_self in
    if not (same_owner e.owner other.owner) then none else elim txs_left [
      | tx ∷ txs ↦ none
      | [] ↦ some (
        record e {
          identifiers_self = ids;
          identifiers_other = others;
          new_transactions_self = txs;
        },
        record other {
          identifiers_self = ids_left;
          identifiers_other = others_left;
          new_transactions_self = [];
        },
      )
    ]
