-- ===== src/Orderbook/Interfaces.antt =====
-- What the clearing of an orderbook uses: the trie of offers, of a submodule
-- (orderbook/typedefs.h names the instance), and the database and the log of modified accounts.
use speedex.Prelude.{
  ℕ, ◌+◌, ◌-◌, ◌≡◌, if◌then◌else◌, leb, ltb, ◌==◌, List, [], ◌∷◌, Option, none, some, length,
}
use speedex.Prelude.Int.{ℤ}
use speedex.Types.{Offer}

-- The entries of a trie, as it visits them: by increasing key.
abbrev pub Entries : Type 0
Entries = List (ℕ × Offer)

pub record OrderbookTrie : Type 1 where
  pub Trie : Type 0
  pub entries : Trie → Entries
  pub empty : Trie
  pub insert : ℕ → Offer → Trie → Trie
  pub perform_deletion : ℕ → Trie → Option Offer × Trie
  pub endow_split : ℕ → Trie → Trie × Trie
  pub endow_lt_key : ℕ → Trie → ℕ
  pub get_lowest_key : Trie → Option ℕ
  pub size : Trie → ℕ
  pub root_endow : Trie → ℕ

unfoldable pub insert_entry : ℕ → Offer → Entries → Entries
insert_entry key offer [] = (key, offer) ∷ []
insert_entry key offer ((k, o) ∷ es) =
    if ltb key k
    then (key, offer) ∷ (k, o) ∷ es
    else if key == k
    then (key, offer) ∷ es
    else (k, o) ∷ insert_entry key offer es

unfoldable pub find_entry : ℕ → Entries → Option Offer
find_entry key [] = none
find_entry key ((k, o) ∷ es) = if k == key then some o else find_entry key es

unfoldable pub delete_entry : ℕ → Entries → Entries
delete_entry key [] = []
delete_entry key ((k, o) ∷ es) = if k == key then es else (k, o) ∷ delete_entry key es

-- The longest run of entries from the lowest one on whose amounts together are at most `endow`,
-- and the entries after it.
unfoldable pub split_entries : ℕ → Entries → Entries × Entries
split_entries endow [] = ([], [])
split_entries endow ((k, o) ∷ es) =
    let (taken, left) = split_entries (endow - o.amount) es in
    if leb o.amount endow then ((k, o) ∷ taken, left) else ([], (k, o) ∷ es)

unfoldable pub endow_of : Entries → ℕ
endow_of [] = 0
endow_of ((k, o) ∷ es) = o.amount + endow_of es

unfoldable pub endow_below : ℕ → Entries → ℕ
endow_below key [] = 0
endow_below key ((k, o) ∷ es) = (if ltb k key then o.amount else 0) + endow_below key es

abbrev pub lowest : Entries → Option ℕ
lowest [] = none
lowest ((k, o) ∷ es) = some k

-- The operations by what they do to the entries.
pub record OrderbookTrieLaws (t : OrderbookTrie) : Type 0 where
  pub entries_empty : t.entries t.empty ≡ []
  pub entries_insert :
      (key : ℕ) (o : Offer) (x : t.Trie)
      → t.entries (t.insert key o x) ≡ insert_entry key o (t.entries x)
  pub deleted : (key : ℕ) (x : t.Trie) → (t.perform_deletion key x).0 ≡ find_entry key (t.entries x)
  pub entries_deletion :
      (key : ℕ) (x : t.Trie)
      → t.entries (t.perform_deletion key x).1 ≡ delete_entry key (t.entries x)
  pub split_taken :
      (endow : ℕ) (x : t.Trie)
      → t.entries (t.endow_split endow x).0 ≡ (split_entries endow (t.entries x)).0
  pub split_left :
      (endow : ℕ) (x : t.Trie)
      → t.entries (t.endow_split endow x).1 ≡ (split_entries endow (t.entries x)).1
  pub below : (key : ℕ) (x : t.Trie) → t.endow_lt_key key x ≡ endow_below key (t.entries x)
  pub lowest_key : (x : t.Trie) → t.get_lowest_key x ≡ lowest (t.entries x)
  pub size_entries : (x : t.Trie) → t.size x ≡ length (t.entries x)
  pub root : (x : t.Trie) → t.root_endow x ≡ endow_of (t.entries x)

-- The calls of the database and of the log that the clearing makes.
pub record Accounts : Type 1 where
  pub Db : Type 0
  pub Ptr : Type 0
  pub Log : Type 0
  pub lookup_user : Db → ℕ → Option Ptr
  pub transfer_available : Db → Ptr → ℕ → ℤ → Db
  pub log_self_modification : Log → ℕ → ℕ → Log

-- No transfer moves an account, and the order of transfers and of log entries does not matter.
pub record AccountsLaws (a : Accounts) : Type 0 where
  pub lookup_transfer :
      (db : a.Db) (p : a.Ptr) (asset owner : ℕ) (x : ℤ)
      → a.lookup_user (a.transfer_available db p asset x) owner ≡ a.lookup_user db owner
  pub transfer_comm :
      (db : a.Db) (p q : a.Ptr) (i j : ℕ) (x y : ℤ)
      → a.transfer_available (a.transfer_available db p i x) q j y
        ≡ a.transfer_available (a.transfer_available db q j y) p i x
  pub log_comm :
      (log : a.Log) (owner other id other_id : ℕ)
      → a.log_self_modification (a.log_self_modification log owner id) other other_id
        ≡ a.log_self_modification (a.log_self_modification log other other_id) owner id
