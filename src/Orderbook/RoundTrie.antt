-- ===== src/Orderbook/RoundTrie.antt =====
-- What the rounds of an orderbook use of the trie of offers besides its lookups: merges, marks for
-- deletion and their execution (orderbook/typedefs.h names the instance, of a submodule).
use speedex.Prelude.{ℕ, ◌≡◌, ◌||◌, Bool, false, if◌then◌else◌, ◌==◌, [], ◌∷◌, Option, none, some}
use speedex.Types.{Offer}
use speedex.Orderbook.Interfaces.{Entries, OrderbookTrie, find_entry}

-- `merge_in x y` moves the entries of `y` into `x`; `perform_marked_deletions` returns what is left
-- and what it deletes.
pub record RoundTrie (t : OrderbookTrie) : Type 0 where
  pub merge_in : t.Trie → t.Trie → t.Trie
  pub clean_singlechild_nodes : ℕ → t.Trie → t.Trie
  pub mark_for_deletion : ℕ → t.Trie → t.Trie
  pub perform_marked_deletions : t.Trie → t.Trie × Entries
  pub is_marked : t.Trie → ℕ → Bool

abbrev pub find : (t : OrderbookTrie) → ℕ → t.Trie → Option Offer
find t key x = find_entry key (t.entries x)

-- Each entry is the one that the lookup has at its key.
abbrev pub Within : (ℕ → Option Offer) → Entries → Type 0
Within lookup [] = Unit
Within lookup ((k, o) ∷ es) = (lookup k ≡ some o) × Within lookup es

-- The operations by what they do to lookups and to marks. A merge is described where one of the
-- two tries has nothing.
pub record RoundTrieLaws (t : OrderbookTrie) (r : RoundTrie t) : Type 0 where
  pub merged_left :
      (k : ℕ) (x y : t.Trie) → find t k y ≡ none → find t k (r.merge_in x y) ≡ find t k x
  pub merged_right :
      (k : ℕ) (x y : t.Trie) → find t k x ≡ none → find t k (r.merge_in x y) ≡ find t k y
  pub cleaned : (k key : ℕ) (x : t.Trie) → find t k (r.clean_singlechild_nodes key x) ≡ find t k x
  pub marked : (k key : ℕ) (x : t.Trie) → find t k (r.mark_for_deletion key x) ≡ find t k x
  pub performed :
      (k : ℕ) (x : t.Trie)
      → find t k (r.perform_marked_deletions x).0 ≡ (if r.is_marked x k then none else find t k x)
  pub accumulated :
      (k : ℕ) (x : t.Trie)
      → find_entry k (r.perform_marked_deletions x).1
        ≡ (if r.is_marked x k then find t k x else none)
  pub accumulated_within : (x : t.Trie) → Within (λ k. find t k x) (r.perform_marked_deletions x).1
  pub marks_mark :
      (k key : ℕ) (o : Offer) (x : t.Trie)
      → find t key x ≡ some o
      → r.is_marked (r.mark_for_deletion key x) k ≡ (key == k || r.is_marked x k)
  pub marks_absent :
      (k key : ℕ) (x : t.Trie)
      → (key == k) ≡ false
      → r.is_marked (r.mark_for_deletion key x) k ≡ r.is_marked x k
  pub marks_insert :
      (k key : ℕ) (o : Offer) (x : t.Trie)
      → r.is_marked x k ≡ false
      → r.is_marked (t.insert key o x) k ≡ false
  pub marks_merge :
      (k : ℕ) (x y : t.Trie)
      → r.is_marked x k ≡ false
      → r.is_marked y k ≡ false
      → r.is_marked (r.merge_in x y) k ≡ false
  pub marks_clean :
      (k key : ℕ) (x : t.Trie)
      → r.is_marked x k ≡ false
      → r.is_marked (r.clean_singlechild_nodes key x) k ≡ false
  pub marks_performed :
      (k : ℕ) (x : t.Trie) → r.is_marked (r.perform_marked_deletions x).0 k ≡ false
  pub marks_deletion :
      (k key : ℕ) (x : t.Trie)
      → r.is_marked x k ≡ false
      → r.is_marked (t.perform_deletion key x).1 k ≡ false
  pub marks_taken :
      (k endow : ℕ) (x : t.Trie)
      → r.is_marked x k ≡ false
      → r.is_marked (t.endow_split endow x).0 k ≡ false
  pub marks_left :
      (k endow : ℕ) (x : t.Trie)
      → r.is_marked x k ≡ false
      → r.is_marked (t.endow_split endow x).1 k ≡ false
