-- ===== src/Orderbook/Rounds/Thunks.antt =====
-- The list of an orderbook's thunks, and the keys of the offers that a thunk's block added.
use speedex.Prelude.{
  ℕ, ◌+◌, ◌%◌, ◌^◌, ◌≤◌, ◌<◌, ◌≡◌, refl, sym, ap, subst, ◌==◌, ltb, true, false, List, [], ◌∷◌,
  ◌++◌, Option, none, some, map, All, Bool-cases, Option-cases, inl, inr, arith,
}
use speedex.Types.{Offer}
use speedex.Orderbook.Interfaces.{Entries, OrderbookTrie, find_entry}
use speedex.Orderbook.RoundTrie.{RoundTrie}
use speedex.Orderbook.Rounds.{
  RoundThunk, generate_orderbook_trie_key, add_new_thunk_nolock, update_top, undo_thunk, undo_later,
}
use speedex.Orderbook.Rounds.Undo.{has_key}

-- Every offer stands at its key.
abbrev pub Keyed : Entries → Type 0
Keyed es = All (λ entry. generate_orderbook_trie_key entry.1 ≡ entry.0) es

pub not_new :
    (k : ℕ) (es : Entries)
    → Keyed es
    → has_key k (map (λ e. e.1) es) ≡ false
    → find_entry k es ≡ none
unfolding find_entry
not_new k [] h other = refl
not_new k ((j, o) ∷ es) h other =
    let unlike : (j == k) ≡ false = rw (sym h.0) (ground (arith, other)) in
    rw unlike (not_new k es h.1 (ground (arith, other)))

pub is_new :
    (k : ℕ) (es : Entries)
    → Keyed es
    → has_key k (map (λ e. e.1) es) ≡ true
    → (o : Offer) × (find_entry k es ≡ some o)
unfolding find_entry
is_new k [] h new = ground (arith, new)
is_new k ((j, o) ∷ es) h new = elim (Bool-cases (j == k)) [
  | inl here ↦ (o, rw here refl)
  | inr other ↦
      let unlike : (generate_orderbook_trie_key o == k) ≡ false = rw h.0 other in
      let (p, found) = is_new k es h.1 (ground (arith, new, unlike)) in (p, rw other found)
]

-- If the thunk is of a block after `n`, its partly executed offer is not one that its block added.
abbrev pub PartialKnown : {Trie : Type 0} → ℕ → RoundThunk Trie → Type 0
PartialKnown n thunk =
    n < thunk.current_block_number
    → thunk.clearing.exists_partial_exec ≡ true
    → has_key thunk.clearing.partial_exec_key thunk.uncommitted_offers_vec ≡ false

pub All-last {ℓ κ} :
    {A : Type ℓ} (P : A → Type κ) (xs : List A) (x : A) → All P (xs ++ x ∷ []) → P x
All-last P [] x h = h.0
All-last P (y ∷ xs) x h = All-last P xs x h.1

module _ (t : OrderbookTrie) (r : RoundTrie t) where
  -- A new thunk is the top one.
  abbrev pub LastAdded :
      RoundThunk t.Trie → List (RoundThunk t.Trie) → Option (List (RoundThunk t.Trie)) → Type 0
  LastAdded thunk ts none = Unit
  LastAdded thunk ts (some us) = us ≡ ts ++ thunk ∷ []

  pub added_last :
      (thunk : RoundThunk t.Trie) (ts : List (RoundThunk t.Trie))
      → LastAdded thunk ts (add_new_thunk_nolock t r thunk ts)
  unfolding add_new_thunk_nolock
  added_last thunk [] = refl
  added_last thunk (top ∷ []) =
      elim (Bool-cases (ltb thunk.current_block_number ((top.current_block_number + 1) % 2 ^ 64))) [
        | inl early ↦ rw early tt
        | inr fine ↦ rw fine refl
      ]
  added_last thunk (older ∷ next ∷ ts) =
      let rest = added_last thunk (next ∷ ts) in
      elim (Option-cases (add_new_thunk_nolock t r thunk (next ∷ ts))) [
        | inl failed ↦ rw failed tt
        | inr (vs, done) ↦
            rw done (ap (λ us. older ∷ us) (subst (λ m. LastAdded thunk (next ∷ ts) m) done rest))
      ]

  pub update_top-last :
      (f : RoundThunk t.Trie → RoundThunk t.Trie) (thunk : RoundThunk t.Trie)
      (ts : List (RoundThunk t.Trie))
      → update_top t r f (ts ++ thunk ∷ []) ≡ ts ++ f thunk ∷ []
  unfolding update_top
  update_top-last f thunk [] = refl
  update_top-last f thunk (x ∷ []) = refl
  update_top-last f thunk (x ∷ y ∷ ts) = ap (λ us. x ∷ us) (update_top-last f thunk (y ∷ ts))

  pub undo_later-last :
      (n : ℕ) (thunk : RoundThunk t.Trie) (ts : List (RoundThunk t.Trie)) (x : t.Trie)
      → All (λ th. th.current_block_number ≤ n) ts
      → n < thunk.current_block_number
      → undo_later t r n (ts ++ thunk ∷ []) x ≡ (ts, undo_thunk t r thunk x)
  unfolding undo_later
  undo_later-last n thunk [] x h later =
      let yes : ltb n thunk.current_block_number ≡ true = ground arith in rw yes refl
  undo_later-last n thunk (th ∷ ts) x h later =
      let no : ltb n th.current_block_number ≡ false = ground (arith, h.0) in
      rw (no, undo_later-last n thunk ts x h.1 later) refl
