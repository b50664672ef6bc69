-- ===== src/Orderbook/Rounds/Tests/Marked.antt =====
-- A trie that is its entries and the keys that are marked for deletion.
use speedex.Prelude.{
  ℕ, ◌≡◌, refl, ap, ◌∙◌, if◌then◌else◌, ◌||◌, ◌==◌, Bool, false, List, [], ◌∷◌, ◌++◌, none, some,
  length, arith, Bool-cases, Option-cases, inl, inr,
}
use speedex.Orderbook.Interfaces.{
  Entries, OrderbookTrie, OrderbookTrieLaws, insert_entry, find_entry, delete_entry, split_entries,
  endow_of, endow_below, lowest,
}
use speedex.Orderbook.RoundTrie.{RoundTrie, RoundTrieLaws, Within}
use speedex.Orderbook.Rounds.Undo.{find_entry-insert_entry}

abbrev pub Keys : Type 0
Keys = List ℕ

abbrev has : Keys → ℕ → Bool
has [] k = false
has (j ∷ js) k = j == k || has js k

unfoldable pub unmarked_entries : Keys → Entries → Entries
unmarked_entries ks [] = []
unmarked_entries ks ((k, o) ∷ es) =
    let rest = unmarked_entries ks es in if has ks k then rest else (k, o) ∷ rest

unfoldable pub marked_entries : Keys → Entries → Entries
marked_entries [] es = []
marked_entries (k ∷ ks) es = elim (find_entry k es) [
  | none ↦ marked_entries ks es
  | some o ↦ (k, o) ∷ marked_entries ks es
]

unfoldable pub merge_entries : Entries → Entries → Entries
merge_entries es [] = es
merge_entries es ((k, o) ∷ fs) = insert_entry k o (merge_entries es fs)

abbrev pub trie : OrderbookTrie
trie = record {
  Trie = Entries × Keys;
  entries = λ x. x.0;
  empty = ([], []);
  insert = λ key o x. (insert_entry key o x.0, x.1);
  perform_deletion = λ key x. (find_entry key x.0, (delete_entry key x.0, x.1));
  endow_split = λ endow x. (((split_entries endow x.0).0, x.1), ((split_entries endow x.0).1, x.1));
  endow_lt_key = λ key x. endow_below key x.0;
  get_lowest_key = λ x. lowest x.0;
  size = λ x. length x.0;
  root_endow = λ x. endow_of x.0;
}

pub trie-OrderbookTrieLaws : OrderbookTrieLaws trie
trie-OrderbookTrieLaws = record {
  entries_empty = refl;
  entries_insert = λ key o x. refl;
  deleted = λ key x. refl;
  entries_deletion = λ key x. refl;
  split_taken = λ endow x. refl;
  split_left = λ endow x. refl;
  below = λ key x. refl;
  lowest_key = λ x. refl;
  size_entries = λ x. refl;
  root = λ x. refl;
}

abbrev pub rounds : RoundTrie trie
rounds = record {
  merge_in = λ x y. (merge_entries x.0 y.0, x.1 ++ y.1);
  clean_singlechild_nodes = λ key x. x;
  mark_for_deletion = λ key x. (x.0, key ∷ x.1);
  perform_marked_deletions = λ x. ((unmarked_entries x.1 x.0, []), marked_entries x.1 x.0);
  is_marked = λ x k. has x.1 k;
}

find_entry-merge_left :
    (k : ℕ) (es fs : Entries)
    → find_entry k fs ≡ none
    → find_entry k (merge_entries es fs) ≡ find_entry k es
unfolding merge_entries find_entry
find_entry-merge_left k es [] h = refl
find_entry-merge_left k es ((j, o) ∷ fs) h = elim (Bool-cases (j == k)) [
  | inl here ↦ ground (arith, here, h)
  | inr other ↦
      let absent : find_entry k fs ≡ none = ground (arith, other, h) in
      find_entry-insert_entry k j o (merge_entries es fs)
      ∙ rw other (find_entry-merge_left k es fs absent)
]

find_entry-merge_right :
    (k : ℕ) (es fs : Entries)
    → find_entry k es ≡ none
    → find_entry k (merge_entries es fs) ≡ find_entry k fs
unfolding merge_entries find_entry
find_entry-merge_right k es [] h = h
find_entry-merge_right k es ((j, o) ∷ fs) h =
    find_entry-insert_entry k j o (merge_entries es fs)
    ∙ ap (λ r. if j == k then some o else r) (find_entry-merge_right k es fs h)

find_entry-unmarked :
    (k : ℕ) (ks : Keys) (es : Entries)
    → find_entry k (unmarked_entries ks es) ≡ (if has ks k then none else find_entry k es)
unfolding unmarked_entries find_entry
find_entry-unmarked k ks [] = ground arith
find_entry-unmarked k ks ((j, o) ∷ es) =
    let rest = find_entry-unmarked k ks es in
    elim (Bool-cases (j == k)) [
      | inl here ↦
          let same_key : j ≡ k = ground arith in
          let same : has ks j ≡ has ks k = ap (has ks) same_key in
          elim (Bool-cases (has ks k)) [
            | inl marked ↦ rw (same, marked) (rest ∙ rw marked refl)
            | inr stays ↦ rw (same, stays, here) refl
          ]
      | inr other ↦ elim (Bool-cases (has ks j)) [
        | inl marked ↦ rw (marked, other) rest
        | inr stays ↦ rw (stays, other) rest
      ]
    ]

find_entry-marked :
    (k : ℕ) (ks : Keys) (es : Entries)
    → find_entry k (marked_entries ks es) ≡ (if has ks k then find_entry k es else none)
unfolding marked_entries find_entry
find_entry-marked k [] es = refl
find_entry-marked k (j ∷ js) es =
    let rest = find_entry-marked k js es in
    elim (Bool-cases (j == k)) [
      | inl here ↦
          let same_key : j ≡ k = ground arith in
          let same : find_entry j es ≡ find_entry k es = ap (λ i. find_entry i es) same_key in
          elim (Option-cases (find_entry k es)) [
            | inl absent ↦
                let none_there = same ∙ absent in
                rw (none_there, here, absent, marked_entries) (rest ∙ rw absent (ground arith))
            | inr (o, found) ↦
                let there = same ∙ found in rw (there, here, found, marked_entries) refl
          ]
      | inr other ↦ elim (Option-cases (find_entry j es)) [
        | inl absent ↦ rw (absent, other, marked_entries) rest
        | inr (o, found) ↦ rw (found, other, marked_entries) rest
      ]
    ]

marked-Within : (ks : Keys) (es : Entries) → Within (λ k. find_entry k es) (marked_entries ks es)
unfolding marked_entries
marked-Within [] es = tt
marked-Within (k ∷ ks) es = elim (Option-cases (find_entry k es)) [
  | inl absent ↦ rw (absent, marked_entries) (marked-Within ks es)
  | inr (o, found) ↦ rw (found, marked_entries) (found, marked-Within ks es)
]

has-append : (k : ℕ) (js ks : Keys) → has js k ≡ false → has ks k ≡ false → has (js ++ ks) k ≡ false
has-append k [] ks h g = g
has-append k (j ∷ js) ks h g =
    let rest = has-append k js ks (ground (arith, h)) g in ground (arith, h, rest)

pub rounds-RoundTrieLaws : RoundTrieLaws trie rounds
rounds-RoundTrieLaws = record {
  merged_left = λ k x y h. find_entry-merge_left k x.0 y.0 h;
  merged_right = λ k x y h. find_entry-merge_right k x.0 y.0 h;
  cleaned = λ k key x. refl;
  marked = λ k key x. refl;
  performed = λ k x. find_entry-unmarked k x.1 x.0;
  accumulated = λ k x. find_entry-marked k x.1 x.0;
  accumulated_within = λ x. marked-Within x.1 x.0;
  marks_mark = λ k key o x h. refl;
  marks_absent = λ k key x h. rw h refl;
  marks_insert = λ k key o x h. h;
  marks_merge = λ k x y h g. has-append k x.1 y.1 h g;
  marks_clean = λ k key x h. h;
  marks_performed = λ k x. refl;
  marks_deletion = λ k key x h. h;
  marks_taken = λ k endow x h. h;
  marks_left = λ k endow x h. h;
}
