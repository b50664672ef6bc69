-- ===== src/HeaderHash/BlockHeaderHashMap/Rounds.antt =====
-- The map has the rounds from 1 to the last committed one.
use speedex.Prelude.{
  ℕ, zero, suc, ◌+◌, ◌-◌, ◌≤◌, ◌≡◌, refl, sym, ap, ◌∙◌, true, false, if◌then◌else◌, ltb, leb, ◌==◌,
  ◌&&◌, Option, none, some, arith, Bool-cases, Option-cases, inl, inr,
}
use speedex.Prelude.Dict.{Dict, lookup, insert, lookup-insert}
use speedex.HeaderHash.BlockHeaderHashMap.{
  BlockHeaderHashValue, present, HashTrie, BlockHeaderHashMap, delete_rounds, put_round, put_rounds,
  rollback_to_committed_round, persist_lmdb,
}

absent : {A : Type 0} (o : Option A) → present o ≡ false → o ≡ none
absent none e = refl
absent (some a) e = absurd (ground (arith, e))

module _ (h : HashTrie) where
  -- The trie has the rounds from 1 to `last` and no other.
  abbrev pub HasRounds : h.Trie → ℕ → Type 0
  HasRounds t last = (j : ℕ) → present (h.get_value t j) ≡ (leb 1 j && leb j last)

  -- After the deletion of the rounds from `i` on.
  abbrev Cut : h.Trie → ℕ → Option h.Trie → Type 0
  Cut t i none = ⊥
  Cut t i (some t') = (j : ℕ) → h.get_value t' j ≡ (if leb i j then none else h.get_value t j)

  Cut-step :
      (t : h.Trie) (i : ℕ) (r : Option h.Trie)
      → Cut (h.perform_deletion t i).0 (i + 1) r
      → Cut t i r
  Cut-step t i none cut = cut
  Cut-step t i (some t') cut = λ j. ground (arith, cut j, h.get_value-perform_deletion t i j)

  delete_rounds-Cut :
      (count i : ℕ) (t : h.Trie)
      → 1 ≤ i
      → ((j : ℕ) → i ≤ j → present (h.get_value t j) ≡ ltb j (i + count))
      → Cut t i (delete_rounds h count i t)
  unfolding delete_rounds
  delete_rounds-Cut zero i t positive rounds = λ j. elim (Bool-cases (leb i j)) [
    | inl past ↦ rw past (absent (h.get_value t j) (rounds j (ground arith) ∙ ground arith))
    | inr before ↦ rw before refl
  ]
  delete_rounds-Cut (suc count) i t positive rounds =
      let some_round : (i == 0) ≡ false = ground arith in
      let there : (h.perform_deletion t i).1 ≡ true =
        h.perform_deletion-present t i ∙ rounds i (omega arith) ∙ ground arith in
      rw (some_round, there)
        (Cut-step t i _ (
          delete_rounds-Cut count (i + 1) (h.perform_deletion t i).0 (omega arith) (λ j past.
            let other : (i == j) ≡ false = ground arith in
            ap present (h.get_value-perform_deletion t i j ∙ rw other refl)
            ∙ rounds j (omega arith)
            ∙ ground arith)))

  -- What a rollback to round `c` has to leave.
  abbrev pub RolledBack : BlockHeaderHashMap h → ℕ → Option (BlockHeaderHashMap h) → Type 0
  RolledBack m c none = ⊥
  RolledBack m c (some m') =
      (m'.last_committed_block_number ≡ c)
      × HasRounds m'.block_map c
      × ((j : ℕ) → j ≤ c → h.get_value m'.block_map j ≡ h.get_value m.block_map j)
      × (m'.persisted_round_number ≡ m.persisted_round_number)
      × (m'.stored ≡ m.stored)

  RolledBack-Cut :
      (m : BlockHeaderHashMap h) (c : ℕ) (r : Option h.Trie)
      → HasRounds m.block_map m.last_committed_block_number
      → c ≤ m.last_committed_block_number
      → Cut m.block_map (c + 1) r
      → RolledBack m c (elim r [
        | none ↦ none
        | some t ↦ some (record m { block_map = t; last_committed_block_number = c })
      ])
  RolledBack-Cut m c none rounds low cut = cut
  RolledBack-Cut m c (some t) rounds low cut = (
    refl,
    λ j. elim (Bool-cases (leb (c + 1) j)) [
      | inl past ↦
          let gone : h.get_value t j ≡ none = cut j ∙ rw past refl in ap present gone ∙ ground arith
      | inr before ↦
          let same : h.get_value t j ≡ h.get_value m.block_map j = cut j ∙ rw before refl in
          ap present same ∙ rounds j ∙ ground arith
    ],
    λ j before. let inside : leb (c + 1) j ≡ false = ground arith in cut j ∙ rw inside refl,
    refl,
    refl,
  )

  -- Where the map has exactly the rounds up to its last one, a rollback to a round between the one
  -- that is stored on disk and the last one raises no error. It leaves exactly the rounds up to
  -- that one, each with the hash it had, and the disk as it was.
  pub rollback_to_committed_round-RolledBack :
      (m : BlockHeaderHashMap h) (c : ℕ)
      → HasRounds m.block_map m.last_committed_block_number
      → m.persisted_round_number ≤ c
      → c ≤ m.last_committed_block_number
      → RolledBack m c (rollback_to_committed_round h m c)
  unfolding rollback_to_committed_round
  rollback_to_committed_round-RolledBack m c rounds stored low =
      let kept : ltb c m.persisted_round_number ≡ false = ground arith in
      rw kept (
        RolledBack-Cut m c _ rounds low (
          delete_rounds-Cut (m.last_committed_block_number - c) (c + 1) m.block_map (omega arith)
            (λ j past. rounds j ∙ ground arith)))

  -- The disk has each round up to the one it has stored, with the hash that the map has.
  abbrev pub OnDisk : BlockHeaderHashMap h → Type 0
  OnDisk m =
      (j : ℕ) → 1 ≤ j → j ≤ m.persisted_round_number → lookup j m.stored ≡ h.get_value m.block_map j

  -- After `count` rounds from `i` on are put on the disk.
  abbrev Put :
      h.Trie → ℕ → ℕ → Dict BlockHeaderHashValue → Option (Dict BlockHeaderHashValue) → Type 0
  Put t count i stored none = ⊥
  Put t count i stored (some stored') =
      (j : ℕ)
      → lookup j stored'
        ≡ (if leb 1 j && (leb i j && ltb j (i + count)) then h.get_value t j else lookup j stored)

  Put-genesis :
      (t : h.Trie) (count : ℕ) (stored : Dict BlockHeaderHashValue)
      (r : Option (Dict BlockHeaderHashValue))
      → Put t count 1 stored r
      → Put t (suc count) 0 stored r
  Put-genesis t count stored none put = put
  Put-genesis t count stored (some stored') put = λ j. ground (arith, put j)

  Put-step :
      (t : h.Trie) (count i : ℕ) (v : BlockHeaderHashValue) (stored : Dict BlockHeaderHashValue)
      (r : Option (Dict BlockHeaderHashValue))
      → 1 ≤ i
      → h.get_value t i ≡ some v
      → Put t count (i + 1) (insert i v stored) r
      → Put t (suc count) i stored r
  Put-step t count i v stored none positive found put = put
  Put-step t count i v stored (some stored') positive found put = λ j. elim (Bool-cases (i == j)) [
    | inl here ↦
        let key : j ≡ i = ground arith in
        let inside : (leb 1 j && (leb i j && ltb j (i + suc count))) ≡ true = ground arith in
        let later : (leb 1 j && (leb (i + 1) j && ltb j (i + 1 + count))) ≡ false = ground arith in
        rw inside (
          put j
          ∙ rw later (lookup-insert i j v stored ∙ rw here refl)
          ∙ sym found
          ∙ ap (h.get_value t) (sym key))
    | inr other ↦
        let same : lookup j (insert i v stored) ≡ lookup j stored =
          lookup-insert i j v stored ∙ rw other refl in
        ground (arith, put j, same)
  ]

  put_round-found :
      (t : h.Trie) (i : ℕ) (v : BlockHeaderHashValue) (stored : Dict BlockHeaderHashValue)
      → 1 ≤ i
      → h.get_value t i ≡ some v
      → put_round h t i stored ≡ some (insert i v stored)
  unfolding put_round
  put_round-found t i v stored positive found =
      let later : (i == 0) ≡ false = ground arith in rw (later, found, put_round) refl

  put_rounds-Put :
      (t : h.Trie) (count i : ℕ) (stored : Dict BlockHeaderHashValue) (last : ℕ)
      → HasRounds t last
      → i + count ≤ last + 1
      → Put t count i stored (put_rounds h t count i stored)
  unfolding put_rounds
  put_rounds-Put t zero i stored last rounds low = λ j.
      let outside : (leb 1 j && (leb i j && ltb j (i + 0))) ≡ false = ground arith in
      rw outside refl
  put_rounds-Put t (suc count) zero stored last rounds low =
      Put-genesis t count stored (put_rounds h t count 1 stored)
        (put_rounds-Put t count 1 stored last rounds (omega arith))
  put_rounds-Put t (suc count) (suc i) stored last rounds low =
      elim (Option-cases (h.get_value t (suc i))) [
        | inl missing ↦
            let held : present (h.get_value t (suc i)) ≡ true = rounds (suc i) ∙ ground arith in
            absurd (ground (arith, held, missing))
        | inr (v, found) ↦
            rw (put_round-found t (suc i) v stored (omega arith) found, put_rounds)
              (Put-step t count (suc i) v stored _ (omega arith) found (
                put_rounds-Put t count (suc i + 1) (insert (suc i) v stored) last rounds
                  (omega arith)))
      ]

  abbrev pub Persisted : BlockHeaderHashMap h → ℕ → Option (BlockHeaderHashMap h) → Type 0
  Persisted m n none = ⊥
  Persisted m n (some m') =
      OnDisk m'
      × (m'.persisted_round_number ≡ n)
      × (m'.block_map ≡ m.block_map)
      × (m'.last_committed_block_number ≡ m.last_committed_block_number)

  Persisted-Put :
      (m : BlockHeaderHashMap h) (n : ℕ) (r : Option (Dict BlockHeaderHashValue))
      → OnDisk m
      → Put m.block_map (n + 1 - m.persisted_round_number) m.persisted_round_number m.stored r
      → Persisted m n (elim r [
        | none ↦ none
        | some stored ↦ some (record m { persisted_round_number = n; stored = stored })
      ])
  Persisted-Put m n none disk put = put
  Persisted-Put m n (some stored) disk put =
      (λ j positive low. ground (arith, put j, disk j), refl, refl, refl)

  -- Where the map has exactly the rounds up to its last one and the disk has those up to the round
  -- it has stored, persisting up to a round of the map raises no error, and leaves every round up
  -- to that one on disk with its hash, and the map as it was.
  pub persist_lmdb-Persisted :
      (m : BlockHeaderHashMap h) (n : ℕ)
      → HasRounds m.block_map m.last_committed_block_number
      → OnDisk m
      → n ≤ m.last_committed_block_number
      → m.persisted_round_number ≤ n
      → Persisted m n (persist_lmdb h m n)
  unfolding persist_lmdb
  persist_lmdb-Persisted m n rounds disk low later = Persisted-Put m n _ disk (
      put_rounds-Put m.block_map (n + 1 - m.persisted_round_number) m.persisted_round_number
        m.stored m.last_committed_block_number rounds (omega arith))
