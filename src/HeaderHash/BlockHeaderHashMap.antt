-- ===== src/HeaderHash/BlockHeaderHashMap.antt =====
-- The hashes of the blocks so far (`BlockHeaderHashMap`, header_hash/block_header_hash_map.h and
-- .cc). The trie is of a submodule, and a parameter with its laws; a key is the block number whose
-- big-endian bytes it is. The instance of LMDB is its stored round number and its contents; it is
-- taken as enabled and open.
pub mod Rounds
mod Tests
use speedex.Prelude.{
  ℕ, zero, suc, ◌+◌, ◌-◌, ◌%◌, ◌^◌, ◌≡◌, Bool, true, false, if◌then◌else◌, ltb, ◌==◌, not, Option,
  none, some, [], ◌∷◌,
}
use speedex.Prelude.Dict.{Dict, insert}

pub record BlockHeaderHashValue : Type 0 where
  pub hash : ℕ
  pub validation_success : ℕ

abbrev pub present {ℓ} : {A : Type ℓ} → Option A → Bool
present none = false
present (some a) = true

-- `MerkleTrie`: an insertion replaces what the key had, and a deletion tells whether the key was
-- there.
pub record HashTrie : Type 1 where
  pub Trie : Type 0
  pub get_value : Trie → ℕ → Option BlockHeaderHashValue
  pub trie_insert : Trie → ℕ → BlockHeaderHashValue → Trie
  pub perform_deletion : Trie → ℕ → Trie × Bool
  pub get_value-trie_insert :
      (t : Trie) (k j : ℕ) (v : BlockHeaderHashValue)
      → get_value (trie_insert t k v) j ≡ (if k == j then some v else get_value t j)
  pub get_value-perform_deletion :
      (t : Trie) (k j : ℕ)
      → get_value (perform_deletion t k).0 j ≡ (if k == j then none else get_value t j)
  pub perform_deletion-present :
      (t : Trie) (k : ℕ) → (perform_deletion t k).1 ≡ present (get_value t k)

module _ (h : HashTrie) where
  pub record BlockHeaderHashMap : Type 0 where
    pub block_map : h.Trie
    pub last_committed_block_number : ℕ
    pub persisted_round_number : ℕ
    pub stored : Dict BlockHeaderHashValue

  abbrev pub new_map : h.Trie → BlockHeaderHashMap
  new_map empty = record {
    block_map = empty;
    last_committed_block_number = 0;
    persisted_round_number = 0;
    stored = [];
  }

  -- `hash` is that of the block, `res` whether it was valid. `none` is a thrown error.
  unfoldable pub insert_block : BlockHeaderHashMap → ℕ → ℕ → Bool → Option BlockHeaderHashMap
  insert_block m block_number hash res =
      if block_number == 0
      then none
      else if not (block_number == (m.last_committed_block_number + 1) % 2 ^ 64)
      then none
      else some (record m {
        block_map =
            h.trie_insert m.block_map block_number
              (record { hash = hash; validation_success = if res then 1 else 0 });
        last_committed_block_number = block_number;
      })

  -- The body of the loop of `persist_lmdb`.
  unfoldable pub put_round :
      h.Trie → ℕ → Dict BlockHeaderHashValue → Option (Dict BlockHeaderHashValue)
  put_round t i stored =
      if i == 0
      then some stored
      else elim (h.get_value t i) [ none ↦ none | some v ↦ some (insert i v stored) ]

  -- The loop of `persist_lmdb` from round `i` on, `count` rounds.
  unfoldable pub put_rounds :
      h.Trie → ℕ → ℕ → Dict BlockHeaderHashValue → Option (Dict BlockHeaderHashValue)
  unfolding put_round
  put_rounds t zero i stored = some stored
  put_rounds t (suc count) i stored = elim (put_round t i stored) [
    | none ↦ none
    | some stored' ↦ put_rounds t count (i + 1) stored'
  ]

  unfoldable pub persist_lmdb : BlockHeaderHashMap → ℕ → Option BlockHeaderHashMap
  unfolding put_rounds
  persist_lmdb m current_block_number =
      elim (put_rounds m.block_map (current_block_number + 1 - m.persisted_round_number)
        m.persisted_round_number m.stored) [
          | none ↦ none
          | some stored ↦
              some (record m { persisted_round_number = current_block_number; stored = stored })
        ]

  -- The loop of `rollback_to_committed_round` from round `i` on, `count` rounds.
  unfoldable pub delete_rounds : ℕ → ℕ → h.Trie → Option h.Trie
  delete_rounds zero i t = some t
  delete_rounds (suc count) i t =
      let (t', deleted) = h.perform_deletion t i in
      let rest = delete_rounds count (i + 1) (if i == 0 then t else t') in
      if i == 0 then rest else if deleted then rest else none

  unfoldable pub rollback_to_committed_round : BlockHeaderHashMap → ℕ → Option BlockHeaderHashMap
  unfolding delete_rounds
  rollback_to_committed_round m committed_block_number =
      if ltb committed_block_number m.persisted_round_number
      then none
      else elim (delete_rounds (m.last_committed_block_number - committed_block_number)
          (committed_block_number + 1) m.block_map) [
            | none ↦ none
            | some t ↦
                some
                  (record m { block_map = t; last_committed_block_number = committed_block_number })
          ]

  -- The loop of `load_lmdb_contents_to_memory` over what is stored.
  unfoldable pub load_rounds : ℕ → Dict BlockHeaderHashValue → h.Trie → Option h.Trie
  load_rounds persisted [] t = some t
  load_rounds persisted ((round_number, v) ∷ rest) t =
      if ltb persisted round_number
      then none
      else load_rounds persisted rest (h.trie_insert t round_number v)

  unfoldable pub load_lmdb_contents_to_memory : BlockHeaderHashMap → Option BlockHeaderHashMap
  unfolding load_rounds
  load_lmdb_contents_to_memory m =
      elim (load_rounds m.persisted_round_number m.stored m.block_map) [
        | none ↦ none
        | some t ↦
            some
              (record m { block_map = t; last_committed_block_number = m.persisted_round_number })
      ]

  -- The outer option is a thrown error.
  unfoldable pub get_round : BlockHeaderHashMap → ℕ → Option (Option BlockHeaderHashValue)
  get_round m round_number =
      if ltb m.persisted_round_number round_number
      then some none
      else elim (h.get_value m.block_map round_number) [ none ↦ none | some v ↦ some (some v) ]
