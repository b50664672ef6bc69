-- ===== src/HeaderHash/BlockHeaderHashMap/Tests.antt =====
-- The hashes of three blocks, with a function for the trie.
use speedex.Prelude.{
  ℕ, refl, if◌then◌else◌, ◌==◌, leb, ◌&&◌, Option, none, some, [], ◌∷◌, arith, zero, suc,
}
use speedex.HeaderHash.BlockHeaderHashMap.{
  BlockHeaderHashValue, present, HashTrie, BlockHeaderHashMap, rollback_to_committed_round,
  persist_lmdb,
}
use speedex.HeaderHash.BlockHeaderHashMap.Rounds.{
  HasRounds, RolledBack, rollback_to_committed_round-RolledBack, OnDisk, Persisted,
  persist_lmdb-Persisted,
}

abbrev function : HashTrie
function = record {
  Trie = ℕ → Option BlockHeaderHashValue;
  get_value = λ t j. t j;
  trie_insert = λ t k v j. if k == j then some v else t j;
  perform_deletion = λ t k. ((λ j. if k == j then none else t j), present (t k));
  get_value-trie_insert = λ t k j v. refl;
  get_value-perform_deletion = λ t k j. refl;
  perform_deletion-present = λ t k. refl;
}

-- Rounds 1 to 3, of which round 1 is on disk.
abbrev three_rounds : BlockHeaderHashMap function
three_rounds = record {
  block_map =
      λ j. if leb 1 j && leb j 3 then some (record { hash = j; validation_success = 1 }) else none;
  last_committed_block_number = 3;
  persisted_round_number = 1;
  stored = (1, record { hash = 1; validation_success = 1 }) ∷ [];
}

three_rounds-HasRounds : HasRounds function three_rounds.block_map 3
three_rounds-HasRounds = λ j. ground arith

rollback_to_committed_round-RolledBack_example :
    RolledBack function three_rounds 2 (rollback_to_committed_round function three_rounds 2)
rollback_to_committed_round-RolledBack_example =
    rollback_to_committed_round-RolledBack function three_rounds 2 three_rounds-HasRounds
      (omega arith) (omega arith)

three_rounds-OnDisk : OnDisk function three_rounds
three_rounds-OnDisk zero positive low = absurd (omega arith)
three_rounds-OnDisk (suc zero) positive low = refl
three_rounds-OnDisk (suc (suc j)) positive low = absurd (omega arith)

persist_lmdb-Persisted_example :
    Persisted function three_rounds 3 (persist_lmdb function three_rounds 3)
persist_lmdb-Persisted_example =
    persist_lmdb-Persisted function three_rounds 3 three_rounds-HasRounds three_rounds-OnDisk
      (omega arith) (omega arith)
