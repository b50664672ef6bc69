-- ===== src/MemoryDatabase/SequenceTracker.antt =====
-- The sequence numbers of one account in a block (memory_database/sequence_tracker.h and .cc):
-- the last committed number, and a bit for each of the next numbers, a word of 64 bits in
-- `UInt64SequenceTracker` and an array of words in `Bounded`. A number is a multiple of
-- `MAX_OPS_PER_TX` = 256 above the last one, as the transaction format demands. `uint64_t`
-- arithmetic wraps. An exception leaves the tracker as it was.
pub mod Bounded
pub mod Laws
use speedex.Prelude.{
  ℕ, ◌+◌, ◌-◌, ◌*◌, ◌/◌, ◌%◌, ◌^◌, Bool, true, false, if◌then◌else◌, leb, ◌==◌, Option, none, some,
}
use speedex.Prelude.Bits.{bit_length, but_bit}
use Prim.Native.Nat.{bit_and, bit_or}
use speedex.Types.{
  TransactionProcessingStatus, success, seq_num_too_low, seq_num_too_high, seq_num_temp_in_use,
  max_ops_per_tx,
}

pub record UInt64SequenceTracker : Type 0 where
  pub last_committed_id : ℕ
  pub sequence_number_vec : ℕ

-- `uint64_get_seq_num_offset`, where `offset` wraps below the first number. The result is a
-- `uint8_t`.
unfoldable pub uint64_get_seq_num_offset : ℕ → ℕ → ℕ
uint64_get_seq_num_offset sequence_number last_committed_id =
    let offset =
      ((sequence_number + 2 ^ 64 - last_committed_id) % 2 ^ 64 / max_ops_per_tx + 2 ^ 64 - 1)
      % 2 ^ 64 in
    if leb 64 offset then 255 else offset

-- `64 - __builtin_clzll(bv)` is the number of digits up to the highest bit.
unfoldable pub uint64_get_seq_num_increment : ℕ → ℕ
uint64_get_seq_num_increment bv = if bv == 0 then 0 else bit_length 64 bv * max_ops_per_tx

abbrev pub new_tracker : ℕ → UInt64SequenceTracker
new_tracker last_committed_id = record {
  last_committed_id = last_committed_id;
  sequence_number_vec = 0;
}

unfoldable pub set_last_committed_id : UInt64SequenceTracker → ℕ → UInt64SequenceTracker
set_last_committed_id t id = record t { last_committed_id = id }

unfoldable pub produce_commitment : UInt64SequenceTracker → ℕ
produce_commitment t = t.last_committed_id

unfoldable pub tentative_commitment : UInt64SequenceTracker → ℕ
unfolding uint64_get_seq_num_increment
tentative_commitment t =
    (t.last_committed_id + uint64_get_seq_num_increment t.sequence_number_vec) % 2 ^ 64

unfoldable pub reserve_sequence_number :
    UInt64SequenceTracker → ℕ → UInt64SequenceTracker × TransactionProcessingStatus
reserve_sequence_number t sequence_number =
    if leb sequence_number t.last_committed_id
    then (t, seq_num_too_low)
    else let offset = uint64_get_seq_num_offset sequence_number t.last_committed_id in
      if leb 64 offset
      then (t, seq_num_too_high)
      else let prev = t.sequence_number_vec in
        let bit_mask = 2 ^ offset in
        let t' = record t { sequence_number_vec = bit_or prev bit_mask } in
        if bit_and prev bit_mask == 0 then (t', success) else (t', seq_num_temp_in_use)

-- `none` is a thrown error.
unfoldable pub release_sequence_number : UInt64SequenceTracker → ℕ → Option UInt64SequenceTracker
release_sequence_number t sequence_number =
    if leb sequence_number t.last_committed_id
    then none
    else let offset = uint64_get_seq_num_offset sequence_number t.last_committed_id in
      if leb 64 offset
      then none
      else some
          (record t { sequence_number_vec = bit_and t.sequence_number_vec (but_bit 64 offset) })

-- The reservation already did what is needed.
unfoldable pub commit_sequence_number : UInt64SequenceTracker → ℕ → UInt64SequenceTracker
commit_sequence_number t sequence_number = t

unfoldable pub commit : UInt64SequenceTracker → UInt64SequenceTracker
unfolding uint64_get_seq_num_increment
commit t = record {
  last_committed_id =
      (t.last_committed_id + uint64_get_seq_num_increment t.sequence_number_vec) % 2 ^ 64;
  sequence_number_vec = 0;
}

unfoldable pub rollback : UInt64SequenceTracker → UInt64SequenceTracker
rollback t = record t { sequence_number_vec = 0 }
