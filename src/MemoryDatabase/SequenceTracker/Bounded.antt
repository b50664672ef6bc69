-- ===== src/MemoryDatabase/SequenceTracker/Bounded.antt =====
-- `BoundedSequenceTracker<MAX_SEQ_GAP>`: the tracker for more than 64 numbers in a block, with an
-- array of words (memory_database/sequence_tracker.h). `gap` is `MAX_SEQ_GAP`; an access of a word
-- is in range, since the array has `gap / 64 + 1` of them.
pub mod Laws
use speedex.Prelude.{
  ℕ, zero, suc, ◌+◌, ◌-◌, ◌*◌, ◌/◌, ◌%◌, ◌^◌, ◌<◌, ◌≡◌, refl, ap, ◌∙◌, Bool, false, ◌||◌, ◌&&◌, not,
  if◌then◌else◌, leb, ◌==◌, Option, some, none, List, map, arith, inl, inr, Bool-cases, get_or, set,
  length, get_or-set_self, get_or-set_ne, replicate, ==_iff, sym, true, ◌≤◌,
}
use speedex.Prelude.Bits.{
  test_bit, test_bit-bit_or, bit_and-test, test_bit-bit_and, but_bit, bit_length, bit_length-le,
  test_bit-bit_length, test_bit-zero, test_bit-lt-bit_length, bit_length-pos,
}
use Prim.Native.Nat.{bit_and, bit_or}
use native.Mathlib.Decide.{dec_lt}
use speedex.Types.{
  TransactionProcessingStatus, success, seq_num_too_low, seq_num_too_high, seq_num_temp_in_use,
  max_ops_per_tx,
}

pub record BoundedSequenceTracker : Type 0 where
  pub last_committed_id : ℕ
  pub sequence_number_vec : List ℕ

unfoldable pub array_get_seq_num_offset : ℕ → ℕ → ℕ
array_get_seq_num_offset sequence_number last_committed_id =
    ((sequence_number + 2 ^ 64 - last_committed_id) % 2 ^ 64 / max_ops_per_tx + 2 ^ 64 - 1) % 2 ^ 64

-- The loop from the highest word down, with the words below `n` left.
unfoldable pub increment_from : List ℕ → ℕ → ℕ
increment_from bv zero = 0
increment_from bv (suc i) =
    let val = get_or bv i 0 in
    let rest = increment_from bv i in
    if val == 0 then rest else (64 * i + bit_length 64 val) * max_ops_per_tx

unfoldable pub array_get_seq_num_increment : List ℕ → ℕ
unfolding increment_from
array_get_seq_num_increment bv = increment_from bv (length bv)

module _ (gap : ℕ) where
  abbrev pub new_tracker : ℕ → BoundedSequenceTracker
  new_tracker last_committed_id = record {
    last_committed_id = last_committed_id;
    sequence_number_vec = replicate (gap / 64 + 1) 0;
  }

  unfoldable pub reserve_sequence_number :
      BoundedSequenceTracker → ℕ → BoundedSequenceTracker × TransactionProcessingStatus
  reserve_sequence_number t sequence_number =
      if leb sequence_number t.last_committed_id
      then (t, seq_num_too_low)
      else let offset = array_get_seq_num_offset sequence_number t.last_committed_id in
        if leb gap offset
        then (t, seq_num_too_high)
        else let word_offset = offset / 64 in
          let bit_mask = 2 ^ (offset % 64) in
          let prev = get_or t.sequence_number_vec word_offset 0 in
          let vec = set t.sequence_number_vec word_offset (bit_or prev bit_mask) in
          (
            record t { sequence_number_vec = vec },
            if bit_and prev bit_mask == 0 then success else seq_num_temp_in_use,
          )

  -- `none` is a thrown error.
  unfoldable pub release_sequence_number :
      BoundedSequenceTracker → ℕ → Option BoundedSequenceTracker
  release_sequence_number t sequence_number =
      if leb sequence_number t.last_committed_id
      then none
      else let offset = array_get_seq_num_offset sequence_number t.last_committed_id in
        if leb gap offset
        then none
        else let word_offset = offset / 64 in
          let prev = get_or t.sequence_number_vec word_offset 0 in
          let vec =
            set t.sequence_number_vec word_offset (bit_and prev (but_bit 64 (offset % 64))) in
          some (record t { sequence_number_vec = vec })

unfoldable pub set_last_committed_id : BoundedSequenceTracker → ℕ → BoundedSequenceTracker
set_last_committed_id t id = record t { last_committed_id = id }

unfoldable pub produce_commitment : BoundedSequenceTracker → ℕ
produce_commitment t = t.last_committed_id

-- The reservation already did what is needed.
unfoldable pub commit_sequence_number : BoundedSequenceTracker → ℕ → BoundedSequenceTracker
commit_sequence_number t sequence_number = t

unfoldable pub tentative_commitment : BoundedSequenceTracker → ℕ
unfolding array_get_seq_num_increment
tentative_commitment t =
    (t.last_committed_id + array_get_seq_num_increment t.sequence_number_vec) % 2 ^ 64

unfoldable pub commit : BoundedSequenceTracker → BoundedSequenceTracker
unfolding array_get_seq_num_increment
commit t = record {
  last_committed_id =
      (t.last_committed_id + array_get_seq_num_increment t.sequence_number_vec) % 2 ^ 64;
  sequence_number_vec = map (λ val. 0) t.sequence_number_vec;
}

unfoldable pub rollback : BoundedSequenceTracker → BoundedSequenceTracker
rollback t = record t { sequence_number_vec = map (λ val. 0) t.sequence_number_vec }
