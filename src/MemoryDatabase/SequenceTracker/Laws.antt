-- ===== src/MemoryDatabase/SequenceTracker/Laws.antt =====
-- The tracker against the set of sequence numbers that it stands for.
use speedex.Prelude.{
  ℕ, ◌+◌, ◌-◌, ◌*◌, ◌^◌, ◌≤◌, ◌<◌, ◌≡◌, ◌≢◌, refl, Bool, true, false, ◌||◌, ◌&&◌, not,
  if◌then◌else◌, leb, ◌==◌, some, none, arith, ◌⊎◌, inl, inr, Bool-cases, ◌∙◌, ap,
}
use Prim.Native.Nat.{bit_and, bit_or}
use speedex.Prelude.Bits.{
  test_bit, test_bit-bit_or, bit_or-lt, bit_and-test, test_bit-bit_and, bit_and-le, but_bit,
  bit_length, bit_length-le, test_bit-lt-bit_length, test_bit-bit_length, test_bit-zero,
}
use speedex.Types.{success, seq_num_too_low, seq_num_too_high, seq_num_temp_in_use}
use speedex.MemoryDatabase.SequenceTracker.{
  UInt64SequenceTracker, uint64_get_seq_num_offset, uint64_get_seq_num_increment,
  reserve_sequence_number, release_sequence_number, commit, tentative_commitment,
}

-- The word has 64 bits, and the numbers of a block do not reach the top of `uint64_t`.
pub record IsValid (t : UInt64SequenceTracker) : Type 0 where
  pub word : t.sequence_number_vec < 2 ^ 64
  pub room : t.last_committed_id + 65 * 256 < 2 ^ 64

-- The number that bit `i` of the tracker stands for.
abbrev pub number : UInt64SequenceTracker → ℕ → ℕ
number t i = t.last_committed_id + (i + 1) * 256

-- Whether a transaction of this block has taken bit `i`.
abbrev pub is_reserved : UInt64SequenceTracker → ℕ → Bool
is_reserved t i = test_bit t.sequence_number_vec i

-- The offset of a multiple of 256 above the last committed number.
pub offset_lem :
    (last i : ℕ)
    → last + (i + 1) * 256 < 2 ^ 64
    → uint64_get_seq_num_offset (last + (i + 1) * 256) last ≡ (if leb 64 i then 255 else i)
unfolding uint64_get_seq_num_offset
offset_lem last i h = ground arith

offset-number :
    (t : UInt64SequenceTracker) (i : ℕ)
    → IsValid t
    → i < 64
    → uint64_get_seq_num_offset (number t i) t.last_committed_id ≡ i
offset-number t i v h = offset_lem t.last_committed_id i (omega arith) ∙ ground arith

abbrev with_bit : UInt64SequenceTracker → ℕ → UInt64SequenceTracker
with_bit t i = record t { sequence_number_vec = bit_or t.sequence_number_vec (2 ^ i) }

abbrev without_bit : UInt64SequenceTracker → ℕ → UInt64SequenceTracker
without_bit t i = record t { sequence_number_vec = bit_and t.sequence_number_vec (but_bit 64 i) }

reserve_at :
    (t : UInt64SequenceTracker) (i : ℕ)
    → IsValid t
    → i < 64
    → reserve_sequence_number t (number t i)
      ≡ (with_bit t i, if is_reserved t i then seq_num_temp_in_use else success)
unfolding reserve_sequence_number
reserve_at t i v h =
    let low : leb (number t i) t.last_committed_id ≡ false = ground arith in
    let high : leb 64 i ≡ false = ground arith in
    rw (low, offset-number t i v h, high, bit_and-test t.sequence_number_vec i)
      (elim (Bool-cases (is_reserved t i)) [ inl e ↦ rw e | inr e ↦ rw e ])

release_at :
    (t : UInt64SequenceTracker) (i : ℕ)
    → IsValid t
    → i < 64
    → release_sequence_number t (number t i) ≡ some (without_bit t i)
unfolding release_sequence_number
release_at t i v h =
    let low : leb (number t i) t.last_committed_id ≡ false = ground arith in
    let high : leb 64 i ≡ false = ground arith in rw (low, offset-number t i v h, high)

-- In a valid tracker, reserving the number of one of the 64 bits is refused as in use exactly if
-- it is reserved already; either way that number is reserved afterwards, no other number
-- changes, and the tracker stays valid with the same last committed number.
pub reserve-number :
    (t : UInt64SequenceTracker) (i : ℕ)
    → IsValid t
    → i < 64
    → let (t', status) = reserve_sequence_number t (number t i) in
      (status ≡ (if is_reserved t i then seq_num_temp_in_use else success))
      × (t'.last_committed_id ≡ t.last_committed_id)
      × IsValid t'
      × ((j : ℕ) → is_reserved t' j ≡ ((j == i) || is_reserved t j))
reserve-number t i v h = rw (reserve_at t i v h) (
  refl,
  refl,
  record { word = bit_or-lt 64 t.sequence_number_vec i h v.word; room = v.room },
  test_bit-bit_or t.sequence_number_vec i,
)

-- In a valid tracker, releasing the number of one of the 64 bits is accepted, frees that number
-- and no other, and keeps the tracker valid with the same last committed number.
pub release-number :
    (t : UInt64SequenceTracker) (i : ℕ)
    → IsValid t
    → i < 64
    → (t' : UInt64SequenceTracker) × (release_sequence_number t (number t i) ≡ some t')
      × (t'.last_committed_id ≡ t.last_committed_id)
      × IsValid t'
      × ((j : ℕ) → is_reserved t' j ≡ (not (j == i) && is_reserved t j))
release-number t i v h = (
  without_bit t i,
  release_at t i v h,
  refl,
  record { word = omega (arith, bit_and-le 64 t.sequence_number_vec i h v.word); room = v.room },
  λ j. test_bit-bit_and 64 t.sequence_number_vec i j h v.word,
)

offset_below :
    (n last : ℕ)
    → last < n
    → n < last + 256
    → last < 2 ^ 64
    → n < 2 ^ 64
    → uint64_get_seq_num_offset n last ≡ 255
unfolding uint64_get_seq_num_offset
offset_below n last a b c d = ground arith

offset_above :
    (n last : ℕ) → last + 65 * 256 ≤ n → n < 2 ^ 64 → uint64_get_seq_num_offset n last ≡ 255
unfolding uint64_get_seq_num_offset
offset_above n last h l = ground arith

-- A number outside the window of the block changes nothing: one at or below the last committed
-- number is too low to reserve, one above the last committed number but below the first number
-- of the window, or above the 64 numbers of the window, is too high; a release of either throws.
pub out_of_window :
    (t : UInt64SequenceTracker) (n : ℕ)
    → IsValid t
    → n < 2 ^ 64
    → (n < number t 0) ⊎ (number t 64 ≤ n)
    → (reserve_sequence_number t n
        ≡ (t, if leb n t.last_committed_id then seq_num_too_low else seq_num_too_high))
      × (release_sequence_number t n ≡ none)
unfolding reserve_sequence_number release_sequence_number
out_of_window t n v h (inl below) = ground (arith, offset_below n t.last_committed_id)
out_of_window t n v h (inr above) = ground (arith, offset_above n t.last_committed_id)

-- The position of the highest reserved number.
highest :
    (w i : ℕ)
    → w < 2 ^ 64
    → test_bit w i ≡ true
    → (k : ℕ) × (k < 64)
      × (i ≤ k)
      × (test_bit w k ≡ true)
      × (uint64_get_seq_num_increment w ≡ (k + 1) * 256)
unfolding uint64_get_seq_num_increment
highest w i l h = (
  bit_length 64 w - 1,
  omega (arith, bit_length-le 64 w, below),
  omega (arith, below),
  test_bit-bit_length 64 w (bit_length 64 w - 1) l (omega (arith, below)),
  ground (arith, nonzero, below),
)
  where
    below : i < bit_length 64 w
    below = test_bit-lt-bit_length 64 w i l h

    nonzero : w ≢ 0
    nonzero e = cc (test_bit-zero i, ap (λ v. test_bit v i) e)

-- In a valid tracker with a reserved number, committing the block moves the last committed number
-- to the highest number that is reserved, as `tentative_commitment` announced, and frees them all.
pub commit_lem :
    (t : UInt64SequenceTracker) (i : ℕ)
    → IsValid t
    → is_reserved t i ≡ true
    → let t' = commit t in
      (number t i ≤ t'.last_committed_id)
      × ((k : ℕ) × (k < 64) × (is_reserved t k ≡ true) × (t'.last_committed_id ≡ number t k))
      × (tentative_commitment t ≡ t'.last_committed_id)
      × ((j : ℕ) → is_reserved t' j ≡ false)
unfolding commit tentative_commitment
commit_lem t i v h =
    let (k, lt, le, reserved, e) = highest t.sequence_number_vec i v.word h in
    (rw e (omega arith), (k, lt, reserved, rw e (omega arith)), refl, λ j. test_bit-zero j)
