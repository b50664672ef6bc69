-- ===== src/MemoryDatabase/SequenceTracker/Bounded/Laws.antt =====
-- The tracker for more than 64 numbers against the set of sequence numbers that it stands for.
use speedex.Prelude.{
  ℕ, zero, suc, ◌+◌, ◌-◌, ◌*◌, ◌/◌, ◌%◌, ◌^◌, ◌<◌, ◌≡◌, refl, ap, ◌∙◌, Bool, false, ◌||◌, ◌&&◌, not,
  if◌then◌else◌, leb, ◌==◌, some, List, arith, inl, inr, Bool-cases, get_or, set, length,
  get_or-set_self, get_or-set_ne, ==_iff, sym, true, ◌≤◌,
}
use speedex.Prelude.Bits.{
  test_bit, test_bit-bit_or, bit_and-test, test_bit-bit_and, but_bit, bit_length, bit_length-le,
  test_bit-bit_length, test_bit-zero, test_bit-lt-bit_length, bit_length-pos,
}
use Prim.Native.Nat.{bit_and, bit_or}
use native.Mathlib.Decide.{dec_lt}
use speedex.Types.{success, seq_num_temp_in_use}
use speedex.MemoryDatabase.SequenceTracker.Bounded.{
  BoundedSequenceTracker, array_get_seq_num_offset, increment_from, reserve_sequence_number,
  release_sequence_number, tentative_commitment, commit,
}

-- Every word has 64 bits, there are words for `gap` numbers, and the numbers of a block do not
-- reach the top of `uint64_t`.
pub record IsValid (gap : ℕ) (t : BoundedSequenceTracker) : Type 0 where
  pub words : (i : ℕ) → get_or t.sequence_number_vec i 0 < 2 ^ 64
  pub size : length t.sequence_number_vec ≡ gap / 64 + 1
  pub room : t.last_committed_id + (gap + 64) * 256 < 2 ^ 64

abbrev pub number : BoundedSequenceTracker → ℕ → ℕ
number t i = t.last_committed_id + (i + 1) * 256

abbrev pub is_reserved : BoundedSequenceTracker → ℕ → Bool
is_reserved t i = test_bit (get_or t.sequence_number_vec (i / 64) 0) (i % 64)

offset_lem :
    (last i : ℕ)
    → last + (i + 1) * 256 < 2 ^ 64
    → array_get_seq_num_offset (last + (i + 1) * 256) last ≡ i
unfolding array_get_seq_num_offset
offset_lem last i h = ground arith

-- Two numbers are the same exactly if their words and their bits are.
same_bit : (i j : ℕ) → (j == i) ≡ ((j / 64 == i / 64) && (j % 64 == i % 64))
same_bit i j = ground arith

get_or-set :
    (xs : List ℕ) (w v x : ℕ)
    → w < length xs
    → get_or (set xs w x) v 0 ≡ (if v == w then x else get_or xs v 0)
get_or-set xs w v x h = elim (Bool-cases (v == w)) [
  | inl same ↦
      let e : v ≡ w = (==_iff v w).0 same in
      rw same (ap (λ k. get_or (set xs w x) k 0) e ∙ get_or-set_self xs w x 0 h)
  | inr other ↦ rw other (get_or-set_ne xs w v x 0 (ground arith))
]

module _ (gap : ℕ) (t : BoundedSequenceTracker) (i : ℕ) (v : IsValid gap t) (h : i < gap) where
  abbrev word : ℕ
  word = get_or t.sequence_number_vec (i / 64) 0

  abbrev with_word : ℕ → BoundedSequenceTracker
  with_word w = record t { sequence_number_vec = set t.sequence_number_vec (i / 64) w }

  in_array : i / 64 < length t.sequence_number_vec
  in_array = omega (arith, v.size)

  word-fits :
      (number t i < 2 ^ 64) × (leb (number t i) t.last_committed_id ≡ false) × (leb gap i ≡ false)
  word-fits = (omega (arith, v.room), ground arith, ground arith)

  reserve_at : reserve_sequence_number gap t (number t i) ≡ (
    with_word (bit_or word (2 ^ (i % 64))),
    if is_reserved t i then seq_num_temp_in_use else success,
  )
  unfolding reserve_sequence_number
  reserve_at =
      rw
        (
          word-fits.1,
          offset_lem t.last_committed_id i word-fits.0,
          word-fits.2,
          bit_and-test word (i % 64),
        )
        (elim (Bool-cases (is_reserved t i)) [ inl e ↦ rw e | inr e ↦ rw e ])

  release_at :
      release_sequence_number gap t (number t i)
      ≡ some (with_word (bit_and word (but_bit 64 (i % 64))))
  unfolding release_sequence_number
  release_at = rw (word-fits.1, offset_lem t.last_committed_id i word-fits.0, word-fits.2)

  is_reserved-with_word :
      (w j : ℕ)
      → is_reserved (with_word w) j
        ≡ (if j / 64 == i / 64 then test_bit w (j % 64) else is_reserved t j)
  is_reserved-with_word w j =
      rw (get_or-set t.sequence_number_vec (i / 64) (j / 64) w in_array) (ground arith)

  -- In a valid tracker for `gap` numbers, reserving one of them is refused as in use exactly if
  -- it is reserved already; either way that number is reserved afterwards, and no other number
  -- changes, be it in the same word or in another.
  pub reserve-number_bounded :
      let (t', status) = reserve_sequence_number gap t (number t i) in
      (status ≡ (if is_reserved t i then seq_num_temp_in_use else success))
      × (t'.last_committed_id ≡ t.last_committed_id)
      × ((j : ℕ) → is_reserved t' j ≡ ((j == i) || is_reserved t j))
  reserve-number_bounded = rw reserve_at (
    refl,
    refl,
    λ j. ground (
      arith,
      is_reserved-with_word (bit_or word (2 ^ (i % 64))) j,
      test_bit-bit_or word (i % 64) (j % 64),
      same_word j,
    ),
  )
    where
      same_word : (j : ℕ) → j / 64 ≡ i / 64 → get_or t.sequence_number_vec (j / 64) 0 ≡ word
      same_word j e = ap (λ k. get_or t.sequence_number_vec k 0) e

  -- In a valid tracker for `gap` numbers, releasing one of them is accepted and frees that number
  -- and no other.
  pub release-number_bounded :
      (t' : BoundedSequenceTracker) × (release_sequence_number gap t (number t i) ≡ some t')
      × (t'.last_committed_id ≡ t.last_committed_id)
      × ((j : ℕ) → is_reserved t' j ≡ (not (j == i) && is_reserved t j))
  release-number_bounded = (
    with_word (bit_and word (but_bit 64 (i % 64))),
    release_at,
    refl,
    λ j. ground (
      arith,
      is_reserved-with_word (bit_and word (but_bit 64 (i % 64))) j,
      test_bit-bit_and 64 word (i % 64) (j % 64) (omega arith) (v.words (i / 64)),
      same_word j,
    ),
  )
    where
      same_word : (j : ℕ) → j / 64 ≡ i / 64 → get_or t.sequence_number_vec (j / 64) 0 ≡ word
      same_word j e = ap (λ k. get_or t.sequence_number_vec k 0) e

abbrev bit_at : List ℕ → ℕ → Bool
bit_at bv i = test_bit (get_or bv (i / 64) 0) (i % 64)

abbrev IsHighest : List ℕ → ℕ → ℕ → ℕ → Type 0
IsHighest bv n i k =
    (i ≤ k) × (k / 64 < n) × (bit_at bv k ≡ true) × (increment_from bv n ≡ (k + 1) * 256)

-- The highest word that is not zero decides, by its highest bit.
top_word :
    (bv : List ℕ) (m b : ℕ)
    → get_or bv m 0 < 2 ^ 64
    → bit_length 64 (get_or bv m 0) ≡ suc b
    → (increment_from bv (suc m) ≡ (64 * m + b + 1) * 256) × (bit_at bv (64 * m + b) ≡ true)
unfolding increment_from
top_word bv m b fits e =
    let word : (64 * m + b) / 64 ≡ m = omega (arith, bit_length-le 64 (get_or bv m 0)) in
    let bit : (64 * m + b) % 64 ≡ b = omega (arith, bit_length-le 64 (get_or bv m 0)) in
    (
      ground (arith, bit_length-zero),
      rw (word, bit) (test_bit-bit_length 64 (get_or bv m 0) b fits e),
    )
  where
    bit_length-zero : get_or bv m 0 ≡ 0 → bit_length 64 (get_or bv m 0) ≡ 0
    bit_length-zero z = rw z (unfold bit_length in refl)

increment-IsHighest :
    (bv : List ℕ) (n i : ℕ)
    → ((w : ℕ) → get_or bv w 0 < 2 ^ 64)
    → i / 64 < n
    → bit_at bv i ≡ true
    → (k : ℕ) × IsHighest bv n i k
unfolding increment_from
increment-IsHighest bv zero i fits lt h = absurd (omega arith)
increment-IsHighest bv (suc m) i fits lt h = elim (dec_lt 0 (get_or bv m 0)) [
  | yes p ↦
      let some_bit = bit_length-pos 64 (get_or bv m 0) p (fits m) in
      let b = bit_length 64 (get_or bv m 0) - 1 in
      let top = top_word bv m b (fits m) (omega (arith, some_bit)) in
      let in_word : b < 64 = omega (arith, some_bit, bit_length-le 64 (get_or bv m 0)) in
      (64 * m + b, (below 0, omega arith, top.1, top.0))
  | no p ↦
      let clear : get_or bv m 0 ≡ 0 = omega arith in
      let (k, best) = increment-IsHighest bv m i fits (lower clear) h in
      (k, (best.0, omega (arith, best.1), best.2, ground (arith, best.3)))
]
  where
    here : i / 64 ≡ m → test_bit (get_or bv m 0) (i % 64) ≡ true
    here e = ap (λ w. test_bit (get_or bv w 0) (i % 64)) (sym e) ∙ h

    below : ℕ → i ≤ 64 * m + (bit_length 64 (get_or bv m 0) - 1)
    below _ = elim (dec_lt (i / 64) m) [
      | yes l ↦ omega arith
      | no g ↦
          omega (
            arith,
            test_bit-lt-bit_length 64 (get_or bv m 0) (i % 64) (fits m) (here (omega arith)),
          )
    ]

    lower : get_or bv m 0 ≡ 0 → i / 64 < m
    lower clear = elim (dec_lt (i / 64) m) [
      | yes l ↦ l
      | no g ↦ cc (here (omega arith), ap (λ v. test_bit v (i % 64)) clear, test_bit-zero (i % 64))
    ]

-- In a valid tracker with a reserved number, committing the block moves the last committed number
-- to the highest number that is reserved in any word, as `tentative_commitment` announced.
pub commit_bounded :
    (gap : ℕ) (t : BoundedSequenceTracker) (i : ℕ)
    → IsValid gap t
    → i / 64 < gap / 64 + 1
    → is_reserved t i ≡ true
    → (number t i ≤ (commit t).last_committed_id)
      × ((k : ℕ) × (is_reserved t k ≡ true) × ((commit t).last_committed_id ≡ number t k))
      × (tentative_commitment t ≡ (commit t).last_committed_id)
unfolding commit tentative_commitment
commit_bounded gap t i v lt h =
    let (k, best) =
      increment-IsHighest t.sequence_number_vec (length t.sequence_number_vec) i v.words
        (omega (arith, v.size)) h in
    (
      rw best.3 (omega (arith, v.room, v.size, best.0, best.1)),
      (k, best.2, rw best.3 (omega (arith, v.room, v.size, best.1))),
      refl,
    )
