-- ===== src/Orderbook/CommitmentChecker/Stats.antt =====
-- The statistics that a block's validation gathers, and what `check_stats` decides of them.
use speedex.Prelude.{
  ℕ, zero, suc, ◌-◌, ◌<◌, ◌≤◌, ◌≡◌, ◌↔◌, Bool, true, false, not, if◌then◌else◌, ltb, ==_refl, List,
  [], ◌∷◌, ◌++◌, length, get_or, replicate, refl, ap, arith, length-append, length-replicate,
  get_or-replicate, Bool-cases, inl, inr, ◌⊎◌, ◌==◌,
}
use speedex.FixedPoint.{FractionalAsset, from_raw, plus, same_value}
use speedex.Orderbook.CommitmentChecker.{
  SingleValidationStatistics, no_stats, ValidationStatistics, add_single, add_stats,
  make_minimum_size, SingleOrderbookStateCommitment, supply_activated, activation_amount,
  check_threshold_key, OrderbookStateCommitmentChecker, check_each, check_stats,
}

-- The statistics of orderbook `i`, empty where none are kept.
abbrev pub of_orderbook : ValidationStatistics → ℕ → SingleValidationStatistics
of_orderbook stats i = get_or stats i no_stats

-- Adding statistics adds, for each orderbook that the added ones have, its supply to the supply
-- kept of it, and leaves the rest.
pub of_orderbook-add_stats :
    (stats other : ValidationStatistics) (i : ℕ)
    → of_orderbook (add_stats stats other) i ≡ (
        if ltb i (length other)
        then add_single (of_orderbook stats i) (of_orderbook other i)
        else of_orderbook stats i)
unfolding add_stats
of_orderbook-add_stats stats [] i = ground arith
of_orderbook-add_stats [] (o ∷ os) zero = ground arith
of_orderbook-add_stats [] (o ∷ os) (suc i) = ground (arith, of_orderbook-add_stats [] os i)
of_orderbook-add_stats (s ∷ ss) (o ∷ os) zero = ground arith
of_orderbook-add_stats (s ∷ ss) (o ∷ os) (suc i) = ground (arith, of_orderbook-add_stats ss os i)

padded :
    (stats : ValidationStatistics) (n i : ℕ)
    → of_orderbook (stats ++ replicate n no_stats) i ≡ of_orderbook stats i
padded [] n i = get_or-replicate n i no_stats
padded (s ∷ stats) n zero = refl
padded (s ∷ stats) n (suc i) = padded stats n i

of_orderbook-make_minimum_size :
    (stats : ValidationStatistics) (sz i : ℕ)
    → of_orderbook (make_minimum_size stats sz) i ≡ of_orderbook stats i
unfolding make_minimum_size
of_orderbook-make_minimum_size stats sz i = ground (arith, padded stats (suc sz - length stats) i)

make_minimum_size-length :
    (stats : ValidationStatistics) (sz : ℕ) → sz < length (make_minimum_size stats sz)
unfolding make_minimum_size
make_minimum_size-length stats sz = ground (
  arith,
  length-append stats (replicate (suc sz - length stats) no_stats),
  length-replicate (suc sz - length stats) no_stats,
)

-- The flag is 1 where the threshold key is null, all its bytes 0, and 0 where it is a key.
abbrev pub FlagAgrees : SingleOrderbookStateCommitment → Type 0
FlagAgrees c =
    ((c.partial_exec_threshold_key ≡ 0) × (c.threshold_key_is_null ≡ 1))
    ⊎ ((0 < c.partial_exec_threshold_key) × (c.threshold_key_is_null ≡ 0))

check_threshold_key→FlagAgrees :
    (c : SingleOrderbookStateCommitment) → check_threshold_key c ≡ true → FlagAgrees c
unfolding check_threshold_key
check_threshold_key→FlagAgrees c h = elim (Bool-cases (c.partial_exec_threshold_key == 0)) [
  | inl null ↦ inl (ground arith, ground (arith, h, null))
  | inr key ↦ inr (ground arith, ground (arith, h, key))
]

FlagAgrees→check_threshold_key :
    (c : SingleOrderbookStateCommitment) → FlagAgrees c → check_threshold_key c ≡ true
unfolding check_threshold_key
FlagAgrees→check_threshold_key c (inl (null, flag)) = rw (null, flag) refl
FlagAgrees→check_threshold_key c (inr (key, flag)) =
    let other : (c.partial_exec_threshold_key == 0) ≡ false = ground arith in rw (other, flag) refl

-- What a header's commitment to one orderbook says, given the statistics of it.
unfoldable pub Agrees : SingleValidationStatistics → SingleOrderbookStateCommitment → Type 0
Agrees s c = (plus s.activated_supply (activation_amount c) ≡ supply_activated c) × FlagAgrees c

abbrev pub no_commitment : SingleOrderbookStateCommitment
no_commitment = record {
  root_hash = 0;
  fractional_supply_activated = 0;
  partial_exec_threshold_key = 0;
  threshold_key_is_null = 1;
  partial_exec_offer_activation_amount = 0;
}

turn_parts :
    (a b r : Bool)
    → (if not a then false else if not b then false else r) ≡ true
    → (a ≡ true) × (b ≡ true) × (r ≡ true)
turn_parts a b r h = (ground arith, ground arith, ground arith)

same_value→≡ : (x y : FractionalAsset) → same_value x y ≡ true → x ≡ y
same_value→≡ x y h = let e : x.value ≡ y.value = ground arith in ap from_raw e

≡→same_value : (x y : FractionalAsset) → x ≡ y → same_value x y ≡ true
≡→same_value x y e = rw e (==_refl y.value)

check_each-Agrees :
    (stats : ValidationStatistics) (cs : List SingleOrderbookStateCommitment)
    → check_each stats cs ≡ true
    → (i : ℕ) → i < length cs
    → Agrees (of_orderbook stats i) (get_or cs i no_commitment)
unfolding check_each Agrees
check_each-Agrees stats [] e i h = absurd (omega arith)
check_each-Agrees [] (c ∷ cs) e i h = absurd (ground arith)
check_each-Agrees (s ∷ stats) (c ∷ cs) e i h =
    let sum = plus s.activated_supply (activation_amount c) in
    let (adds, key, rest) =
      turn_parts (same_value sum (supply_activated c)) (check_threshold_key c) (check_each stats cs)
        e in
    at i h (same_value→≡ sum (supply_activated c) adds, check_threshold_key→FlagAgrees c key)
      (check_each-Agrees stats cs rest)
  where
    at :
        (j : ℕ)
        → j < length (c ∷ cs)
        → Agrees s c
        → ((k : ℕ) → k < length cs → Agrees (of_orderbook stats k) (get_or cs k no_commitment))
        → Agrees (of_orderbook (s ∷ stats) j) (get_or (c ∷ cs) j no_commitment)
    at zero l head tail = head
    at (suc j) l head tail = tail j (omega arith)

check_each_of_Agrees :
    (stats : ValidationStatistics) (cs : List SingleOrderbookStateCommitment)
    → length cs ≤ length stats
    → ((i : ℕ) → i < length cs → Agrees (of_orderbook stats i) (get_or cs i no_commitment))
    → check_each stats cs ≡ true
unfolding check_each Agrees
check_each_of_Agrees stats [] l h = refl
check_each_of_Agrees [] (c ∷ cs) l h = absurd (omega arith)
check_each_of_Agrees (s ∷ stats) (c ∷ cs) l h =
    let (adds, key) = h 0 (omega arith) in
    rw
      (
        ≡→same_value (plus s.activated_supply (activation_amount c)) (supply_activated c) adds,
        FlagAgrees→check_threshold_key c key,
      )
      (check_each_of_Agrees stats cs (omega arith) (λ i k. h (suc i) (omega arith)))

-- The check of the statistics succeeds just when, for each orderbook that the header commits to,
-- the supply gathered and the one of the partly executed offer add up to the committed supply, and
-- the commitment's flag is 1 with the null threshold key, or 0 with another key. Whatever it
-- decides, it leaves the statistics of every orderbook as they were.
pub check_stats_iff :
    (checker : OrderbookStateCommitmentChecker) (stats : ValidationStatistics)
    → (((check_stats checker stats).1 ≡ true) ↔ (
        (i : ℕ)
        → i < length checker.commitments
        → Agrees (of_orderbook stats i) (get_or checker.commitments i no_commitment)))
      × ((i : ℕ) → of_orderbook (check_stats checker stats).0 i ≡ of_orderbook stats i)
unfolding check_stats
check_stats_iff checker stats =
    let n = length checker.commitments in
    let kept = of_orderbook-make_minimum_size stats n in
    (
      (
        λ e i h.
            rw (← kept i) (check_each-Agrees (make_minimum_size stats n) checker.commitments e i h),
        λ h.
            check_each_of_Agrees (make_minimum_size stats n) checker.commitments
              (omega (arith, make_minimum_size-length stats n)) (λ i l. rw (kept i) (h i l)),
      ),
      kept,
    )
