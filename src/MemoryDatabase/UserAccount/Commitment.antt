-- ===== src/MemoryDatabase/UserAccount/Commitment.antt =====
-- The commitment of an account, and loading the account from it.
use speedex.Prelude.{
  ℕ, zero, suc, ◌+◌, ◌-◌, ◌%◌, ◌≤◌, ◌<◌, ◌≡◌, refl, sym, ap, ◌∙◌, true, false, ltb, some, none,
  List, [], ◌∷◌, ◌++◌, map, arith, get_or-append_right, ◌^◌, length, length-append, All,
}
use mathlib.Core.List.{append-nil, append_assoc}
use native.Mathlib.Nat.{le_refl, add-zero}
use speedex.Prelude.Int.{IsInt64, signed64-to_uint64}
use speedex.Types.{AssetCommitment, AccountCommitment}
use speedex.MemoryDatabase.RevertableAsset.{RevertableAsset, new_asset, of_amount}
use speedex.MemoryDatabase.RevertableAsset
use speedex.MemoryDatabase.SequenceTracker.{UInt64SequenceTracker}
use speedex.MemoryDatabase.SequenceTracker
use speedex.MemoryDatabase.UserAccount.{
  UserAccount, commitments_from, produce_commitment, load_assets, of_commitment, commit,
}

-- The commitments of the assets from index `i` on.
abbrev listed :
    (RevertableAsset → ℕ → AssetCommitment) → List RevertableAsset → ℕ → List AssetCommitment
listed f [] i = []
listed f (x ∷ xs) i = f x i ∷ listed f xs (suc i)

-- With fewer than 256 entries the counter does not wrap, and the loop lists the entries in order.
commitments_from-listed :
    (f : RevertableAsset → ℕ → AssetCommitment) (fuel : ℕ) (ys xs : List RevertableAsset)
    → length ys + length xs < 256
    → length xs < fuel
    → commitments_from f fuel (ys ++ xs) 0 (length ys) ≡ some (listed f xs (length ys))
unfolding commitments_from
commitments_from-listed f zero ys xs h l = absurd (omega arith)
commitments_from-listed f (suc fuel) ys [] h l =
    let stop : ltb (length ys) (length (ys ++ [])) ≡ false =
      ground (arith, length-append ys (let xs : List RevertableAsset = [] in xs)) in
    rw stop
commitments_from-listed f (suc fuel) ys (x ∷ xs) h l =
    let more : ltb (length ys) (length (ys ++ x ∷ xs)) ≡ true =
      ground (arith, length-append ys (x ∷ xs)) in
    let next : (length ys + 1) % 2 ^ 8 ≡ length (ys ++ x ∷ []) =
      omega (arith, length-append ys (x ∷ [])) in
    let rest : commitments_from f fuel ((ys ++ x ∷ []) ++ xs) 0 (length (ys ++ x ∷ []))
        ≡ some (listed f xs (length (ys ++ x ∷ []))) =
      commitments_from-listed f fuel (ys ++ x ∷ []) xs (omega (arith, length-append ys (x ∷ [])))
        (omega arith) in
    let tail : (ys ++ x ∷ []) ++ xs ≡ ys ++ x ∷ xs = append_assoc ys (x ∷ []) xs in
    let there : length (ys ++ x ∷ []) ≡ suc (length ys) =
      omega (arith, length-append ys (x ∷ [])) in
    rw
      (
        more,
        next,
        sym (ap (λ zs. commitments_from f fuel zs 0 (length (ys ++ x ∷ []))) tail),
        rest,
        get_or-append_right ys (x ∷ xs) (length ys) new_asset (le_refl (length ys)),
        add-zero (length ys),
      )
      (rw (there, same (length ys)) refl)
  where
    same : (n : ℕ) → n - n ≡ 0
    same n = omega arith

-- With 256 entries or more the 8-bit counter wraps before the end: no fuel is enough.
commitments_from-endless :
    (f : RevertableAsset → ℕ → AssetCommitment) (fuel i : ℕ) (xs : List RevertableAsset)
    → 256 ≤ length xs
    → i < 256
    → commitments_from f fuel xs 0 i ≡ none
unfolding commitments_from
commitments_from-endless f zero i xs h l = refl
commitments_from-endless f (suc fuel) i xs h l =
    ground (arith, commitments_from-endless f fuel ((i + 1) % 256) xs h (omega arith))

-- Loading the listed assets puts their committed amounts behind those loaded before.
load_assets-listed :
    (xs owned : List RevertableAsset)
    → All (λ x. IsInt64 x.committed_available) xs
    → load_assets (listed RevertableAsset.produce_commitment xs (length owned)) owned
      ≡ some (owned ++ map (λ x. of_amount x.committed_available) xs)
unfolding load_assets RevertableAsset.produce_commitment
load_assets-listed [] owned h = rw append-nil
load_assets-listed (x ∷ xs) owned h =
    let sorted : ltb (length owned) (length owned) ≡ false = ground arith in
    let none_missing : length owned - length owned ≡ 0 = omega arith in
    let loaded = owned ++ of_amount x.committed_available ∷ [] in
    let there : suc (length owned) ≡ length loaded =
      omega (arith, length-append owned (of_amount x.committed_available ∷ [])) in
    rw
      (
        sorted,
        none_missing,
        signed64-to_uint64 x.committed_available h.0,
        append-nil,
        there,
        load_assets-listed xs loaded h.1,
      )
      (ap some (append_assoc owned _ _))

abbrev all_assets : UserAccount → List RevertableAsset
all_assets a = (commit a).owned_assets

-- The committed assets of a committed account are its available ones.
committed-owned :
    (xs ys : List RevertableAsset)
    → let zs =
        map (λ x. (RevertableAsset.commit x).0) xs
        ++ map (λ x. of_amount (RevertableAsset.commit x).1) ys in
      map (λ x. of_amount x.committed_available) zs ≡ zs
unfolding RevertableAsset.commit
committed-owned [] [] = refl
committed-owned [] (y ∷ ys) = ap (◌∷◌ (of_amount y.available)) (committed-owned [] ys)
committed-owned (x ∷ xs) ys = ap (◌∷◌ (of_amount x.available)) (committed-owned xs ys)

committed-IsInt64 :
    (xs ys : List RevertableAsset)
    → All (λ x. IsInt64 x.available) xs
    → All (λ x. IsInt64 x.available) ys
    → All
        (λ x. IsInt64 x.committed_available)
        (map (λ x. (RevertableAsset.commit x).0) xs
          ++ map (λ x. of_amount (RevertableAsset.commit x).1) ys)
unfolding RevertableAsset.commit
committed-IsInt64 [] [] h k = tt
committed-IsInt64 [] (y ∷ ys) h k = (k.0, committed-IsInt64 [] ys tt k.1)
committed-IsInt64 (x ∷ xs) ys h k = (h.0, committed-IsInt64 xs ys h.1 k)

produce_lem :
    (fuel : ℕ) (a : UserAccount) (cs : List AssetCommitment)
    → commitments_from RevertableAsset.produce_commitment fuel a.owned_assets 0 0 ≡ some cs
    → produce_commitment fuel a
      ≡ some (record {
        owner = a.owner;
        assets = cs;
        last_committed_id = SequenceTracker.produce_commitment a.seq_tracker;
        pk = a.pk;
      })
unfolding produce_commitment
produce_lem fuel a cs e = rw (e, produce_commitment)

of_commitment_lem :
    (c : AccountCommitment) (owned : List RevertableAsset)
    → load_assets c.assets [] ≡ some owned
    → of_commitment c
      ≡ some (record {
        owned_assets = owned;
        uncommitted_assets = [];
        seq_tracker = SequenceTracker.new_tracker c.last_committed_id;
        owner = c.owner;
        pk = c.pk;
      })
unfolding of_commitment
of_commitment_lem c owned e = rw (e, of_commitment)

-- For a committed account of fewer than 256 assets, whose amounts are `int64_t`, the loop over the
-- assets ends within 256 rounds, and the account that the commitment is loaded into is the
-- account: assets, last committed number, owner and key.
pub of_commitment-produce_commitment :
    (fuel : ℕ) (a : UserAccount)
    → 256 ≤ fuel
    → length (commit a).owned_assets < 256
    → All (λ x. IsInt64 x.available) a.owned_assets
    → All (λ x. IsInt64 x.available) a.uncommitted_assets
    → (c : AccountCommitment) × (produce_commitment fuel (commit a) ≡ some c)
      × (of_commitment c ≡ some (commit a))
of_commitment-produce_commitment fuel a enough small h k = (
  _,
  produce_lem fuel (commit a) (listed RevertableAsset.produce_commitment owned 0) (
      commitments_from-listed RevertableAsset.produce_commitment fuel [] owned (omega arith)
        (omega arith)),
  of_commitment_lem _ owned loaded ∙ restored,
)
  where
    owned : List RevertableAsset
    owned = (commit a).owned_assets

    loaded : load_assets (listed RevertableAsset.produce_commitment owned 0) [] ≡ some owned
    loaded =
        load_assets-listed owned []
          (unfold commit in committed-IsInt64 a.owned_assets a.uncommitted_assets h k)
        ∙ ap some (unfold commit in committed-owned a.owned_assets a.uncommitted_assets)

    restored :
        some (record {
          owned_assets = owned;
          uncommitted_assets = [];
          seq_tracker =
              SequenceTracker.new_tracker
                (SequenceTracker.produce_commitment (commit a).seq_tracker);
          owner = (commit a).owner;
          pk = (commit a).pk;
        })
        ≡ some (commit a)
    restored = unfold commit SequenceTracker.commit SequenceTracker.produce_commitment in refl

-- An account that owns 256 assets or more has no commitment: the loop over its assets, whose
-- counter has 8 bits, does not end within any number of rounds.
pub produce_commitment_endless :
    (fuel : ℕ) (a : UserAccount) → 256 ≤ length a.owned_assets → produce_commitment fuel a ≡ none
unfolding produce_commitment
produce_commitment_endless fuel a h = rw (
  commitments_from-endless RevertableAsset.produce_commitment fuel 0 a.owned_assets h (omega arith),
  produce_commitment,
)
