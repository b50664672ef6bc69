-- ===== src/MemoryDatabase/UserAccount.antt =====
-- The state of one account (memory_database/user_account.h and .cc). An asset stands at its number
-- in `owned_assets`, or behind those in `uncommitted_assets`, which grow when an asset is first
-- touched in a block. The tracker of sequence numbers is the one for 64 numbers in a block, which
-- the static configuration chooses. The mutex of `uncommitted_assets` is not modelled.
pub mod Assets
pub mod Rollback
pub mod Commitment
use speedex.Prelude.{
  ℕ, zero, suc, ◌+◌, ◌-◌, ◌%◌, ◌^◌, Bool, true, false, if◌then◌else◌, leb, ltb, ◌&&◌, Option, none,
  some, List, [], ◌∷◌, ◌++◌, map, get_or, set, replicate, length,
}
use speedex.Prelude.Int.{ℤ, pos, signed64}
use speedex.Types.{TransactionProcessingStatus, AssetCommitment, AccountCommitment}
use speedex.MemoryDatabase.RevertableAsset.{RevertableAsset, of_amount, new_asset}
use speedex.MemoryDatabase.RevertableAsset
use speedex.MemoryDatabase.SequenceTracker.{UInt64SequenceTracker}
use speedex.MemoryDatabase.SequenceTracker

pub record UserAccount : Type 0 where
  pub owned_assets : List RevertableAsset
  pub uncommitted_assets : List RevertableAsset
  pub seq_tracker : UInt64SequenceTracker
  pub owner : ℕ
  pub pk : ℕ

abbrev pub new_account : ℕ → ℕ → UserAccount
new_account owner pk = record {
  owned_assets = [];
  uncommitted_assets = [];
  seq_tracker = SequenceTracker.new_tracker 0;
  owner = owner;
  pk = pk;
}

-- The account of a place that is not in use.
abbrev pub default_account : UserAccount
default_account = record (new_account 0 0) {
  seq_tracker = SequenceTracker.new_tracker (2 ^ 64 - 1);
}

-- The loop of `emplace_back` until `asset` is an index.
abbrev grow : ℕ → List RevertableAsset → List RevertableAsset
grow asset xs = xs ++ replicate (asset + 1 - length xs) new_asset

unfoldable pub operate_on_asset {ℓ} :
    {A : Type ℓ} → UserAccount → ℕ → (RevertableAsset → RevertableAsset × A) → UserAccount × A
operate_on_asset a asset func =
    let size = length a.owned_assets in
    if leb size asset
    then (let assets = grow (asset - size) a.uncommitted_assets in
        let (x, r) = func (get_or assets (asset - size) new_asset) in
        (record a { uncommitted_assets = set assets (asset - size) x }, r))
    else (let (x, r) = func (get_or a.owned_assets asset new_asset) in
        (record a { owned_assets = set a.owned_assets asset x }, r))

unfoldable pub transfer_available : UserAccount → ℕ → ℤ → UserAccount
unfolding operate_on_asset
transfer_available a asset amount =
    (operate_on_asset a asset (λ x. (RevertableAsset.transfer_available x amount, tt {0}))).0

unfoldable pub escrow : UserAccount → ℕ → ℤ → UserAccount
unfolding operate_on_asset
escrow a asset amount =
    (operate_on_asset a asset (λ x. (RevertableAsset.escrow x amount, tt {0}))).0

unfoldable pub conditional_transfer_available : UserAccount → ℕ → ℤ → UserAccount × Bool
unfolding operate_on_asset
conditional_transfer_available a asset amount =
    operate_on_asset a asset (λ x. RevertableAsset.conditional_transfer_available x amount)

unfoldable pub conditional_escrow : UserAccount → ℕ → ℤ → UserAccount × Bool
unfolding operate_on_asset
conditional_escrow a asset amount =
    operate_on_asset a asset (λ x. RevertableAsset.conditional_escrow x amount)

-- Only of owned assets: an asset first touched in this block reads as 0.
unfoldable pub lookup_available_balance : UserAccount → ℕ → ℤ
lookup_available_balance a asset =
    if leb (length a.owned_assets) asset
    then pos 0
    else (get_or a.owned_assets asset new_asset).available

unfoldable pub reserve_sequence_number : UserAccount → ℕ → UserAccount × TransactionProcessingStatus
reserve_sequence_number a n =
    let (t, status) = SequenceTracker.reserve_sequence_number a.seq_tracker n in
    (record a { seq_tracker = t }, status)

-- `none` is a thrown error.
unfoldable pub release_sequence_number : UserAccount → ℕ → Option UserAccount
release_sequence_number a n = elim (SequenceTracker.release_sequence_number a.seq_tracker n) [
  | none ↦ none
  | some t ↦ some (record a { seq_tracker = t })
]

unfoldable pub commit_sequence_number : UserAccount → ℕ → UserAccount
commit_sequence_number a n = record a {
  seq_tracker = SequenceTracker.commit_sequence_number a.seq_tracker n;
}

unfoldable pub commit : UserAccount → UserAccount
commit a = record a {
  owned_assets =
      map (λ x. (RevertableAsset.commit x).0) a.owned_assets
      ++ map (λ x. of_amount (RevertableAsset.commit x).1) a.uncommitted_assets;
  uncommitted_assets = [];
  seq_tracker = SequenceTracker.commit a.seq_tracker;
}

unfoldable pub rollback : UserAccount → UserAccount
rollback a = record a {
  owned_assets = map RevertableAsset.rollback a.owned_assets;
  uncommitted_assets = [];
  seq_tracker = SequenceTracker.rollback a.seq_tracker;
}

abbrev all_valid : List RevertableAsset → Bool
all_valid [] = true
all_valid (x ∷ xs) = RevertableAsset.in_valid_state x && all_valid xs

unfoldable pub in_valid_state : UserAccount → Bool
in_valid_state a = all_valid a.owned_assets && all_valid a.uncommitted_assets

-- `for (uint8_t i = 0; i < assets.size(); i++)`: the counter wraps at 256. `none` means that the
-- fuel ran out.
unfoldable pub commitments_from :
    (RevertableAsset → ℕ → AssetCommitment)
    → ℕ
    → List RevertableAsset
    → ℕ
    → ℕ
    → Option (List AssetCommitment)
commitments_from f zero xs base i = none
commitments_from f (suc fuel) xs base i =
    let rest = commitments_from f fuel xs base ((i + 1) % 2 ^ 8) in
    if ltb i (length xs)
    then (elim rest [ none ↦ none | some cs ↦ some (f (get_or xs i new_asset) (i + base) ∷ cs) ])
    else some []

unfoldable pub produce_commitment : ℕ → UserAccount → Option AccountCommitment
produce_commitment fuel a =
    elim (commitments_from RevertableAsset.produce_commitment fuel a.owned_assets 0 0) [
      | none ↦ none
      | some cs ↦ some (record {
        owner = a.owner;
        assets = cs;
        last_committed_id = SequenceTracker.produce_commitment a.seq_tracker;
        pk = a.pk;
      })
    ]

unfoldable pub tentative_commitment : ℕ → UserAccount → Option AccountCommitment
tentative_commitment fuel a =
    elim (commitments_from RevertableAsset.tentative_commitment fuel a.owned_assets 0 0) [
      | none ↦ none
      | some cs ↦
          elim (commitments_from RevertableAsset.tentative_commitment fuel a.uncommitted_assets
            (length a.owned_assets) 0) [
              | none ↦ none
              | some ds ↦ some (record {
                owner = a.owner;
                assets = cs ++ ds;
                last_committed_id = SequenceTracker.tentative_commitment a.seq_tracker;
                pk = a.pk;
              })
            ]
    ]

-- The loop of the constructor from a commitment: `none` is the error thrown on unsorted assets.
unfoldable pub load_assets :
    List AssetCommitment → List RevertableAsset → Option (List RevertableAsset)
load_assets [] owned = some owned
load_assets (c ∷ cs) owned =
    let padded = owned ++ replicate (c.asset - length owned) (of_amount (pos 0)) in
    let rest = load_assets cs (padded ++ of_amount (signed64 c.amount_available) ∷ []) in
    if ltb c.asset (length owned) then none else rest

unfoldable pub of_commitment : AccountCommitment → Option UserAccount
of_commitment c = elim (load_assets c.assets []) [
  | none ↦ none
  | some owned ↦ some (record {
    owned_assets = owned;
    uncommitted_assets = [];
    seq_tracker = SequenceTracker.new_tracker c.last_committed_id;
    owner = c.owner;
    pk = c.pk;
  })
]

unfoldable pub set_owner : UserAccount → ℕ → ℕ → ℕ → UserAccount
set_owner a owner pk last_committed_id = record a {
  seq_tracker = SequenceTracker.set_last_committed_id a.seq_tracker last_committed_id;
  owner = owner;
  pk = pk;
}
