-- ===== src/MemoryDatabase/UserAccount/Rollback.antt =====
-- Rolling an account back after any calls, and committing it.
use speedex.Prelude.{
  ℕ, zero, suc, ◌≡◌, refl, ap, ◌∙◌, leb, some, none, List, [], ◌∷◌, ◌++◌, map, arith, get_or, set,
  length, Bool-cases, Option-cases, inl, inr,
}
use speedex.Prelude.Int.{ℤ}
use speedex.MemoryDatabase.RevertableAsset.{RevertableAsset, new_asset, tentative, of_amount}
use speedex.MemoryDatabase.RevertableAsset
use speedex.MemoryDatabase.RevertableAsset.Laws as Laws
use speedex.MemoryDatabase.SequenceTracker.{UInt64SequenceTracker}
use speedex.MemoryDatabase.SequenceTracker
use speedex.MemoryDatabase.UserAccount.{
  UserAccount, operate_on_asset, transfer_available, escrow, conditional_transfer_available,
  conditional_escrow, reserve_sequence_number, release_sequence_number, commit_sequence_number,
  commit, rollback,
}

-- A call on an account during a block. A release that throws leaves the account alone.
pub data Call : Type 0 where
  transfers escrows transfers_conditionally escrows_conditionally : ℕ → ℤ → Call
  reserves releases commits : ℕ → Call

unfoldable pub call : Call → UserAccount → UserAccount
call (transfers asset x) a = transfer_available a asset x
call (escrows asset x) a = escrow a asset x
call (transfers_conditionally asset x) a = (conditional_transfer_available a asset x).0
call (escrows_conditionally asset x) a = (conditional_escrow a asset x).0
call (reserves n) a = (reserve_sequence_number a n).0
call (releases n) a = elim (release_sequence_number a n) [ none ↦ a | some a' ↦ a' ]
call (commits n) a = commit_sequence_number a n

unfoldable pub calls : List Call → UserAccount → UserAccount
calls [] a = a
calls (c ∷ cs) a = calls cs (call c a)

-- What calls leave alone: each owned asset's committed amount, the last committed number, the
-- owner and the key. Equivalently, what a rollback goes back to.
record Keeps (a b : UserAccount) : Type 0 where
  assets : map RevertableAsset.rollback b.owned_assets ≡ map RevertableAsset.rollback a.owned_assets
  tracker : b.seq_tracker.last_committed_id ≡ a.seq_tracker.last_committed_id
  owner : b.owner ≡ a.owner
  pk : b.pk ≡ a.pk

Keeps-trans : {a b c : UserAccount} → Keeps a b → Keeps b c → Keeps a c
Keeps-trans h k = record {
  assets = k.assets ∙ h.assets;
  tracker = k.tracker ∙ h.tracker;
  owner = k.owner ∙ h.owner;
  pk = k.pk ∙ h.pk;
}

map-rollback-set :
    (xs : List RevertableAsset) (i : ℕ) (v : RevertableAsset)
    → v.committed_available ≡ (get_or xs i new_asset).committed_available
    → map RevertableAsset.rollback (set xs i v) ≡ map RevertableAsset.rollback xs
unfolding RevertableAsset.rollback
map-rollback-set [] i v e = refl
map-rollback-set (x ∷ xs) zero v e =
    ap (λ c. record { available = c; committed_available = c } ∷ map RevertableAsset.rollback xs) e
map-rollback-set (x ∷ xs) (suc i) v e =
    ap (◌∷◌ (RevertableAsset.rollback x)) (map-rollback-set xs i v e)

operate-Keeps {ℓ} :
    {A : Type ℓ} (a : UserAccount) (asset : ℕ) (func : RevertableAsset → RevertableAsset × A)
    → ((x : RevertableAsset) → (func x).0.committed_available ≡ x.committed_available)
    → Keeps a (operate_on_asset a asset func).0
unfolding operate_on_asset
operate-Keeps a asset func keeps = elim (Bool-cases (leb (length a.owned_assets) asset)) [
  | inl past ↦ rw past (record { assets = refl; tracker = refl; owner = refl; pk = refl })
  | inr inside ↦ rw inside (record {
    assets =
        map-rollback-set a.owned_assets asset (func (get_or a.owned_assets asset new_asset)).0
          (keeps _);
    tracker = refl;
    owner = refl;
    pk = refl;
  })
]

reserve-tracker :
    (t : UInt64SequenceTracker) (n : ℕ)
    → (SequenceTracker.reserve_sequence_number t n).0.last_committed_id ≡ t.last_committed_id
unfolding SequenceTracker.reserve_sequence_number
reserve-tracker t n = ground arith

release-tracker :
    (t u : UInt64SequenceTracker) (n : ℕ)
    → SequenceTracker.release_sequence_number t n ≡ some u
    → u.last_committed_id ≡ t.last_committed_id
unfolding SequenceTracker.release_sequence_number
release-tracker t u n e = ground arith

with_tracker-Keeps :
    (a : UserAccount) (t : UInt64SequenceTracker)
    → t.last_committed_id ≡ a.seq_tracker.last_committed_id
    → Keeps a (record a { seq_tracker = t })
with_tracker-Keeps a t e = record { assets = refl; tracker = e; owner = refl; pk = refl }

release-Keeps : (a : UserAccount) (n : ℕ) → Keeps a (call (releases n) a)
unfolding call release_sequence_number
release-Keeps a n = elim (Option-cases (SequenceTracker.release_sequence_number a.seq_tracker n)) [
  | inl e ↦ rw (e, call, release_sequence_number) (with_tracker-Keeps a a.seq_tracker refl)
  | inr (t, e) ↦
      rw (e, call, release_sequence_number)
        (with_tracker-Keeps a t (release-tracker a.seq_tracker t n e))
]

call-Keeps : (c : Call) (a : UserAccount) → Keeps a (call c a)
unfolding call Laws.apply transfer_available escrow conditional_transfer_available
    conditional_escrow reserve_sequence_number commit_sequence_number
    SequenceTracker.commit_sequence_number
call-Keeps (transfers asset x) a =
    operate-Keeps a asset (λ y. (RevertableAsset.transfer_available y x, tt {0}))
      (λ y. Laws.apply-committed (Laws.transfers x) y)
call-Keeps (escrows asset x) a =
    operate-Keeps a asset (λ y. (RevertableAsset.escrow y x, tt {0}))
      (λ y. Laws.apply-committed (Laws.escrows x) y)
call-Keeps (transfers_conditionally asset x) a =
    operate-Keeps a asset (λ y. RevertableAsset.conditional_transfer_available y x)
      (λ y. Laws.apply-committed (Laws.transfers_conditionally x) y)
call-Keeps (escrows_conditionally asset x) a =
    operate-Keeps a asset (λ y. RevertableAsset.conditional_escrow y x)
      (λ y. Laws.apply-committed (Laws.escrows_conditionally x) y)
call-Keeps (reserves n) a = with_tracker-Keeps a _ (reserve-tracker a.seq_tracker n)
call-Keeps (releases n) a = release-Keeps a n
call-Keeps (commits n) a = with_tracker-Keeps a a.seq_tracker refl

calls-Keeps : (cs : List Call) (a : UserAccount) → Keeps a (calls cs a)
unfolding calls
calls-Keeps [] a = with_tracker-Keeps a a.seq_tracker refl
calls-Keeps (c ∷ cs) a = Keeps-trans (call-Keeps c a) (calls-Keeps cs (call c a))

-- Rolling back a committed list of assets gives the list.
map-rollback-commit :
    (xs ys : List RevertableAsset)
    → map RevertableAsset.rollback (
        map (λ x. (RevertableAsset.commit x).0) xs
        ++ map (λ x. of_amount (RevertableAsset.commit x).1) ys)
      ≡ map (λ x. (RevertableAsset.commit x).0) xs
        ++ map (λ x. of_amount (RevertableAsset.commit x).1) ys
unfolding RevertableAsset.rollback RevertableAsset.commit
map-rollback-commit [] [] = refl
map-rollback-commit [] (y ∷ ys) = ap (◌∷◌ (of_amount y.available)) (map-rollback-commit [] ys)
map-rollback-commit (x ∷ xs) ys = ap (◌∷◌ (of_amount x.available)) (map-rollback-commit xs ys)

rollback-Keeps : {a b : UserAccount} → Keeps a b → rollback b ≡ rollback a
unfolding rollback SequenceTracker.rollback
rollback-Keeps k = λ i. record {
  owned_assets = k.assets i;
  uncommitted_assets = [];
  seq_tracker = record { last_committed_id = k.tracker i; sequence_number_vec = 0 };
  owner = k.owner i;
  pk = k.pk i;
}

rollback-commit : (a : UserAccount) → rollback (commit a) ≡ commit a
unfolding rollback commit SequenceTracker.rollback SequenceTracker.commit
rollback-commit a =
    ap (λ assets. record (commit a) { owned_assets = assets })
      (map-rollback-commit a.owned_assets a.uncommitted_assets)

-- Whatever calls of a block follow the commit of an account, a rollback gives back exactly the
-- committed account: its assets, with those first touched in the block gone, its sequence
-- numbers, its owner and its key.
pub rollback-calls-commit :
    (cs : List Call) (a : UserAccount) → rollback (calls cs (commit a)) ≡ commit a
rollback-calls-commit cs a = rollback-Keeps (calls-Keeps cs (commit a)) ∙ rollback-commit a
