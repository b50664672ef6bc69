-- ===== src/MemoryDatabase/UserAccountView/Withdrawals.antt =====
-- What a conditional withdrawal does to the assets of an account.
use speedex.Prelude.{
  ℕ, ◌≡◌, refl, ap, sym, subst, ◌∙◌, ==_iff, Bool, true, false, if◌then◌else◌, ◌==◌, Option, none,
  some, Bool-cases, inl, inr, arith,
}
use speedex.Prelude.Int.{ℤ, pos, int64_min, ltb_ℤ, ◌≤ℤ◌, ◌==ℤ◌, IsInt64, add64, neg64, wrap64, ◌-ℤ◌}
use speedex.Prelude.Int.Wrapping.{neg64-neg64}
use speedex.MemoryDatabase.RevertableAsset.{RevertableAsset, tentative}
use speedex.MemoryDatabase.RevertableAsset
use speedex.MemoryDatabase.UserAccount.{UserAccount, operate_on_asset}
use speedex.MemoryDatabase.UserAccount
use speedex.MemoryDatabase.UserAccount.Assets.{asset_at, operate_on_asset_lem}

-- An asset after a withdrawal of the negative amount `n`, or after its refusal.
abbrev pub Taken : RevertableAsset → ℤ → RevertableAsset × Bool → Type 0
Taken a n (a', true) = (a' ≡ record a { available = add64 a.available n }) × (pos 0 ≤ℤ a'.available)
Taken a n (a', false) = a' ≡ a

Taken-tentative :
    (a : RevertableAsset) (n : ℤ) (t : Option ℤ)
    → tentative a.available n ≡ t
    → Taken a n
        (elim t [ none ↦ (a, false) | some stored ↦ (record a { available = stored }, true) ])
unfolding tentative
Taken-tentative a n none e = refl
Taken-tentative a n (some stored) e = ground arith

Taken-conditional_transfer_available :
    (a : RevertableAsset) (n : ℤ)
    → ltb_ℤ n (pos 0) ≡ true
    → Taken a n (RevertableAsset.conditional_transfer_available a n)
unfolding RevertableAsset.conditional_transfer_available
Taken-conditional_transfer_available a n negative =
    let plus : ltb_ℤ (pos 0) n ≡ false = ground arith in
    rw plus (Taken-tentative a n (tentative a.available n) refl)

neg64-positive :
    (n : ℤ)
    → IsInt64 n
    → ltb_ℤ n (pos 0) ≡ true
    → (neg64 n ==ℤ int64_min) ≡ false
    → ltb_ℤ (pos 0) (neg64 n) ≡ true
unfolding neg64 wrap64 ◌-ℤ◌
neg64-positive n h negative more = ground arith

Taken-conditional_escrow :
    (a : RevertableAsset) (n : ℤ)
    → IsInt64 n
    → ltb_ℤ n (pos 0) ≡ true
    → Taken a n (RevertableAsset.conditional_escrow a (neg64 n))
unfolding RevertableAsset.conditional_escrow
Taken-conditional_escrow a n h negative = elim (Bool-cases (neg64 n ==ℤ int64_min)) [
  | inl least ↦ rw least refl
  | inr more ↦
      rw (more, neg64-positive n h negative more, neg64-neg64 n h)
        (Taken-conditional_transfer_available a n negative)
]

-- An account after a withdrawal of the negative amount `n` of an asset, or after its refusal.
abbrev pub Withdrawn : UserAccount → ℕ → ℤ → UserAccount × Bool → Type 0
Withdrawn a asset n (a', true) =
    (j : ℕ)
    → (asset_at a' j ≡ (
        if j == asset
        then record (asset_at a asset) { available = add64 (asset_at a asset).available n }
        else asset_at a j))
      × (pos 0 ≤ℤ (asset_at a j).available → pos 0 ≤ℤ (asset_at a' j).available)
Withdrawn a asset n (a', false) = (j : ℕ) → asset_at a' j ≡ asset_at a j

-- With what `operate_on_asset_lem` says of the account and the result.
Withdrawn-of :
    (a : UserAccount) (asset : ℕ) (n : ℤ) (r : RevertableAsset × Bool) (a' : UserAccount) (b : Bool)
    → Taken (asset_at a asset) n r
    → b ≡ r.1
    → ((j : ℕ) → asset_at a' j ≡ (if j == asset then r.0 else asset_at a j))
    → Withdrawn a asset n (a', b)
Withdrawn-of a asset n (x, true) a' true (e, low) same at = λ j. elim (Bool-cases (j == asset)) [
  | inl here ↦
      let new : asset_at a' j ≡ x = at j ∙ rw here refl in
      rw here (new ∙ e, λ positive. subst (λ y. pos 0 ≤ℤ y.available) (sym new) low)
  | inr other ↦
      let old : asset_at a' j ≡ asset_at a j = at j ∙ rw other refl in
      rw other (old, λ positive. subst (λ y. pos 0 ≤ℤ y.available) (sym old) positive)
]
Withdrawn-of a asset n (x, false) a' false taken same at = λ j. elim (Bool-cases (j == asset)) [
  | inl here ↦
      let key : asset ≡ j = sym ((==_iff j asset).0 here) in
      at j ∙ rw here (taken ∙ ap (asset_at a) key)
  | inr other ↦ at j ∙ rw other refl
]
Withdrawn-of a asset n (x, true) a' false taken same at = absurd (ground (arith, same))
Withdrawn-of a asset n (x, false) a' true taken same at = absurd (ground (arith, same))

pub conditional_transfer_available-Withdrawn :
    (a : UserAccount) (asset : ℕ) (n : ℤ)
    → ltb_ℤ n (pos 0) ≡ true
    → Withdrawn a asset n (UserAccount.conditional_transfer_available a asset n)
unfolding UserAccount.conditional_transfer_available
conditional_transfer_available-Withdrawn a asset n negative =
    let f : RevertableAsset → RevertableAsset × Bool =
      λ x. RevertableAsset.conditional_transfer_available x n in
    Withdrawn-of a asset n (f (asset_at a asset)) (operate_on_asset a asset f).0
      (operate_on_asset a asset f).1
      (Taken-conditional_transfer_available (asset_at a asset) n negative)
      (operate_on_asset_lem a asset asset f).0 (λ j. (operate_on_asset_lem a asset j f).1)

pub conditional_escrow-Withdrawn :
    (a : UserAccount) (asset : ℕ) (n : ℤ)
    → IsInt64 n
    → ltb_ℤ n (pos 0) ≡ true
    → Withdrawn a asset n (UserAccount.conditional_escrow a asset (neg64 n))
unfolding UserAccount.conditional_escrow
conditional_escrow-Withdrawn a asset n h negative =
    let f : RevertableAsset → RevertableAsset × Bool =
      λ x. RevertableAsset.conditional_escrow x (neg64 n) in
    Withdrawn-of a asset n (f (asset_at a asset)) (operate_on_asset a asset f).0
      (operate_on_asset a asset f).1 (Taken-conditional_escrow (asset_at a asset) n h negative)
      (operate_on_asset_lem a asset asset f).0 (λ j. (operate_on_asset_lem a asset j f).1)
