-- ===== src/MemoryDatabase/UserAccount/Assets.antt =====
-- An account's assets as one table: which entry an operation changes, and into what.
use speedex.Prelude.{
  ℕ, ◌+◌, ◌-◌, ◌≤◌, ◌<◌, ◌≡◌, refl, sym, ap, ◌∙◌, true, false, if◌then◌else◌, leb, ltb, ◌==◌,
  ==_iff, List, ◌++◌, arith, inl, inr, Bool-cases, get_or, set, replicate, length, length-append,
  length-set, length-replicate, get_or-set_self, get_or-set_ne, get_or-append_left,
  get_or-append_right, get_or-beyond, get_or-replicate,
}
use speedex.MemoryDatabase.RevertableAsset.{RevertableAsset, new_asset}
use speedex.MemoryDatabase.UserAccount.{UserAccount, grow, operate_on_asset}

-- The entry of an asset; one that the account does not hold reads as a new one.
abbrev pub asset_at : UserAccount → ℕ → RevertableAsset
asset_at a asset = get_or (a.owned_assets ++ a.uncommitted_assets) asset new_asset

get_or-set :
    (xs : List RevertableAsset) (i j : ℕ) (v : RevertableAsset)
    → i < length xs
    → get_or (set xs i v) j new_asset ≡ (if j == i then v else get_or xs j new_asset)
get_or-set xs i j v h = elim (Bool-cases (j == i)) [
  | inl same ↦
      let e : j ≡ i = (==_iff j i).0 same in
      rw same (ap (λ k. get_or (set xs i v) k new_asset) e ∙ get_or-set_self xs i v new_asset h)
  | inr other ↦ rw other (get_or-set_ne xs i j v new_asset (ground arith))
]

-- Growing the table changes no entry.
get_or-grow :
    (asset j : ℕ) (xs : List RevertableAsset)
    → get_or (grow asset xs) j new_asset ≡ get_or xs j new_asset
get_or-grow asset j xs = elim (Bool-cases (ltb j (length xs))) [
  | inl inside ↦ get_or-append_left xs _ j new_asset (ground arith)
  | inr beyond ↦
      let past : length xs ≤ j = ground arith in
      get_or-append_right xs _ j new_asset past
      ∙ get_or-replicate _ (j - length xs) new_asset
      ∙ sym (get_or-beyond xs j new_asset past)
]

length-grow : (asset : ℕ) (xs : List RevertableAsset) → asset < length (grow asset xs)
length-grow asset xs = omega (
  arith,
  length-append xs (replicate (asset + 1 - length xs) new_asset),
  length-replicate (asset + 1 - length xs) new_asset,
)

get_or-split :
    (xs ys : List RevertableAsset) (j : ℕ)
    → get_or (xs ++ ys) j new_asset
      ≡ (if leb (length xs) j then get_or ys (j - length xs) new_asset else get_or xs j new_asset)
get_or-split xs ys j = elim (Bool-cases (leb (length xs) j)) [
  | inl past ↦ rw past (get_or-append_right xs ys j new_asset (ground arith))
  | inr inside ↦ rw inside (get_or-append_left xs ys j new_asset (ground arith))
]

module _ (owned uncommitted : List RevertableAsset) (asset : ℕ) where
  -- The index among the uncommitted assets.
  abbrev rest_idx : ℕ
  rest_idx = asset - length owned

  read-past :
      leb (length owned) asset ≡ true
      → get_or (grow rest_idx uncommitted) rest_idx new_asset
        ≡ get_or (owned ++ uncommitted) asset new_asset
  read-past past =
      get_or-grow rest_idx rest_idx uncommitted
      ∙ sym (get_or-split owned uncommitted asset ∙ rw past)

  read-owned :
      leb (length owned) asset ≡ false
      → get_or owned asset new_asset ≡ get_or (owned ++ uncommitted) asset new_asset
  read-owned inside = sym (get_or-split owned uncommitted asset ∙ rw inside)

  write-past :
      (j : ℕ) (x : RevertableAsset)
      → leb (length owned) asset ≡ true
      → get_or (owned ++ set (grow rest_idx uncommitted) rest_idx x) j new_asset
        ≡ (if j == asset then x else get_or (owned ++ uncommitted) j new_asset)
  write-past j x past =
      rw
        (
          get_or-split owned (set (grow rest_idx uncommitted) rest_idx x) j,
          get_or-split owned uncommitted j,
          get_or-set (grow rest_idx uncommitted) rest_idx (j - length owned) x
              (length-grow rest_idx uncommitted),
          get_or-grow rest_idx (j - length owned) uncommitted,
        )
        (ground arith)

  write-owned :
      (j : ℕ) (x : RevertableAsset)
      → leb (length owned) asset ≡ false
      → get_or (set owned asset x ++ uncommitted) j new_asset
        ≡ (if j == asset then x else get_or (owned ++ uncommitted) j new_asset)
  write-owned j x inside =
      rw
        (
          get_or-split (set owned asset x) uncommitted j,
          get_or-split owned uncommitted j,
          get_or-set owned asset j x (ground arith),
          length-set owned asset x,
        )
        (ground arith)

-- An operation on an asset returns what its function returns on the entry of that asset, stores
-- the function's new entry there, changes the entry of no other asset, and leaves the sequence
-- numbers, the owner and the key alone, whether the asset was owned or is first touched now.
pub operate_on_asset_lem {ℓ} :
    {A : Type ℓ} (a : UserAccount) (asset j : ℕ) (func : RevertableAsset → RevertableAsset × A)
    → let (a', r) = operate_on_asset a asset func in
      (r ≡ (func (asset_at a asset)).1)
      × (asset_at a' j ≡ (if j == asset then (func (asset_at a asset)).0 else asset_at a j))
      × (a'.seq_tracker ≡ a.seq_tracker)
      × (a'.owner ≡ a.owner)
      × (a'.pk ≡ a.pk)
unfolding operate_on_asset
operate_on_asset_lem a asset j func = elim (Bool-cases (leb (length a.owned_assets) asset)) [
  | inl past ↦
      rw (past, read-past a.owned_assets a.uncommitted_assets asset past)
        (
          refl,
          write-past a.owned_assets a.uncommitted_assets asset j (func (asset_at a asset)).0 past,
          refl,
          refl,
          refl,
        )
  | inr inside ↦
      rw (inside, read-owned a.owned_assets a.uncommitted_assets asset inside)
        (
          refl,
          write-owned a.owned_assets a.uncommitted_assets asset j (func (asset_at a asset)).0
              inside,
          refl,
          refl,
          refl,
        )
]
