-- ===== src/MemoryDatabase/UserAccountView/Balances.antt =====
-- A view after a sequence of calls, committed or unwound.
use speedex.Prelude.{
  ℕ, ◌≡◌, refl, ap, sym, ◌∙◌, Bool, true, false, if◌then◌else◌, ◌==◌, ◌&&◌, ==_iff, none, some,
  List, [], ◌∷◌, Bool-cases, Option-cases, inl, inr, arith,
}
use speedex.Prelude.Int.{
  ℤ, pos, ◌-ℤ◌, ltb_ℤ, ◌≤ℤ◌, IsInt64, wrap64_id, add64, sub64, neg64, int_laws,
}
use speedex.Prelude.Dict.{Dict, lookup, value_or, HasKeysOnce, insert-HasKeysOnce}
use speedex.Types.{is_success, TransactionProcessingStatus}
use speedex.MemoryDatabase.RevertableAsset.{RevertableAsset}
use speedex.MemoryDatabase.RevertableAsset
use speedex.MemoryDatabase.UserAccount.{UserAccount}
use speedex.MemoryDatabase.UserAccount
use speedex.MemoryDatabase.UserAccount.Assets.{asset_at, operate_on_asset_lem}
use speedex.MemoryDatabase.UserAccountView.{
  UserAccountView, new_view, draw, conditional_escrow, transfer_available, transfer_all, commit,
  unwind,
}
use speedex.MemoryDatabase.UserAccountView.Effects.{
  available, origin, outcome, Effect, add64_zero, add64_neg, transfer_available-Effect,
  conditional_escrow-Effect,
}

-- One call of a view, by its asset and amount.
pub data Call : Type 0 where
  escrows transfers : ℕ → ℤ → Call

abbrev pub asset_of : Call → ℕ
asset_of (escrows asset amount) = asset
asset_of (transfers asset amount) = asset

abbrev pub change_of : Call → ℤ
change_of (escrows asset amount) = neg64 amount
change_of (transfers asset amount) = amount

abbrev pub perform : Call → UserAccountView → UserAccountView × TransactionProcessingStatus
perform (escrows asset amount) v = conditional_escrow v asset amount
perform (transfers asset amount) v = transfer_available v asset amount

abbrev pub perform_all : List Call → UserAccountView → UserAccountView
perform_all [] v = v
perform_all (call ∷ calls) v = perform_all calls (perform call v).0

-- The balance `b` of asset `j` with the changes of the calls that succeed, one after the other.
abbrev pub balance_after : ℕ → List Call → UserAccountView → ℤ → ℤ
balance_after j [] v b = b
balance_after j (call ∷ calls) v b =
    let (v', status) = perform call v in
    balance_after j calls v'
      (if is_success status && (j == asset_of call) then add64 b (change_of call) else b)

perform-Effect :
    (call : Call) (v : UserAccountView) → Effect v (asset_of call) (change_of call) (perform call v)
perform-Effect (escrows asset amount) v = conditional_escrow-Effect v asset amount
perform-Effect (transfers asset amount) v = transfer_available-Effect v asset amount

-- Each asset stands once in each map.
abbrev Keys : UserAccountView → Type 0
Keys v = HasKeysOnce v.available_buffer × HasKeysOnce v.available_side_effects

Keys-draw :
    (v : UserAccountView) (asset : ℕ) (n : ℤ) (r : UserAccount × Bool)
    → Keys v
    → Keys (draw v asset n r).0
Keys-draw v asset n (main, false) (b, e) = (insert-HasKeysOnce asset _ v.available_buffer b, e)
Keys-draw v asset n (main, true) (b, e) = (
  insert-HasKeysOnce asset _ v.available_buffer b,
  insert-HasKeysOnce asset _ v.available_side_effects e,
)

Keys-perform : (call : Call) (v : UserAccountView) → Keys v → Keys (perform call v).0
unfolding conditional_escrow transfer_available
Keys-perform (escrows asset amount) v (b, e) =
    let buffered = value_or (pos 0) asset v.available_buffer in
    elim (Bool-cases (ltb_ℤ amount (pos 0))) [
      | inl frees ↦ rw frees (insert-HasKeysOnce asset _ v.available_buffer b, e)
      | inr takes ↦ rw takes (elim (Bool-cases (ltb_ℤ (sub64 buffered amount) (pos 0))) [
        | inl short ↦ rw short (Keys-draw v asset _ _ (b, e))
        | inr covered ↦ rw covered (insert-HasKeysOnce asset _ v.available_buffer b, e)
      ])
    ]
Keys-perform (transfers asset amount) v (b, e) =
    let buffered = value_or (pos 0) asset v.available_buffer in
    elim (Bool-cases (ltb_ℤ (add64 buffered amount) (pos 0))) [
      | inl short ↦ rw short (Keys-draw v asset _ _ (b, e))
      | inr covered ↦ rw covered (insert-HasKeysOnce asset _ v.available_buffer b, e)
    ]

Keys-perform_all : (calls : List Call) (v : UserAccountView) → Keys v → Keys (perform_all calls v)
Keys-perform_all [] v keys = keys
Keys-perform_all (call ∷ calls) v keys =
    Keys-perform_all calls (perform call v).0 (Keys-perform call v keys)

-- What a sequence of calls leaves, if the transaction is unwound and if it is committed.
effects :
    (calls : List Call) (v : UserAccountView) (j : ℕ)
    → (origin (perform_all calls v) j ≡ origin v j)
      × (outcome (perform_all calls v) j ≡ balance_after j calls v (outcome v j))
      × (pos 0 ≤ℤ available v j → pos 0 ≤ℤ available (perform_all calls v) j)
      × (IsInt64 (available v j) → IsInt64 (available (perform_all calls v) j))
effects [] v j = (refl, refl, λ h. h, λ h. h)
effects (call ∷ calls) v j =
    let (o, u, n, i) = perform-Effect call v j in
    let (o', u', n', i') = effects calls (perform call v).0 j in
    (o' ∙ o, u' ∙ ap (balance_after j calls (perform call v).0) u, λ h. n' (n h), λ h. i' (i h))

-- A transfer changes the balance of its asset alone.
transfer_one :
    (main : UserAccount) (asset j : ℕ) (amount : ℤ)
    → (asset_at (UserAccount.transfer_available main asset amount) j).available ≡ (
        if j == asset
        then add64 (asset_at main j).available amount
        else (asset_at main j).available)
unfolding UserAccount.transfer_available RevertableAsset.transfer_available
transfer_one main asset j amount =
    let moved =
      (operate_on_asset_lem main asset j
        (λ (x : RevertableAsset). (RevertableAsset.transfer_available x amount, tt {0}))).1 in
    elim (Bool-cases (j == asset)) [
      | inl here ↦
          let key : j ≡ asset = (==_iff j asset).0 here in
          ap (λ x. x.available) moved ∙ rw (here, key) refl
      | inr other ↦ ap (λ x. x.available) moved ∙ rw other refl
    ]

transfer_all-absent :
    (amount : ℤ → ℤ) (d : Dict ℤ) (main : UserAccount) (j : ℕ)
    → lookup j d ≡ none
    → (asset_at (transfer_all amount d main) j).available ≡ (asset_at main j).available
unfolding transfer_all
transfer_all-absent amount [] main j h = refl
transfer_all-absent amount ((asset, x) ∷ d) main j h =
    let other : (j == asset) ≡ false = ground (arith, h) in
    let absent : lookup j d ≡ none = ground (arith, h) in
    transfer_all-absent amount d (UserAccount.transfer_available main asset (amount x)) j absent
    ∙ transfer_one main asset j (amount x)
    ∙ rw other refl

transfer_all-present :
    (amount : ℤ → ℤ) (d : Dict ℤ) (main : UserAccount) (j : ℕ) (x : ℤ)
    → HasKeysOnce d
    → lookup j d ≡ some x
    → (asset_at (transfer_all amount d main) j).available
      ≡ add64 (asset_at main j).available (amount x)
unfolding transfer_all
transfer_all-present amount [] main j x once h = absurd (ground (arith, h))
transfer_all-present amount ((asset, y) ∷ d) main j x once h =
    let next = UserAccount.transfer_available main asset (amount y) in
    elim (Bool-cases (j == asset)) [
      | inl here ↦
          let value : y ≡ x = ground (arith, h, here) in
          let key : j ≡ asset = (==_iff j asset).0 here in
          let absent : lookup j d ≡ none = ap (λ k. lookup k d) key ∙ once.0 in
          transfer_all-absent amount d next j absent
          ∙ transfer_one main asset j (amount y)
          ∙ rw (here, value) refl
      | inr other ↦
          let later : lookup j d ≡ some x = ground (arith, h, other) in
          transfer_all-present amount d next j x once.1 later
          ∙ ap (λ b. add64 b (amount x)) (transfer_one main asset j (amount y) ∙ rw other refl)
    ]

sub64_neg : (x s : ℤ) → add64 x (neg64 s) ≡ sub64 x s
sub64_neg x s = sym (add64_neg x s)

sub64_zero : (x : ℤ) → IsInt64 x → sub64 x (pos 0) ≡ x
unfolding sub64
sub64_zero x h = let e : x -ℤ pos 0 ≡ x = omega int_laws in rw e (wrap64_id x h)

unwind-origin :
    (v : UserAccountView) (j : ℕ)
    → Keys v
    → IsInt64 (available v j)
    → (asset_at (unwind v) j).available ≡ origin v j
unfolding unwind
unwind-origin v j keys h = elim (Option-cases (lookup j v.available_side_effects)) [
  | inl absent ↦
      let value : value_or (pos 0) j v.available_side_effects ≡ pos 0 =
        rw (absent, value_or) refl in
      transfer_all-absent neg64 v.available_side_effects v.main j absent
      ∙ sym (ap (sub64 (available v j)) value ∙ sub64_zero (available v j) h)
  | inr (x, present) ↦
      let value : value_or (pos 0) j v.available_side_effects ≡ x = rw (present, value_or) refl in
      transfer_all-present neg64 v.available_side_effects v.main j x keys.1 present
      ∙ sub64_neg (available v j) x
      ∙ sym (ap (sub64 (available v j)) value)
]

commit-outcome :
    (v : UserAccountView) (j : ℕ)
    → Keys v
    → IsInt64 (available v j)
    → (asset_at (commit v) j).available ≡ outcome v j
unfolding commit
commit-outcome v j keys h = elim (Option-cases (lookup j v.available_buffer)) [
  | inl absent ↦
      let value : value_or (pos 0) j v.available_buffer ≡ pos 0 = rw (absent, value_or) refl in
      transfer_all-absent (λ x. x) v.available_buffer v.main j absent
      ∙ sym (ap (add64 (available v j)) value ∙ add64_zero (available v j) h)
  | inr (x, present) ↦
      let value : value_or (pos 0) j v.available_buffer ≡ x = rw (present, value_or) refl in
      transfer_all-present (λ x. x) v.available_buffer v.main j x keys.0 present
      ∙ sym (ap (add64 (available v j)) value)
]

-- Where the balance of an asset is in the range of `int64_t`, unwinding a view after any calls of
-- it gives the account that balance back, and committing it leaves the balance changed by the
-- amounts of exactly the calls that succeeded.
pub commit-balance_after :
    (calls : List Call) (main : UserAccount) (j : ℕ)
    → IsInt64 (asset_at main j).available
    → let v = perform_all calls (new_view main) in
      ((asset_at (unwind v) j).available ≡ (asset_at main j).available)
      × ((asset_at (commit v) j).available
          ≡ balance_after j calls (new_view main) (asset_at main j).available)
commit-balance_after calls main j h =
    let start = new_view main in
    let v = perform_all calls start in
    let (o, u, n, i) = effects calls start j in
    let keys = Keys-perform_all calls start (tt, tt) in
    (
      unwind-origin v j keys (i h) ∙ o ∙ sub64_zero (asset_at main j).available h,
      commit-outcome v j keys (i h)
          ∙ u
          ∙ ap (balance_after j calls start) (add64_zero (asset_at main j).available h),
    )

-- No sequence of calls of a view overdraws the account: a balance that is not negative before them
-- is not negative after them, before the view is committed or unwound.
pub perform_all-nonnegative :
    (calls : List Call) (v : UserAccountView) (j : ℕ)
    → pos 0 ≤ℤ (asset_at v.main j).available
    → pos 0 ≤ℤ (asset_at (perform_all calls v).main j).available
perform_all-nonnegative calls v j h = (effects calls v j).2 h
