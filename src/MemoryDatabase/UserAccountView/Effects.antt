-- ===== src/MemoryDatabase/UserAccountView/Effects.antt =====
-- What each operation of a view does to an asset's balance, as it will be if the transaction
-- commits, and as it will be if the transaction is unwound.
use speedex.Prelude.{
  ℕ, ◌≡◌, refl, ap, sym, ◌∙◌, Bool, true, false, if◌then◌else◌, ◌==◌, ◌&&◌, ==_iff, Bool-cases, inl,
  inr, arith,
}
use speedex.Prelude.Int.{
  ℤ, pos, ◌+ℤ◌, ◌-ℤ◌, ltb_ℤ, ◌≤ℤ◌, IsInt64, wrap64_id, wrap64-IsInt64, wrap64-add, add64, sub64,
  neg64, int_laws,
}
use speedex.Prelude.Int.Wrapping.{wrap64-sub, wrap64-sub_right, wrap64-add_right}
use speedex.Prelude.Dict.{value_or, insert, value_or-insert}
use speedex.Types.{is_success, TransactionProcessingStatus, success}
use speedex.MemoryDatabase.UserAccount.{UserAccount}
use speedex.MemoryDatabase.UserAccount
use speedex.MemoryDatabase.UserAccount.Assets.{asset_at}
use speedex.MemoryDatabase.UserAccountView.{
  UserAccountView, draw, conditional_escrow, transfer_available,
}
use speedex.MemoryDatabase.UserAccountView.Withdrawals.{
  Withdrawn, conditional_transfer_available-Withdrawn, conditional_escrow-Withdrawn,
}

abbrev pub available : UserAccountView → ℕ → ℤ
available v j = (asset_at v.main j).available

-- The balance after unwinding.
abbrev pub origin : UserAccountView → ℕ → ℤ
origin v j = sub64 (available v j) (value_or (pos 0) j v.available_side_effects)

-- The balance after committing.
abbrev pub outcome : UserAccountView → ℕ → ℤ
outcome v j = add64 (available v j) (value_or (pos 0) j v.available_buffer)

abbrev pub Effect : UserAccountView → ℕ → ℤ → UserAccountView × TransactionProcessingStatus → Type 0
Effect v asset change (v', status) =
    (j : ℕ)
    → (origin v' j ≡ origin v j)
      × (outcome v' j
          ≡ (if is_success status && (j == asset) then add64 (outcome v j) change else outcome v j))
      × (pos 0 ≤ℤ available v j → pos 0 ≤ℤ available v' j)
      × (IsInt64 (available v j) → IsInt64 (available v' j))

add64_move : (x b d : ℤ) → add64 x (add64 b d) ≡ add64 (add64 x b) d
unfolding add64
add64_move x b d =
    let e : x +ℤ (b +ℤ d) ≡ x +ℤ b +ℤ d = omega int_laws in rw (wrap64-add, wrap64-add_right, e)

pub add64_zero : (x : ℤ) → IsInt64 x → add64 x (pos 0) ≡ x
unfolding add64
add64_zero x h = let e : x +ℤ pos 0 ≡ x = omega int_laws in rw e (wrap64_id x h)

add64_taken : (x b d : ℤ) → add64 (add64 x (add64 b d)) (pos 0) ≡ add64 (add64 x b) d
add64_taken x b d =
    add64_zero (add64 x (add64 b d)) (unfold add64 in wrap64-IsInt64 _) ∙ add64_move x b d

sub64_taken : (x s n : ℤ) → sub64 (add64 x n) (add64 s n) ≡ sub64 x s
unfolding add64 sub64
sub64_taken x s n =
    let e : x +ℤ n -ℤ (s +ℤ n) ≡ x -ℤ s = omega int_laws in rw (wrap64-sub, wrap64-sub_right, e)

pub add64_neg : (b d : ℤ) → sub64 b d ≡ add64 b (neg64 d)
unfolding add64 sub64 neg64
add64_neg b d = let e : b +ℤ (pos 0 -ℤ d) ≡ b -ℤ d = omega int_laws in rw (wrap64-add_right, e)

Effect-buffered :
    (v : UserAccountView) (asset : ℕ) (change : ℤ)
    → let new_buffer = add64 (value_or (pos 0) asset v.available_buffer) change in
      Effect v asset change
        (record v { available_buffer = insert asset new_buffer v.available_buffer }, success)
Effect-buffered v asset change =
    let new_buffer = add64 (value_or (pos 0) asset v.available_buffer) change in
    λ j. elim (Bool-cases (j == asset)) [
      | inl here ↦
          let key : j ≡ asset = (==_iff j asset).0 here in
          let there : (asset == j) ≡ true = ground arith in
          rw (value_or-insert (pos 0) asset j new_buffer v.available_buffer, here, there, key)
            (refl, add64_move _ _ _, λ h. h, λ h. h)
      | inr other ↦
          let there : (asset == j) ≡ false = ground arith in
          rw (value_or-insert (pos 0) asset j new_buffer v.available_buffer, other, there)
            (refl, refl, λ h. h, λ h. h)
    ]

Effect-draw :
    (v : UserAccountView) (asset : ℕ) (change : ℤ) (r : UserAccount × Bool)
    → let new_buffer = add64 (value_or (pos 0) asset v.available_buffer) change in
      Withdrawn v.main asset new_buffer r → Effect v asset change (draw v asset new_buffer r)
Effect-draw v asset change (main, false) withdrawn =
    let buffered = value_or (pos 0) asset v.available_buffer in
    λ j. elim (Bool-cases (j == asset)) [
      | inl here ↦
          let key : j ≡ asset = (==_iff j asset).0 here in
          let there : (asset == j) ≡ true = ground arith in
          (
            rw (withdrawn j) refl,
            rw (value_or-insert (pos 0) asset j buffered v.available_buffer, withdrawn j, there)
                (ap (λ k. add64 (available v j) (value_or (pos 0) k v.available_buffer)) (sym key)),
            rw (withdrawn j) (λ h. h),
            rw (withdrawn j) (λ h. h),
          )
      | inr other ↦
          let there : (asset == j) ≡ false = ground arith in
          rw (value_or-insert (pos 0) asset j buffered v.available_buffer, withdrawn j, there)
            (refl, refl, λ h. h, λ h. h)
    ]
Effect-draw v asset change (main, true) withdrawn =
    let buffered = value_or (pos 0) asset v.available_buffer in
    let effects = value_or (pos 0) asset v.available_side_effects in
    let new_buffer = add64 buffered change in
    λ j. elim (Bool-cases (j == asset)) [
      | inl here ↦
          let key : j ≡ asset = (==_iff j asset).0 here in
          let there : (asset == j) ≡ true = ground arith in
          let low = (withdrawn j).1 in
          (
            rw
                (
                  value_or-insert (pos 0) asset j (add64 effects new_buffer)
                      v.available_side_effects,
                  (withdrawn j).0,
                  here,
                  there,
                  key,
                )
                (sub64_taken _ _ _),
            rw
                (
                  value_or-insert (pos 0) asset j (pos 0) v.available_buffer,
                  (withdrawn j).0,
                  here,
                  there,
                  key,
                )
                (add64_taken _ _ _),
            low,
            rw ((withdrawn j).0, here) (λ h. unfold add64 in wrap64-IsInt64 _),
          )
      | inr other ↦
          let there : (asset == j) ≡ false = ground arith in
          let low = (withdrawn j).1 in
          (
            rw
                (
                  value_or-insert (pos 0) asset j (add64 effects new_buffer)
                      v.available_side_effects,
                  (withdrawn j).0,
                  other,
                  there,
                )
                refl,
            rw
                (
                  value_or-insert (pos 0) asset j (pos 0) v.available_buffer,
                  (withdrawn j).0,
                  other,
                  there,
                )
                refl,
            low,
            rw ((withdrawn j).0, other) (λ h. h),
          )
    ]

-- Receiving or spending an amount leaves what unwinding restores as it is. It changes what
-- committing leaves by the amount if it succeeds and by nothing if it is refused, of that asset
-- alone, and no balance falls below 0 that was not.
pub transfer_available-Effect :
    (v : UserAccountView) (asset : ℕ) (amount : ℤ)
    → Effect v asset amount (transfer_available v asset amount)
unfolding transfer_available
transfer_available-Effect v asset amount =
    let new_buffer = add64 (value_or (pos 0) asset v.available_buffer) amount in
    elim (Bool-cases (ltb_ℤ new_buffer (pos 0))) [
      | inl short ↦ rw short (
          Effect-draw v asset amount
            (UserAccount.conditional_transfer_available v.main asset new_buffer)
            (conditional_transfer_available-Withdrawn v.main asset new_buffer short))
      | inr covered ↦ rw covered (Effect-buffered v asset amount)
    ]

-- Escrowing an amount, or freeing a negative one, takes it from what committing leaves if it
-- succeeds, in the same way.
pub conditional_escrow-Effect :
    (v : UserAccountView) (asset : ℕ) (amount : ℤ)
    → Effect v asset (neg64 amount) (conditional_escrow v asset amount)
unfolding conditional_escrow
conditional_escrow-Effect v asset amount =
    let buffered = value_or (pos 0) asset v.available_buffer in
    let new_buffer = add64 buffered (neg64 amount) in
    let fits : IsInt64 new_buffer = unfold add64 in wrap64-IsInt64 _ in
    rw (add64_neg buffered amount) (elim (Bool-cases (ltb_ℤ amount (pos 0))) [
      | inl frees ↦ rw frees (Effect-buffered v asset (neg64 amount))
      | inr takes ↦ rw takes (elim (Bool-cases (ltb_ℤ new_buffer (pos 0))) [
        | inl short ↦ rw short (
            Effect-draw v asset (neg64 amount)
              (UserAccount.conditional_escrow v.main asset (neg64 new_buffer))
              (conditional_escrow-Withdrawn v.main asset new_buffer fits short))
        | inr covered ↦ rw covered (Effect-buffered v asset (neg64 amount))
      ])
    ])
