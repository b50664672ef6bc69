-- ===== src/Filtering/AccountFilterEntry/Required.antt =====
-- What the filter makes sure of when it accepts an account.
use speedex.Prelude.{
  ℕ, ◌<◌, ◌≡◌, refl, Bool, true, false, if◌then◌else◌, ◌==◌, not, Option, none, some, [], ◌∷◌,
  Bool-cases, Option-cases, inl, inr, arith, subst, fun_ext,
}
use speedex.Prelude.Int.{ℤ, pos, ◌≤ℤ◌, ltb_ℤ, ltb_ℤ→le}
use speedex.Prelude.Dict.{Dict, lookup, value_or}
use speedex.MemoryDatabase.UserAccount.{UserAccount, lookup_available_balance}
use speedex.Filtering.AccountCreationFilter.{AccountCreationFilter}
use speedex.Filtering.AccountFilterEntry.{
  AccountFilterEntry, found_error, log_reqs_checked, log_reqs_invalid, log_invalid_account, add_all,
  compute_reqs, covers, check_valid, compute_validity, valid_has_txs,
}
use speedex.Filtering.AccountFilterEntry.Owes.{needs, InRange, Owes, OwesAfter, add_all-Owes}

covers-lookup :
    (acc : UserAccount) (reqs : Dict ℤ) (asset : ℕ) (req : ℤ)
    → covers acc reqs ≡ true
    → lookup asset reqs ≡ some req
    → req ≤ℤ lookup_available_balance acc asset
unfolding covers
covers-lookup acc [] asset req c l = absurd (ground arith)
covers-lookup acc ((k, v) ∷ reqs) asset req c l =
    let head : ltb_ℤ (lookup_available_balance acc k) v ≡ false = ground arith in
    let rest : covers acc reqs ≡ true = ground arith in
    elim (Bool-cases (k == asset)) [
      | inl here ↦
          let key : k ≡ asset = ground arith in
          let value : v ≡ req = ground arith in
          rw (← key, ← value) (ltb_ℤ→le (lookup_available_balance acc k) v head)
      | inr other ↦
          let later : lookup asset reqs ≡ some req = ground arith in
          covers-lookup acc reqs asset req rest later
    ]

covers-value :
    (acc : UserAccount) (reqs : Dict ℤ) (asset n : ℕ)
    → covers acc reqs ≡ true
    → value_or (pos 0) asset reqs ≡ pos n
    → 0 < n
    → pos n ≤ℤ lookup_available_balance acc asset
covers-value acc reqs asset n c v positive = elim (Option-cases (lookup asset reqs)) [
  | inl missing ↦ absurd (ground (arith, v, missing))
  | inr (req, found) ↦
      let value : req ≡ pos n = ground (arith, v, found) in
      subst (λ r. r ≤ℤ lookup_available_balance acc asset) value
        (covers-lookup acc reqs asset req c found)
]

-- What a result that the filter accepts has to be.
Sound :
    (ℕ → Option UserAccount)
    → Option (AccountFilterEntry × AccountCreationFilter)
    → (ℕ → ℕ)
    → Type 0
Sound lookup_user none f = Unit
Sound lookup_user (some (e, accounts)) f =
    check_valid e ≡ some valid_has_txs
    → e.double_cancel ≡ false
    → (acc : UserAccount) × (lookup_user e.account ≡ some acc)
      × ((a : ℕ) → 0 < f a → pos (f a) ≤ℤ lookup_available_balance acc a)

valid-found :
    (e : AccountFilterEntry)
    → check_valid (log_reqs_checked e) ≡ some valid_has_txs
    → e.double_cancel ≡ false
    → found_error e ≡ false
unfolding check_valid found_error
valid-found e v d = ground arith

Sound-finish :
    (lookup_user : ℕ → Option UserAccount) (e : AccountFilterEntry)
    (accounts : AccountCreationFilter) (f : ℕ → ℕ) (found : Option UserAccount)
    → lookup_user e.account ≡ found
    → Owes e f
    → Sound lookup_user
        (elim found [
          | none ↦ some (log_invalid_account e, accounts)
          | some acc ↦ some (
            if covers acc e.required_assets then log_reqs_checked e else log_reqs_invalid e,
            accounts,
          )
        ])
        f
unfolding Sound
Sound-finish lookup_user e accounts f none q owes =
    λ v d. absurd (unfold check_valid in ground arith)
Sound-finish lookup_user e accounts f (some acc) q owes =
    elim (Bool-cases (covers acc e.required_assets)) [
      | inl ok ↦ rw ok (λ v d. (
        acc,
        q,
        λ a positive.
            covers-value acc e.required_assets a (f a) ok
              (unfold Owes in (owes (valid-found e v d) a).0) positive,
      ))
      | inr short ↦ rw short (λ v d. absurd (unfold check_valid in ground arith))
    ]

Sound-unless :
    (lookup_user : ℕ → Option UserAccount) (b : Bool)
    (r : Option (AccountFilterEntry × AccountCreationFilter)) (f : ℕ → ℕ)
    → Sound lookup_user r f
    → Sound lookup_user (if b then none else r) f
unfolding Sound
Sound-unless lookup_user true r f s = tt
Sound-unless lookup_user false r f s = s

abbrev with_reqs :
    Bool
    → Option (AccountFilterEntry × AccountCreationFilter)
    → Option (AccountFilterEntry × AccountCreationFilter)
with_reqs computed r = if computed then none else elim r [
  | none ↦ none
  | some (e, accounts) ↦ some (record e { reqs_computed = true }, accounts)
]

Sound-reqs :
    (lookup_user : ℕ → Option UserAccount) (computed : Bool)
    (r : Option (AccountFilterEntry × AccountCreationFilter)) (f : ℕ → ℕ)
    → OwesAfter r f
    → Sound lookup_user
        (elim (with_reqs computed r) [
          | none ↦ none
          | some (e, accounts) ↦ elim (lookup_user e.account) [
            | none ↦ some (log_invalid_account e, accounts)
            | some acc ↦ some (
              if covers acc e.required_assets then log_reqs_checked e else log_reqs_invalid e,
              accounts,
            )
          ]
        ])
        f
unfolding Sound OwesAfter Owes found_error
Sound-reqs lookup_user true r f owes = tt
Sound-reqs lookup_user false none f owes = tt
Sound-reqs lookup_user false (some (e, accounts)) f owes =
    Sound-finish lookup_user (record e { reqs_computed = true }) accounts f (lookup_user e.account)
      refl owes

compute_validity-Sound :
    (lookup_user : ℕ → Option UserAccount) (e : AccountFilterEntry)
    (accounts : AccountCreationFilter)
    → e.required_assets ≡ []
    → found_error e ≡ false
    → InRange e.txs
    → Sound lookup_user (compute_validity lookup_user e accounts) (λ a. needs a e.txs)
unfolding compute_validity compute_reqs
compute_validity-Sound lookup_user e accounts fresh ok range =
    let none_owed : Owes e (λ a. 0) = unfold Owes in λ q a. (rw fresh refl, omega arith) in
    Sound-unless lookup_user e.checked_reqs_cached _ _ (
      rw ok (
        Sound-unless lookup_user (not e.initialized) _ _ (
          Sound-reqs lookup_user e.reqs_computed (add_all e.txs e accounts) _ (
            subst (OwesAfter (add_all e.txs e accounts)) (fun_ext (λ a. omega arith))
              (add_all-Owes e.txs e accounts (λ a. 0) range none_owed)))))

-- Where an account starts with no requirement and no error, the amounts of its transactions are in
-- range, and the filter accepts them with no offer cancelled twice, the account exists, and of every
-- asset that the transactions and their fees take, it has available at least all that they take
-- together.
pub compute_validity-covers :
    (lookup_user : ℕ → Option UserAccount) (e e' : AccountFilterEntry)
    (accounts accounts' : AccountCreationFilter)
    → e.required_assets ≡ []
    → found_error e ≡ false
    → InRange e.txs
    → compute_validity lookup_user e accounts ≡ some (e', accounts')
    → check_valid e' ≡ some valid_has_txs
    → e'.double_cancel ≡ false
    → (acc : UserAccount) × (lookup_user e'.account ≡ some acc)
      × ((a : ℕ) → 0 < needs a e.txs → pos (needs a e.txs) ≤ℤ lookup_available_balance acc a)
compute_validity-covers lookup_user e e' accounts accounts' fresh ok range computed valid once =
    unfold Sound in
    subst (λ r. Sound lookup_user r (λ a. needs a e.txs)) computed
      (compute_validity-Sound lookup_user e accounts fresh ok range) valid once
