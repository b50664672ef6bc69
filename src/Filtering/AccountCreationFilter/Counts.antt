-- ===== src/Filtering/AccountCreationFilter/Counts.antt =====
-- Which accounts the filter lets a block create.
use speedex.Prelude.{
  ℕ, ◌+◌, ◌%◌, ◌^◌, ◌≤◌, ◌<◌, ◌≡◌, ◌↔◌, refl, true, if◌then◌else◌, ◌==◌, none, some, List, [], ◌∷◌,
  length, arith, ap, subst, fun_ext,
}
use speedex.Prelude.Dict.{lookup, lookup-insert, value_or}
use speedex.Filtering.AccountCreationFilter.{
  AccountCreationFilter, is_valid_account_creation, log_account_creation,
}

-- The filter after a sequence of logged accounts.
unfoldable pub log_all : List ℕ → AccountCreationFilter → AccountCreationFilter
log_all [] filter = filter
log_all (src ∷ srcs) filter = log_all srcs (log_account_creation filter src)

-- How often an account stands in a list.
abbrev pub count : ℕ → List ℕ → ℕ
count account [] = 0
count account (src ∷ srcs) = (if src == account then 1 else 0) + count account srcs

Counts : AccountCreationFilter → (ℕ → ℕ) → Type 0
Counts filter f =
    (account : ℕ) → lookup account filter ≡ (if f account == 0 then none else some (f account))

log-Counts :
    (filter : AccountCreationFilter) (f : ℕ → ℕ) (src : ℕ)
    → f src + 1 < 2 ^ 32
    → Counts filter f
    → Counts (log_account_creation filter src) (λ a. f a + (if src == a then 1 else 0))
unfolding Counts log_account_creation
log-Counts filter f src h counts = λ a.
    rw (lookup-insert src a ((value_or 0 src filter + 1) % 2 ^ 32) filter)
      (ground (arith, counts a, counts src, same a))
  where
    same : (a : ℕ) → src ≡ a → f src ≡ f a
    same a q = ap f q

log_all-Counts :
    (srcs : List ℕ) (filter : AccountCreationFilter) (f : ℕ → ℕ)
    → ((a : ℕ) → f a + length srcs < 2 ^ 32)
    → Counts filter f
    → Counts (log_all srcs filter) (λ a. f a + count a srcs)
unfolding log_all
log_all-Counts [] filter f h counts = subst (Counts filter) (fun_ext (λ a. omega arith)) counts
log_all-Counts (src ∷ srcs) filter f h counts =
    subst (Counts (log_all srcs (log_account_creation filter src))) (fun_ext (λ a. omega arith)) (
      log_all-Counts srcs (log_account_creation filter src) _ (λ a. ground (arith, h a))
        (log-Counts filter f src (omega (arith, h src)) counts))

-- For fewer than 2^32 logged creations, the filter lets an account be created exactly if it was
-- logged at most once.
pub is_valid_account_creation-log_all :
    (srcs : List ℕ) (account : ℕ)
    → length srcs < 2 ^ 32
    → (is_valid_account_creation (log_all srcs []) account ≡ true) ↔ (count account srcs ≤ 1)
unfolding is_valid_account_creation
is_valid_account_creation-log_all srcs account h =
    let none_yet : Counts [] (λ a. 0) = unfold Counts in λ a. refl in
    let logged = log_all-Counts srcs [] (λ a. 0) (λ a. omega arith) none_yet in
    unfold Counts in rw (logged account, is_valid_account_creation) (ground arith)
