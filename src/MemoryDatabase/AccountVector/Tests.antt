-- ===== src/MemoryDatabase/AccountVector/Tests.antt =====
-- A vector of accounts at concrete sizes.
use speedex.Prelude.{ℕ, zero, suc, ◌<◌, ◌≡◌, refl, some, [], ◌∷◌, arith}
use speedex.MemoryDatabase.UserAccount.{UserAccount, new_account}
use speedex.MemoryDatabase.AccountVector.{
  accounts_per_row, AccountVector, new_vector, emplace_back, erase, resize, get, put_row, append,
}
use speedex.MemoryDatabase.AccountVector.Append.{Holds, emplace_back-Holds}
use speedex.MemoryDatabase.AccountVector.Erase.{erase-Holds}
use speedex.MemoryDatabase.AccountVector.Resize.{Counted, resize-Counted}

abbrev three : UserAccount
three = new_account 3 30

abbrev four : UserAccount
four = new_account 4 40

new_vector-Holds : Holds new_vector []
new_vector-Holds = (
  (omega arith, omega arith, (λ i h. absurd (omega arith)), active_new),
  refl,
  refl,
  λ i h. absurd (omega arith),
)
  where
    active_new :
        (i : ℕ) → 0 < i → speedex.MemoryDatabase.AccountVector.Rows.active new_vector.accounts i ≡ 0
    active_new zero h = absurd (omega arith)
    active_new (suc i) h = refl

with_three : (v : AccountVector) × (emplace_back new_vector three ≡ some v) × Holds v (three ∷ [])
with_three = emplace_back-Holds new_vector [] three new_vector-Holds

emplace_back-Holds_example :
    (v : AccountVector) × (emplace_back with_three.0 four ≡ some v) × Holds v (three ∷ four ∷ [])
emplace_back-Holds_example = emplace_back-Holds with_three.0 (three ∷ []) four with_three.2

erase-Holds_example : (v : AccountVector) × (erase with_three.0 1 ≡ some v) × Holds v []
erase-Holds_example =
    erase-Holds with_three.0 [] (three ∷ []) with_three.2 (omega (arith, with_three.2))

resize-Counted_example :
    (v : AccountVector) × (resize 3 new_vector 3 ≡ some v)
    × Counted v
    × (v.size ≡ 3)
    × ((i : ℕ) → i < 0 → get v i ≡ get new_vector i)
resize-Counted_example =
    resize-Counted 3 new_vector 3 (new_vector-Holds.0, refl) (omega arith) (omega arith)

-- The entry of a vector that has one account.
three_found : get with_three.0 0 ≡ some three
three_found = with_three.2.3 0 (omega arith)
