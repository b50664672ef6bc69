-- ===== src/Filtering/AccountFilterEntry/Owes.antt =====
-- The requirements that the filter adds up, against a direct sum over the transactions.
use speedex.Prelude.{
  ℕ, ◌+◌, ◌<◌, ◌^◌, ◌≡◌, true, false, if◌then◌else◌, ltb, ◌==◌, not, Option, none, some, List, [],
  ◌∷◌, Bool-cases, inl, inr, arith, sym, ◌∙◌, ap, All, subst, fun_ext,
}
use speedex.Prelude.Int.{ℤ, pos, negsuc, pos_part, ◌+ℤ◌, ltb_ℤ, IsInt64, add64, int64_max, wrap64}
use speedex.Prelude.Dict.{Dict, value_or, insert, value_or-insert}
use speedex.Types.{
  native_asset, Operation, create_account, create_sell_offer, cancel_sell_offer, payment,
  money_printer, unknown, SignedTransaction,
}
use speedex.MemoryDatabase.RevertableAsset.{add_overflows}
use speedex.Filtering.AccountCreationFilter.{AccountCreationFilter}
use speedex.Filtering.AccountFilterEntry.{
  AccountFilterEntry, found_error, add_req, add_cancel_id, has_id, log_double_cancel, add_op,
  add_ops, add_all,
}

-- The amount, if it is of asset `a`.
abbrev pub if_asset : ℕ → ℕ → ℤ → ℕ
if_asset a asset amount = if asset == a then pos_part amount else 0

-- What an operation takes from its account of asset `a`.
abbrev pub op_needs : ℕ → Operation → ℕ
op_needs a (create_account op) = if_asset a native_asset op.starting_balance
op_needs a (create_sell_offer op) = if_asset a op.category.sell_asset op.amount
op_needs a (cancel_sell_offer op) = 0
op_needs a (payment op) = if_asset a op.asset op.amount
op_needs a (money_printer op) = 0
op_needs a (unknown tag) = 0

abbrev pub ops_need : ℕ → List Operation → ℕ
ops_need a [] = 0
ops_need a (op ∷ ops) = op_needs a op + ops_need a ops

-- What the transactions take of asset `a`, with their fees.
abbrev pub needs : ℕ → Dict SignedTransaction → ℕ
needs a [] = 0
needs a ((n, tx) ∷ txs) =
    ops_need a tx.transaction.operations
    + if_asset a native_asset (pos tx.transaction.max_fee)
    + needs a txs

-- Unless an error was found, the requirements are the sums `f`, which fit an `int64_t`.
unfoldable pub Owes : AccountFilterEntry → (ℕ → ℕ) → Type 0
Owes e f =
    found_error e ≡ false
    → (a : ℕ) → (value_or (pos 0) a e.required_assets ≡ pos (f a)) × (f a < 2 ^ 63)

-- The amounts are `int64_t`, as in the XDR.
abbrev pub OpInRange : Operation → Type 0
OpInRange (create_account op) = IsInt64 op.starting_balance
OpInRange (create_sell_offer op) = IsInt64 op.amount
OpInRange (cancel_sell_offer op) = Unit
OpInRange (payment op) = IsInt64 op.amount
OpInRange (money_printer op) = Unit
OpInRange (unknown tag) = Unit

add_overflows_lem :
    (n m : ℕ) → n < 2 ^ 63 → m < 2 ^ 63 → add_overflows (pos n) (pos m) ≡ not (ltb (n + m) (2 ^ 63))
unfolding add_overflows add64 wrap64 ◌+ℤ◌
add_overflows_lem n m hn hm = ground arith

add64-pos : (m n : ℕ) → n + m < 2 ^ 63 → add64 (pos m) (pos n) ≡ pos (m + n)
unfolding add64 wrap64 ◌+ℤ◌
add64-pos m n h = ground arith

-- An amount that is not negative, where no error was found yet.
add_req_at :
    (e : AccountFilterEntry) (asset n m : ℕ)
    → found_error e ≡ false
    → n < 2 ^ 63
    → m < 2 ^ 63
    → value_or (pos 0) asset e.required_assets ≡ pos m
    → add_req e asset (pos n) ≡ (
        if not (ltb (n + m) (2 ^ 63))
        then record e {
          required_assets = insert asset int64_max e.required_assets;
          overflow_req = true;
        }
        else record e { required_assets = insert asset (add64 (pos m) (pos n)) e.required_assets })
unfolding add_req
add_req_at e asset n m ok hn hm r =
    let nonneg : ltb_ℤ (pos n) (pos 0) ≡ false = ground arith in
    rw (nonneg, ok, r, add_overflows_lem n m hn hm)

overflow-found :
    (e : AccountFilterEntry) (r : Dict ℤ)
    → found_error (record e { required_assets = r; overflow_req = true }) ≡ true
unfolding found_error
overflow-found e r = ground arith

skips : (e : AccountFilterEntry) (asset n : ℕ) → add_req e asset (negsuc n) ≡ e
unfolding add_req
skips e asset n = ground arith

stops : (e : AccountFilterEntry) (asset n : ℕ) → found_error e ≡ true → add_req e asset (pos n) ≡ e
unfolding add_req
stops e asset n bad = let nonneg : ltb_ℤ (pos n) (pos 0) ≡ false = ground arith in rw (nonneg, bad)

pub true≢false : ¬ (true ≡ false)
true≢false q = ground (arith, q)

add_req-Owes :
    (e : AccountFilterEntry) (f : ℕ → ℕ) (asset : ℕ) (amount : ℤ)
    → IsInt64 amount
    → Owes e f
    → Owes (add_req e asset amount) (λ a. f a + if_asset a asset amount)
unfolding Owes
add_req-Owes e f asset (negsuc n) h owes = rw (skips e asset n) (λ ok a. ground (arith, owes ok a))
add_req-Owes e f asset (pos n) h owes = elim (Bool-cases (found_error e)) [
  | inl bad ↦ rw (stops e asset n bad) (λ ok. absurd (true≢false (sym bad ∙ ok)))
  | inr good ↦ elim (Bool-cases (ltb (n + f asset) (2 ^ 63))) [
    | inl fits ↦
        rw
          (
            add_req_at e asset n (f asset) good (omega arith) (owes good asset).1
                (owes good asset).0,
            fits,
            add64-pos (f asset) n (ground arith),
          )
          (λ ok a. (
            rw (value_or-insert (pos 0) asset a (pos (f asset + n)) e.required_assets) ground
                (arith, owes good a, same_sum asset a),
            ground (arith, owes good a, same_sum asset a),
          ))
    | inr over ↦
        rw
          (
            add_req_at e asset n (f asset) good (omega arith) (owes good asset).1
                (owes good asset).0,
            over,
          )
          (λ ok.
            absurd
              (true≢false (sym (overflow-found e (insert asset int64_max e.required_assets)) ∙ ok)))
  ]
]
  where
    same_sum : (x y : ℕ) → x ≡ y → f x ≡ f y
    same_sum x y q = ap f q

cancel-found : (e : AccountFilterEntry) → found_error (log_double_cancel e) ≡ true
unfolding found_error
cancel-found e = ground arith

add_cancel_id-Owes :
    (e : AccountFilterEntry) (f : ℕ → ℕ) (id : ℕ)
    → Owes e f
    → Owes (add_cancel_id e id) (λ a. f a + 0)
unfolding Owes add_cancel_id
add_cancel_id-Owes e f id owes = elim (Bool-cases (has_id id e.consumed_cancel_ids)) [
  | inl known ↦ rw known (λ ok. absurd (true≢false (sym (cancel-found e) ∙ ok)))
  | inr new ↦ rw new (unfold found_error in λ ok a. ground (arith, owes ok a))
]

-- The same of a result, where there is one.
unfoldable pub OwesAfter : Option (AccountFilterEntry × AccountCreationFilter) → (ℕ → ℕ) → Type 0
OwesAfter none f = Unit
OwesAfter (some (e, accounts)) f = Owes e f

OwesAfter-elim :
    (r : Option (AccountFilterEntry × AccountCreationFilter)) (f g : ℕ → ℕ)
    (k : AccountFilterEntry
      → AccountCreationFilter
      → Option (AccountFilterEntry × AccountCreationFilter))
    → OwesAfter r f
    → ((e : AccountFilterEntry) (accounts : AccountCreationFilter)
        → Owes e f
        → OwesAfter (k e accounts) g)
    → OwesAfter (elim r [ none ↦ none | some (e, accounts) ↦ k e accounts ]) g
unfolding OwesAfter
OwesAfter-elim none f g k owes next = tt
OwesAfter-elim (some (e, accounts)) f g k owes next = next e accounts owes

add_op-Owes :
    (op : Operation) (e : AccountFilterEntry) (accounts : AccountCreationFilter) (f : ℕ → ℕ)
    → OpInRange op
    → Owes e f
    → OwesAfter (add_op op e accounts) (λ a. f a + op_needs a op)
unfolding OwesAfter add_op
add_op-Owes (create_account op) e accounts f h owes =
    add_req-Owes e f native_asset op.starting_balance h owes
add_op-Owes (create_sell_offer op) e accounts f h owes =
    add_req-Owes e f op.category.sell_asset op.amount h owes
add_op-Owes (cancel_sell_offer op) e accounts f h owes = add_cancel_id-Owes e f op.offer_id owes
add_op-Owes (payment op) e accounts f h owes = add_req-Owes e f op.asset op.amount h owes
add_op-Owes (money_printer op) e accounts f h owes =
    subst (Owes e) (fun_ext (λ a. omega arith)) owes
add_op-Owes (unknown tag) e accounts f h owes = tt

add_ops-Owes :
    (ops : List Operation) (e : AccountFilterEntry) (accounts : AccountCreationFilter) (f : ℕ → ℕ)
    → All OpInRange ops
    → Owes e f
    → OwesAfter (add_ops ops e accounts) (λ a. f a + ops_need a ops)
unfolding add_ops
add_ops-Owes [] e accounts f h owes =
    unfold OwesAfter in subst (Owes e) (fun_ext (λ a. omega arith)) owes
add_ops-Owes (op ∷ ops) e accounts f (h, hs) owes =
    OwesAfter-elim (add_op op e accounts) (λ a. f a + op_needs a op) _ (add_ops ops)
      (add_op-Owes op e accounts f h owes)
      (λ e' accounts' owes'.
        subst (OwesAfter (add_ops ops e' accounts')) (fun_ext (λ a. omega arith))
          (add_ops-Owes ops e' accounts' (λ a. f a + op_needs a op) hs owes'))

-- Amounts are `int64_t` and fees `uint32_t`, as in the XDR.
abbrev pub InRange : Dict SignedTransaction → Type 0
InRange [] = Unit
InRange ((n, tx) ∷ txs) =
    All OpInRange tx.transaction.operations × (tx.transaction.max_fee < 2 ^ 32) × InRange txs

pub add_all-Owes :
    (txs : Dict SignedTransaction) (e : AccountFilterEntry) (accounts : AccountCreationFilter)
    (f : ℕ → ℕ)
    → InRange txs
    → Owes e f
    → OwesAfter (add_all txs e accounts) (λ a. f a + needs a txs)
unfolding add_all
add_all-Owes [] e accounts f h owes =
    unfold OwesAfter in subst (Owes e) (fun_ext (λ a. omega arith)) owes
add_all-Owes ((n, tx) ∷ txs) e accounts f (h, fee, hs) owes =
    let ops = tx.transaction.operations in
    let paid = λ (e' : AccountFilterEntry). add_req e' native_asset (pos tx.transaction.max_fee) in
    OwesAfter-elim (add_ops ops e accounts) (λ a. f a + ops_need a ops) _
      (λ e' accounts'. add_all txs (paid e') accounts') (add_ops-Owes ops e accounts f h owes)
      (λ e' accounts' owes'.
        subst (OwesAfter (add_all txs (paid e') accounts')) (fun_ext (λ a. omega arith)) (
          add_all-Owes txs (paid e') accounts' _ hs (
            add_req-Owes e' _ native_asset (pos tx.transaction.max_fee) (omega arith, omega arith)
              owes')))
