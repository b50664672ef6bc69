-- ===== src/MemoryDatabase/RevertableAsset/Concurrent.antt =====
-- The compare-and-swap loop of `conditional_transfer_available`, and of `conditional_escrow`
-- which calls it, under any interleaving of threads (memory_database/revertable_asset.h). A thread
-- loads the amount, and its weak compare-and-swap stores the new amount only if the shared amount
-- is still the loaded one; it may fail for any reason, and the loop then loads again. Credits of
-- other threads (`fetch_add`) may come in between; `credit` bounds them, as the comment on
-- overflows in that file does. `applied` is a record for the proofs of the amounts that went through.
use speedex.Prelude.{
  ℕ, ◌≡◌, refl, Bool, true, false, some, none, List, [], ◌∷◌, ◌==◌, if◌then◌else◌, inl, inr,
  Bool-cases, sym, ap, subst, ◌∙◌,
}
use mathlib.Core.Path.{◌≡⟨◌⟩◌, ◌∎}
use speedex.Prelude.Int.{ℤ, pos, ◌+ℤ◌, ◌≤ℤ◌, IsInt64, int64_max, int_laws}
use speedex.MemoryDatabase.RevertableAsset.{tentative}
use speedex.MemoryDatabase.RevertableAsset.Laws.{tentative_lem}

-- Where a thread stands in the loop, with its amount and the value that it loaded.
pub data Thread : Type 0 where
  idle : Thread
  trying : ℤ → Thread
  loaded : ℤ → ℤ → Thread
  finished : ℤ → Bool → Thread

pub record Shared : Type 0 where
  pub available : ℤ
  pub threads : ℕ → Thread
  pub applied : List ℤ

abbrev pub at : (ℕ → Thread) → ℕ → Thread → ℕ → Thread
at f t x u = if t == u then x else f u

pub data Step (s u : Shared) : Type 0 where
  begin :
      (t : ℕ) (amount : ℤ)
      → IsInt64 amount
      → amount ≤ℤ pos 0
      → s.threads t ≡ idle
      → u ≡ record s { threads = at s.threads t (trying amount) }
      → Step s u
  load :
      (t : ℕ) (amount : ℤ)
      → s.threads t ≡ trying amount
      → u ≡ record s { threads = at s.threads t (loaded amount s.available) }
      → Step s u
  refuse :
      (t : ℕ) (amount v : ℤ)
      → s.threads t ≡ loaded amount v
      → tentative v amount ≡ none
      → u ≡ record s { threads = at s.threads t (finished amount false) }
      → Step s u
  swap :
      (t : ℕ) (amount v w : ℤ)
      → s.threads t ≡ loaded amount v
      → tentative v amount ≡ some w
      → s.available ≡ v
      → u ≡ record {
        available = w;
        threads = at s.threads t (finished amount true);
        applied = amount ∷ s.applied;
      }
      → Step s u
  retry :
      (t : ℕ) (amount v w : ℤ)
      → s.threads t ≡ loaded amount v
      → tentative v amount ≡ some w
      → u ≡ record s { threads = at s.threads t (trying amount) }
      → Step s u
  credit :
      (amount : ℤ)
      → pos 0 ≤ℤ amount
      → s.available +ℤ amount ≤ℤ int64_max
      → u ≡ record s { available = s.available +ℤ amount; applied = amount ∷ s.applied }
      → Step s u

pub data Reach (s : Shared) : Shared → Type 0 where
  here : Reach s s
  next : {t u : Shared} → Reach s t → Step t u → Reach s u

abbrev pub total : List ℤ → ℤ
total [] = pos 0
total (x ∷ xs) = x +ℤ total xs

abbrev HasGoodAmount : Thread → Type 0
HasGoodAmount idle = Unit
HasGoodAmount (trying x) = IsInt64 x × (x ≤ℤ pos 0)
HasGoodAmount (loaded x v) = IsInt64 x × (x ≤ℤ pos 0)
HasGoodAmount (finished x b) = Unit

record Inv (start : ℤ) (s : Shared) : Type 0 where
  in_range : IsInt64 s.available
  nonneg : pos 0 ≤ℤ s.available
  accounted : s.available ≡ start +ℤ total s.applied
  amounts : (t : ℕ) → HasGoodAmount (s.threads t)

at-HasGoodAmount :
    (f : ℕ → Thread) (t : ℕ) (x : Thread)
    → HasGoodAmount x
    → ((u : ℕ) → HasGoodAmount (f u))
    → (u : ℕ) → HasGoodAmount (at f t x u)
at-HasGoodAmount f t x hx hf u = elim (Bool-cases (t == u)) [
  | inl same ↦ rw same hx
  | inr other ↦ rw other (hf u)
]

-- A swap stores the exact sum, which is not negative.
swap-exact :
    (amount v w : ℤ)
    → IsInt64 amount × (amount ≤ℤ pos 0)
    → IsInt64 v
    → pos 0 ≤ℤ v
    → tentative v amount ≡ some w
    → (w ≡ v +ℤ amount) × (pos 0 ≤ℤ w) × IsInt64 w
swap-exact amount v w ha hv nonneg e = elim (tentative_lem v amount ha.0 ha.1 hv nonneg) [
  | inl (fits, e') ↦ let same : w ≡ v +ℤ amount = cc in rw same (refl, fits, omega int_laws)
  | inr (_, e') ↦ cc
]

Step-Inv : {start : ℤ} {s u : Shared} → Step s u → Inv start s → Inv start u
Step-Inv {start} {s} (begin t amount ha hn e eu) i = rw eu (record {
  in_range = i.in_range;
  nonneg = i.nonneg;
  accounted = i.accounted;
  amounts = at-HasGoodAmount s.threads t (trying amount) (ha, hn) i.amounts;
})
Step-Inv {start} {s} (load t amount e eu) i = rw eu (record {
  in_range = i.in_range;
  nonneg = i.nonneg;
  accounted = i.accounted;
  amounts =
      at-HasGoodAmount s.threads t (loaded amount s.available) (subst HasGoodAmount e (i.amounts t))
        i.amounts;
})
Step-Inv {start} {s} (refuse t amount v e et eu) i = rw eu (record {
  in_range = i.in_range;
  nonneg = i.nonneg;
  accounted = i.accounted;
  amounts = at-HasGoodAmount s.threads t (finished amount false) tt i.amounts;
})
Step-Inv {start} {s} (swap t amount v w e et ev eu) i =
    let exact =
      swap-exact amount v w (subst HasGoodAmount e (i.amounts t)) (subst IsInt64 ev i.in_range)
        (subst (λ x. pos 0 ≤ℤ x) ev i.nonneg) et in
    rw eu (record {
      in_range = exact.2;
      nonneg = exact.1;
      accounted =
          w
          ≡⟨ exact.0 ⟩ v +ℤ amount
          ≡⟨ ap (λ x. x +ℤ amount) (sym ev ∙ i.accounted) ⟩ start +ℤ total s.applied +ℤ amount
          ≡⟨ omega int_laws ⟩ start +ℤ (amount +ℤ total s.applied) ∎;
      amounts = at-HasGoodAmount s.threads t (finished amount true) tt i.amounts;
    })
Step-Inv {start} {s} (retry t amount v w e et eu) i = rw eu (record {
  in_range = i.in_range;
  nonneg = i.nonneg;
  accounted = i.accounted;
  amounts =
      at-HasGoodAmount s.threads t (trying amount) (subst HasGoodAmount e (i.amounts t)) i.amounts;
})
Step-Inv {start} {s} (credit amount hn hm eu) i = rw eu (record {
  in_range = omega int_laws;
  nonneg = omega int_laws;
  accounted =
      s.available +ℤ amount
      ≡⟨ ap (λ x. x +ℤ amount) i.accounted ⟩ start +ℤ total s.applied +ℤ amount
      ≡⟨ omega int_laws ⟩ start +ℤ (amount +ℤ total s.applied) ∎;
  amounts = i.amounts;
})

Reach-Inv : {start : ℤ} {s u : Shared} → Reach s u → Inv start s → Inv start u
Reach-Inv here i = i
Reach-Inv (next r st) i = Step-Inv st (Reach-Inv r i)

abbrev pub idle_at : ℤ → Shared
idle_at start = record { available = start; threads = λ t. idle; applied = [] }

-- From a nonnegative `int64_t` amount with no call under way, whatever way the loops of any
-- number of threads are interleaved with one another and with credits that fit, the amount is
-- never negative, and it is the start plus the amounts of exactly the calls that went through and
-- the credits.
pub Reach-accounted :
    (start : ℤ) (s : Shared)
    → IsInt64 start
    → pos 0 ≤ℤ start
    → Reach (idle_at start) s
    → (pos 0 ≤ℤ s.available) × (s.available ≡ start +ℤ total s.applied)
Reach-accounted start s h nonneg r =
    let i : Inv start s =
      Reach-Inv r
        (record { in_range = h; nonneg = nonneg; accounted = omega int_laws; amounts = λ t. tt }) in
    (i.nonneg, i.accounted)
