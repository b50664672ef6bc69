-- ===== src/Prelude/Dict.antt =====
-- A `std::map` or `std::unordered_map` with integer keys, as an association list in which a key
-- stands once. The source only looks up, inserts, erases and walks through all entries.
use speedex.Prelude.Tests.{◌==◌, if◌then◌else◌}
use Prim.Native.Nat.{ℕ}
use mathlib.Core.Path.{◌≡◌, refl}
use mathlib.Core.Logic.{◌≢◌}
use mathlib.Core.Bool.{Bool, true, false}
use mathlib.Core.Option.{Option, none, some}
use mathlib.Core.List.{List, [], ◌∷◌}
use native.Mathlib.Omega.{arith}

abbrev pub Dict {ℓ} : Type ℓ → Type ℓ
Dict V = List (ℕ × V)

module _ {ℓ} {V : Type ℓ} where
  abbrev pub lookup : ℕ → Dict V → Option V
  lookup k [] = none
  lookup k ((j, v) ∷ d) = if j == k then some v else lookup k d

  abbrev pub contains : ℕ → Dict V → Bool
  contains k d = elim (lookup k d) [ none ↦ false | some _ ↦ true ]

  -- The value at a key, or the one that `operator[]` makes for a missing key.
  abbrev pub value_or : V → ℕ → Dict V → V
  value_or z k d = elim (lookup k d) [ none ↦ z | some v ↦ v ]

  abbrev pub insert : ℕ → V → Dict V → Dict V
  insert k v [] = (k, v) ∷ []
  insert k v ((j, w) ∷ d) = if j == k then (k, v) ∷ d else (j, w) ∷ insert k v d

  abbrev pub erase : ℕ → Dict V → Dict V
  erase k [] = []
  erase k ((j, w) ∷ d) = if j == k then d else (j, w) ∷ erase k d

  -- No key stands twice.
  abbrev pub HasKeysOnce : Dict V → Type ℓ
  HasKeysOnce [] = Unit
  HasKeysOnce ((k, v) ∷ d) = (lookup k d ≡ none) × HasKeysOnce d

  pub lookup-insert :
      (k j : ℕ) (v : V) (d : Dict V)
      → lookup j (insert k v d) ≡ (if k == j then some v else lookup j d)
  lookup-insert k j v [] = refl
  lookup-insert k j v ((i, w) ∷ d) = ground (arith, lookup-insert k j v d)

  pub lookup-insert_self : (k : ℕ) (v : V) (d : Dict V) → lookup k (insert k v d) ≡ some v
  lookup-insert_self k v d = ground (arith, lookup-insert k k v d)

  pub lookup-insert_ne :
      (k j : ℕ) (v : V) (d : Dict V) → k ≢ j → lookup j (insert k v d) ≡ lookup j d
  lookup-insert_ne k j v d h = ground (arith, lookup-insert k j v d)

  pub value_or-insert :
      (z : V) (k j : ℕ) (v : V) (d : Dict V)
      → value_or z j (insert k v d) ≡ (if k == j then v else value_or z j d)
  value_or-insert z k j v d = ground (arith, lookup-insert k j v d)

  pub insert-HasKeysOnce : (k : ℕ) (v : V) (d : Dict V) → HasKeysOnce d → HasKeysOnce (insert k v d)
  insert-HasKeysOnce k v [] h = (refl, tt)
  insert-HasKeysOnce k v ((i, w) ∷ d) h =
      ground (arith, insert-HasKeysOnce k v d h.1, lookup-insert k i v d)

  pub lookup-erase :
      (k j : ℕ) (d : Dict V)
      → HasKeysOnce d
      → lookup j (erase k d) ≡ (if k == j then none else lookup j d)
  lookup-erase k j [] h = ground arith
  lookup-erase k j ((i, w) ∷ d) h = ground (arith, lookup-erase k j d h.1)
