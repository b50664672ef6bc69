-- ===== src/ModLog/AccountModificationEntry/Sets.antt =====
-- Sets in the order of a key: what insertions and merges find, and the keys of the log's sets.
use speedex.Prelude.{
  ℕ, ◌≡◌, refl, Bool, true, false, ltb, ◌==◌, ◌||◌, ◌&&◌, Option, none, some, List, [], ◌∷◌, arith,
  Bool-cases, Option-cases, ap, inl, inr, sym, subst, ◌∙◌, not, if◌then◌else◌,
}
use speedex.Types.{TxIdentifier}
use speedex.ModLog.AccountModificationEntry.{insert_by, has_by, merge_by, identifier_less}

abbrev pub or_else {ℓ} : {A : Type ℓ} → Option A → Option A → Option A
or_else none b = b
or_else (some a) b = some a

-- Sets that are ordered by a key, whose order and equality tests fit each other.
module _ {ℓ κ} {A : Type ℓ} {K : Type κ} (lt same : K → K → Bool)
    (fits : (a b : K) → (not (lt a b) && not (lt b a)) ≡ same a b)
    (same→≡ : (a b : K) → same a b ≡ true → a ≡ b) (same_refl : (a : K) → same a a ≡ true)
    (key : A → K) where
  abbrev by_key : A → A → Bool
  by_key a b = lt (key a) (key b)

  -- Whether an entry has key `n`.
  unfoldable pub has_key : K → List A → Bool
  has_key n [] = false
  has_key n (x ∷ xs) = same (key x) n || has_key n xs

  -- The first entry with key `n`.
  unfoldable pub find_key : K → List A → Option A
  find_key n [] = none
  find_key n (x ∷ xs) = if same (key x) n then some x else find_key n xs

  -- No two entries have the same key.
  abbrev pub Distinct : List A → Type 0
  Distinct [] = Unit
  Distinct (x ∷ xs) = (has_key (key x) xs ≡ false) × Distinct xs

  pub has_key-empty : (n : K) → has_key n [] ≡ false
  unfolding has_key
  has_key-empty n = refl

  pub has_key-head : (x : A) (xs : List A) → has_key (key x) (x ∷ xs) ≡ true
  unfolding has_key
  has_key-head x xs = rw (same_refl (key x)) refl

  find_key-absent : (n : K) (xs : List A) → has_key n xs ≡ false → find_key n xs ≡ none
  unfolding has_key find_key
  find_key-absent n [] h = refl
  find_key-absent n (x ∷ xs) h =
      let other : same (key x) n ≡ false = ground (arith, h) in
      rw other (find_key-absent n xs (ground (arith, h)))

  find_key-present :
      (n : K) (xs : List A) → has_key n xs ≡ true → (x : A) × (find_key n xs ≡ some x)
  unfolding has_key find_key
  find_key-present n [] h = absurd (ground (arith, h))
  find_key-present n (x ∷ xs) h = elim (Bool-cases (same (key x) n)) [
    | inl here ↦ (x, rw here refl)
    | inr other ↦
        let (y, found) = find_key-present n xs (ground (arith, h, other)) in (y, rw other found)
  ]

  -- Neither key is less than the other one.
  level : (x y : A) → lt (key x) (key y) ≡ false → lt (key y) (key x) ≡ false → key x ≡ key y
  level x y before after =
      same→≡ (key x) (key y) (sym (fits (key x) (key y)) ∙ rw (before, after) refl)

  has_key-insert_by :
      (n : K) (x : A) (xs : List A)
      → has_key n (insert_by by_key x xs) ≡ (same (key x) n || has_key n xs)
  unfolding has_key insert_by
  has_key-insert_by n x [] = refl
  has_key-insert_by n x (y ∷ ys) =
      let rest = has_key-insert_by n x ys in
      elim (Bool-cases (lt (key x) (key y))) [
        | inl before ↦ rw before refl
        | inr late ↦ elim (Bool-cases (lt (key y) (key x))) [
          | inl after ↦ rw (late, after) (ground (arith, rest))
          | inr here ↦
              let equal = ap (λ k. same k n) (level x y late here) in
              rw (late, here) (ground (arith, equal))
        ]
      ]

  -- An insertion finds the new entry only where there was none.
  find_key-insert_by :
      (n : K) (x : A) (xs : List A)
      → find_key n xs ≡ none
      → find_key n (insert_by by_key x xs) ≡ (if same (key x) n then some x else none)
  unfolding find_key insert_by
  find_key-insert_by n x [] h = refl
  find_key-insert_by n x (y ∷ ys) h =
      let other : same (key y) n ≡ false = ground (arith, h) in
      let rest = find_key-insert_by n x ys (ground (arith, h, other)) in
      elim (Bool-cases (lt (key x) (key y))) [
        | inl before ↦ rw (before, h) refl
        | inr late ↦ elim (Bool-cases (lt (key y) (key x))) [
          | inl after ↦ rw (late, after, other) rest
          | inr here ↦
              let equal = ap (λ k. same k n) (level x y late here) in
              rw (late, here, equal, other) (ground (arith, h, other))
        ]
      ]

  find_key-insert_by_other :
      (n : K) (x : A) (xs : List A)
      → same (key x) n ≡ false
      → find_key n (insert_by by_key x xs) ≡ find_key n xs
  unfolding find_key insert_by
  find_key-insert_by_other n x [] h = rw h refl
  find_key-insert_by_other n x (y ∷ ys) h =
      let rest = find_key-insert_by_other n x ys h in
      elim (Bool-cases (lt (key x) (key y))) [
        | inl before ↦ rw (before, h) refl
        | inr late ↦ elim (Bool-cases (lt (key y) (key x))) [
          | inl after ↦ rw (late, after, rest) refl
          | inr here ↦ rw (late, here) refl
        ]
      ]

  has_by-has_key : (x : A) (xs : List A) → has_by by_key x xs ≡ has_key (key x) xs
  unfolding has_key has_by
  has_by-has_key x [] = refl
  has_by-has_key x (y ∷ ys) =
      let there = fits (key y) (key x) in ground (arith, there, has_by-has_key x ys)

  pub has_key-merge_by :
      (n : K) (xs ys : List A)
      → let (merged, left) = merge_by by_key xs ys in
        (has_key n merged ≡ (has_key n xs || has_key n ys))
        × (has_key n left ≡ (has_key n xs && has_key n ys))
  unfolding merge_by has_key
  has_key-merge_by n xs [] = (ground arith, ground arith)
  has_key-merge_by n xs (y ∷ ys) =
      let (joined, kept) = has_key-merge_by n xs ys in
      elim (Bool-cases (has_key (key y) xs)) [
        | inl known ↦
            rw (has_by-has_key y xs, known)
              ((ground (arith, joined, known, at_key), ground (arith, kept, known, at_key)))
        | inr new ↦
            rw (has_by-has_key y xs, new)
              (
                rw (has_key-insert_by n y (merge_by by_key xs ys).0) (ground (arith, joined)),
                ground (arith, kept, new, at_key),
              )
      ]
    where
      at_key : same (key y) n ≡ true → has_key (key y) xs ≡ has_key n xs
      at_key q = ap (λ k. has_key k xs) (same→≡ (key y) n q)

  -- The merged set has the entries of both, as they are, and the first one's where both have one.
  pub find_key-merge_by :
      (n : K) (xs ys : List A)
      → Distinct ys
      → find_key n (merge_by by_key xs ys).0 ≡ or_else (find_key n xs) (find_key n ys)
  unfolding merge_by find_key
  find_key-merge_by n xs [] distinct = elim (Option-cases (find_key n xs)) [
    | inl absent ↦ rw absent refl
    | inr (x, found) ↦ rw found refl
  ]
  find_key-merge_by n xs (y ∷ ys) (single, distinct) =
      let rest = find_key-merge_by n xs ys distinct in
      elim (Bool-cases (same (key y) n)) [
        | inr other ↦ elim (Bool-cases (has_key (key y) xs)) [
          | inl known ↦ rw (has_by-has_key y xs, known, other) rest
          | inr new ↦
              rw (has_by-has_key y xs, new, other)
                (find_key-insert_by_other n y (merge_by by_key xs ys).0 other ∙ rest)
        ]
        | inl here ↦
            let equal = same→≡ (key y) n here in
            let alone : find_key n ys ≡ none =
              find_key-absent n ys (subst (λ k. has_key k ys ≡ false) equal single) in
            elim (Bool-cases (has_key (key y) xs)) [
              | inl known ↦
                  let (x, found) =
                    find_key-present n xs (subst (λ k. has_key k xs ≡ true) equal known) in
                  rw (has_by-has_key y xs, known, here) (rest ∙ rw found refl)
              | inr new ↦
                  let absent = find_key-absent n xs (subst (λ k. has_key k xs ≡ false) equal new) in
                  rw (has_by-has_key y xs, new, here)
                    (find_key-insert_by n y (merge_by by_key xs ys).0
                        (rest ∙ rw (absent, alone) refl)
                      ∙ rw (here, absent) refl)
            ]
      ]

pub number_fits : (a b : ℕ) → (not (ltb a b) && not (ltb b a)) ≡ (a == b)
number_fits a b = ground arith

pub same_number→≡ : (a b : ℕ) → (a == b) ≡ true → a ≡ b
same_number→≡ a b h = ground arith

abbrev pub same_identifier : TxIdentifier → TxIdentifier → Bool
same_identifier a b = a.owner == b.owner && a.sequence_number == b.sequence_number

pub identifier_fits :
    (a b : TxIdentifier)
    → (not (identifier_less a b) && not (identifier_less b a)) ≡ same_identifier a b
identifier_fits a b = ground arith

pub same_identifier→≡ : (a b : TxIdentifier) → same_identifier a b ≡ true → a ≡ b
same_identifier→≡ a b h =
    let owners : a.owner ≡ b.owner = ground (arith, h) in
    let numbers : a.sequence_number ≡ b.sequence_number = ground (arith, h) in
    rw (owners, numbers) refl

pub same_identifier_refl : (a : TxIdentifier) → same_identifier a a ≡ true
same_identifier_refl a = ground arith
