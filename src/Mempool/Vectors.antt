-- ===== src/Mempool/Vectors.antt =====
-- Removal from a vector by moving its last entry into the place, and sums over a vector.
use speedex.Prelude.{
  ℕ, zero, suc, ◌+◌, ◌≤◌, ◌<◌, ◌≡◌, ◌≢◌, refl, sym, ap, subst, ◌∙◌, List, [], ◌∷◌, ◌++◌, Option,
  none, some, length, length-set, get_elem?, set, arith,
}

module _ {ℓ} {A : Type ℓ} where
  abbrev pub last : List A → Option A
  last [] = none
  last (x ∷ []) = some x
  last (x ∷ y ∷ xs) = last (y ∷ xs)

  abbrev pub drop_last : List A → List A
  drop_last [] = []
  drop_last (x ∷ []) = []
  drop_last (x ∷ y ∷ xs) = x ∷ drop_last (y ∷ xs)

  -- `v[i] = v.back(); v.pop_back();`, which an empty vector does not allow.
  unfoldable pub swap_remove : List A → ℕ → Option (List A)
  swap_remove xs i = elim (last xs) [ none ↦ none | some x ↦ some (drop_last (set xs i x)) ]

  -- The sum of a measure of the entries. For a measure of 0 and 1 it counts them.
  unfoldable pub tally : (A → ℕ) → List A → ℕ
  tally f [] = 0
  tally f (x ∷ xs) = f x + tally f xs

  pub tally-append : (f : A → ℕ) (xs ys : List A) → tally f (xs ++ ys) ≡ tally f xs + tally f ys
  unfolding tally
  tally-append f [] ys = omega arith
  tally-append f (x ∷ xs) ys = omega (arith, tally-append f xs ys)

  pub tally-set :
      (f : A → ℕ) (xs : List A) (i : ℕ) (old v : A)
      → get_elem? xs i ≡ some old
      → tally f (set xs i v) + f old ≡ tally f xs + f v
  unfolding tally
  tally-set f [] i old v h = absurd (cc)
  tally-set f (x ∷ xs) zero old v h = ground (arith)
  tally-set f (x ∷ xs) (suc i) old v h = omega (arith, tally-set f xs i old v h)

  tally-drop_last :
      (f : A → ℕ) (xs : List A) (v : A)
      → last xs ≡ some v
      → tally f (drop_last xs) + f v ≡ tally f xs
  unfolding tally
  tally-drop_last f [] v h = absurd (cc)
  tally-drop_last f (x ∷ []) v h = ground arith
  tally-drop_last f (x ∷ y ∷ xs) v h = omega (arith, tally-drop_last f (y ∷ xs) v h)

  last-set : (xs : List A) (i : ℕ) (v : A) → last xs ≡ some v → last (set xs i v) ≡ some v
  last-set [] i v h = h
  last-set (x ∷ []) zero v h = refl
  last-set (x ∷ []) (suc i) v h = h
  last-set (x ∷ y ∷ xs) zero v h = h
  last-set (x ∷ y ∷ xs) (suc zero) v h = last-set (y ∷ xs) zero v h
  last-set (x ∷ y ∷ xs) (suc (suc i)) v h = last-set (y ∷ xs) (suc i) v h

  last-some : (xs : List A) (i : ℕ) → i < length xs → (v : A) × (last xs ≡ some v)
  last-some [] i h = absurd (omega arith)
  last-some (x ∷ []) i h = (x, refl)
  last-some (x ∷ y ∷ xs) i h = last-some (y ∷ xs) 0 (omega arith)

  length-drop_last :
      (xs : List A) (v : A) → last xs ≡ some v → suc (length (drop_last xs)) ≡ length xs
  length-drop_last [] v h = absurd (cc)
  length-drop_last (x ∷ []) v h = refl
  length-drop_last (x ∷ y ∷ xs) v h = ap suc (length-drop_last (y ∷ xs) v h)

  get_elem?-drop_last :
      (xs : List A) (i : ℕ) → suc i < length xs → get_elem? (drop_last xs) i ≡ get_elem? xs i
  get_elem?-drop_last [] i h = absurd (omega arith)
  get_elem?-drop_last (x ∷ []) i h = absurd (omega arith)
  get_elem?-drop_last (x ∷ y ∷ xs) zero h = refl
  get_elem?-drop_last (x ∷ y ∷ xs) (suc i) h = get_elem?-drop_last (y ∷ xs) i (omega arith)

  pub get_elem?-set_ne :
      (xs : List A) (i j : ℕ) (v : A) → i ≢ j → get_elem? (set xs i v) j ≡ get_elem? xs j
  get_elem?-set_ne [] i j v h = refl
  get_elem?-set_ne (x ∷ xs) zero zero v h = absurd (h refl)
  get_elem?-set_ne (x ∷ xs) zero (suc j) v h = refl
  get_elem?-set_ne (x ∷ xs) (suc i) zero v h = refl
  get_elem?-set_ne (x ∷ xs) (suc i) (suc j) v h = get_elem?-set_ne xs i j v (λ e. h (ap suc e))

  pub get_elem?-set_self :
      (xs : List A) (i : ℕ) (v : A) → i < length xs → get_elem? (set xs i v) i ≡ some v
  get_elem?-set_self [] i v h = absurd (omega arith)
  get_elem?-set_self (x ∷ xs) zero v h = refl
  get_elem?-set_self (x ∷ xs) (suc i) v h = get_elem?-set_self xs i v (omega arith)

  pub some_at : (xs : List A) (i : ℕ) (x : A) → get_elem? xs i ≡ some x → i < length xs
  some_at [] i x h = absurd (cc)
  some_at (y ∷ xs) zero x h = omega arith
  some_at (y ∷ xs) (suc i) x h = omega (arith, some_at xs i x h)

  pub none_at : (xs : List A) (i : ℕ) → get_elem? xs i ≡ none → length xs ≤ i
  none_at [] i h = omega arith
  none_at (x ∷ xs) zero h = absurd (cc)
  none_at (x ∷ xs) (suc i) h = omega (arith, none_at xs i h)

  pub get_elem?-some : (xs : List A) (i : ℕ) → i < length xs → (x : A) × (get_elem? xs i ≡ some x)
  get_elem?-some [] i h = absurd (omega arith)
  get_elem?-some (x ∷ xs) zero h = (x, refl)
  get_elem?-some (x ∷ xs) (suc i) h = get_elem?-some xs i (omega arith)

  -- The removal of an entry takes it out of every sum, and leaves the entries before it in place.
  pub swap_remove_lem :
      (xs : List A) (i : ℕ) (x : A)
      → i < length xs
      → get_elem? xs i ≡ some x
      → (ys : List A) × (swap_remove xs i ≡ some ys)
        × (suc (length ys) ≡ length xs)
        × ((f : A → ℕ) → tally f ys + f x ≡ tally f xs)
        × ((j : ℕ) → j < i → get_elem? ys j ≡ get_elem? xs j)
  unfolding swap_remove
  swap_remove_lem xs i x h at =
      let (v, end) = last-some xs i h in
      let end' = last-set xs i v end in
      let len = length-set xs i v in
      let short = length-drop_last (set xs i v) v end' in
      (
        drop_last (set xs i v),
        rw (end, swap_remove) refl,
        omega (arith, short, len),
        (λ f. omega (arith, tally-drop_last f (set xs i v) v end', tally-set f xs i x v at)),
        λ j before.
            get_elem?-drop_last (set xs i v) j (omega (arith, len, h, before))
            ∙ get_elem?-set_ne xs i j v (λ e. absurd (omega (arith, before, e))),
      )

-- Two vectors in step.
module _ {ℓ κ} {A : Type ℓ} {B : Type κ} where
  abbrev pub zip : List A → List B → List (A × B)
  zip [] ys = []
  zip (x ∷ xs) [] = []
  zip (x ∷ xs) (y ∷ ys) = (x, y) ∷ zip xs ys

  zip-set :
      (xs : List A) (ys : List B) (i : ℕ) (x : A) (y : B)
      → set (zip xs ys) i (x, y) ≡ zip (set xs i x) (set ys i y)
  zip-set [] ys i x y = refl
  zip-set (a ∷ xs) [] zero x y = refl
  zip-set (a ∷ xs) [] (suc i) x y = refl
  zip-set (a ∷ xs) (b ∷ ys) zero x y = refl
  zip-set (a ∷ xs) (b ∷ ys) (suc i) x y = ap (λ r. (a, b) ∷ r) (zip-set xs ys i x y)

  zip-drop_last :
      (xs : List A) (ys : List B)
      → length xs ≡ length ys
      → drop_last (zip xs ys) ≡ zip (drop_last xs) (drop_last ys)
  zip-drop_last [] ys h = refl
  zip-drop_last (a ∷ []) [] h = absurd (omega arith)
  zip-drop_last (a ∷ []) (b ∷ []) h = refl
  zip-drop_last (a ∷ []) (b ∷ c ∷ ys) h = absurd (omega arith)
  zip-drop_last (a ∷ x ∷ xs) [] h = absurd (omega arith)
  zip-drop_last (a ∷ x ∷ xs) (b ∷ []) h = absurd (omega arith)
  zip-drop_last (a ∷ x ∷ xs) (b ∷ c ∷ ys) h =
      ap (λ r. (a, b) ∷ r) (zip-drop_last (x ∷ xs) (c ∷ ys) (omega arith))

  last-zip :
      (xs : List A) (ys : List B) (x : A) (y : B)
      → length xs ≡ length ys
      → last xs ≡ some x
      → last ys ≡ some y
      → last (zip xs ys) ≡ some (x, y)
  last-zip [] ys x y h p q = absurd (cc)
  last-zip (a ∷ []) [] x y h p q = absurd (omega arith)
  last-zip (a ∷ []) (b ∷ []) x y h p q = cc
  last-zip (a ∷ []) (b ∷ c ∷ ys) x y h p q = absurd (omega arith)
  last-zip (a ∷ d ∷ xs) [] x y h p q = absurd (omega arith)
  last-zip (a ∷ d ∷ xs) (b ∷ []) x y h p q = absurd (omega arith)
  last-zip (a ∷ d ∷ xs) (b ∷ c ∷ ys) x y h p q = last-zip (d ∷ xs) (c ∷ ys) x y (omega arith) p q

  get_elem?-zip :
      (xs : List A) (ys : List B) (i : ℕ) (x : A) (y : B)
      → get_elem? xs i ≡ some x
      → get_elem? ys i ≡ some y
      → get_elem? (zip xs ys) i ≡ some (x, y)
  get_elem?-zip [] ys i x y p q = absurd (cc)
  get_elem?-zip (a ∷ xs) [] i x y p q = absurd (cc)
  get_elem?-zip (a ∷ xs) (b ∷ ys) zero x y p q = cc
  get_elem?-zip (a ∷ xs) (b ∷ ys) (suc i) x y p q = get_elem?-zip xs ys i x y p q

  -- A removal from both takes the pair out of every sum over the pairs.
  pub tally-zip-swap_remove :
      (xs : List A) (ys : List B) (i : ℕ) (x : A) (y : B) (xs' : List A) (ys' : List B)
      → length xs ≡ length ys
      → i < length xs
      → get_elem? xs i ≡ some x
      → get_elem? ys i ≡ some y
      → swap_remove xs i ≡ some xs'
      → swap_remove ys i ≡ some ys'
      → (f : A × B → ℕ) → tally f (zip xs' ys') + f (x, y) ≡ tally f (zip xs ys)
  unfolding swap_remove
  tally-zip-swap_remove xs ys i x y xs' ys' len h p q removed removed' f =
      let (v, end) = last-some xs i h in
      let (w, end') = last-some ys i (omega (arith, len, h)) in
      let both = last-zip xs ys v w len end end' in
      let same : length (set xs i v) ≡ length (set ys i w) =
        length-set xs i v ∙ len ∙ sym (length-set ys i w) in
      let left : swap_remove xs i ≡ some (drop_last (set xs i v)) = rw (end, swap_remove) refl in
      let left' : swap_remove ys i ≡ some (drop_last (set ys i w)) = rw (end', swap_remove) refl in
      let xs'-eq : drop_last (set xs i v) ≡ xs' = cc (left, removed) in
      let ys'-eq : drop_last (set ys i w) ≡ ys' = cc (left', removed') in
      let pairs : drop_last (set (zip xs ys) i (v, w)) ≡ zip xs' ys' =
        ap drop_last (zip-set xs ys i v w)
        ∙ zip-drop_last (set xs i v) (set ys i w) same
        ∙ ap (λ zs. zip zs (drop_last (set ys i w))) xs'-eq
        ∙ ap (zip xs') ys'-eq in
      subst (λ zs. tally f zs + f (x, y) ≡ tally f (zip xs ys)) pairs
        (omega (
          arith,
          tally-drop_last f (set (zip xs ys) i (v, w)) (v, w) (last-set (zip xs ys) i (v, w) both),
          tally-set f (zip xs ys) i (x, y) (v, w) (get_elem?-zip xs ys i x y p q),
        ))
