-- ===== src/Database/Memory/Scan.antt =====
-- Searching and counting the values of a partial function below a bound.
use tasks_platform.Common.{
  ℕ, zero, suc, ◌+◌, ◌≤◌, ◌<◌, ◌≡◌, refl, ap, sym, ◌∙◌, List, [], ◌∷◌, Among, DistinctKeys, ◌⊎◌,
  ◌≢◌, inl, inr, Bool, true, false, Option, none, some, arith, ◌==◌, if◌then◌else◌, Option-cases,
  Bool-cases, ℕ-cases,
}

module _ {A : Type 0} (p : A → Bool) where
  abbrev keep_first : Option A → Option A → Option A
  keep_first none rest = rest
  keep_first (some r) rest = if p r then some r else rest

  unfoldable pub first_below : ℕ → (ℕ → Option A) → Option A
  first_below zero g = none
  first_below (suc n) g = keep_first (g n) (first_below n g)

  abbrev pub one_if : Option A → ℕ
  one_if none = 0
  one_if (some r) = if p r then 1 else 0

  unfoldable pub count_below : ℕ → (ℕ → Option A) → ℕ
  count_below zero g = 0
  count_below (suc n) g = count_below n g + one_if (g n)

  pub first_below-some :
      (n : ℕ) (g : ℕ → Option A) (r : A)
      → first_below n g ≡ some r
      → (k : ℕ) × (g k ≡ some r) × (p r ≡ true)
  unfolding first_below
  first_below-some zero g r e = absurd (cc)
  first_below-some (suc n) g r e = elim (Option-cases (g n)) [
    | inl free ↦ first_below-some n g r (ground arith)
    | inr (x, found) ↦ elim (Bool-cases (p x)) [
      | inl yes_x ↦ (n, ground arith, ground arith)
      | inr no_x ↦ first_below-some n g r (ground arith)
    ]
  ]

  pub first_below-none :
      (n : ℕ) (g : ℕ → Option A) (k : ℕ) (r : A)
      → first_below n g ≡ none
      → k < n
      → g k ≡ some r
      → p r ≡ false
  unfolding first_below
  first_below-none zero g k r e h found = absurd (omega arith)
  first_below-none (suc n) g k r e h found = elim (ℕ-cases k n) [
    | inl here ↦ ground (arith, ap g here)
    | inr below ↦ first_below-none n g k r (ground arith) (omega arith) found
  ]

  pub count_below-none : (n : ℕ) (g : ℕ → Option A) → first_below n g ≡ none → count_below n g ≡ 0
  unfolding first_below count_below
  count_below-none zero g e = refl
  count_below-none (suc n) g e = ground (arith, count_below-none n g)

  pub count_below-some :
      (n : ℕ) (g : ℕ → Option A) (r : A) → first_below n g ≡ some r → 0 < count_below n g
  unfolding first_below count_below
  count_below-some zero g r e = absurd (cc)
  count_below-some (suc n) g r e = ground (arith, count_below-some n g r)

  -- Where the test singles out one place, at most one value is counted.
  count_below-above :
      (k n : ℕ) (g : ℕ → Option A)
      → ((j : ℕ) (r : A) → g j ≡ some r → p r ≡ true → j ≡ k)
      → n ≤ k
      → count_below n g ≡ 0
  unfolding count_below
  count_below-above k zero g one h = refl
  count_below-above k (suc n) g one h = elim (Option-cases (g n)) [
    | inl free ↦ ground (arith, count_below-above k n g one (omega arith))
    | inr (r, found) ↦ ground (arith, count_below-above k n g one (omega arith), one n r found)
  ]

  pub count_below-key :
      (k n : ℕ) (g : ℕ → Option A)
      → ((j : ℕ) (r : A) → g j ≡ some r → p r ≡ true → j ≡ k)
      → count_below n g ≤ 1
  unfolding count_below
  count_below-key k zero g one = omega arith
  count_below-key k (suc n) g one = elim (ℕ-cases n k) [
    | inl here ↦ ground (arith, count_below-above k n g one)
    | inr elsewhere ↦ elim (Option-cases (g n)) [
      | inl free ↦ ground (arith, count_below-key k n g one)
      | inr (r, found) ↦ ground (arith, count_below-key k n g one, one n r found)
    ]
  ]

  pub count_below-pad :
      (m n : ℕ) (g : ℕ → Option A)
      → ((j : ℕ) → n ≤ j → g j ≡ none)
      → n ≤ m
      → count_below m g ≡ count_below n g
  unfolding count_below
  count_below-pad zero n g rest h = let e : n ≡ 0 = omega arith in rw e
  count_below-pad (suc m) n g rest h = elim (ℕ-cases n (suc m)) [
    | inl same ↦ rw same
    | inr less ↦ ground (arith, rest m, count_below-pad m n g rest)
  ]

module _ {A : Type 0} (p : A → Bool) (k : ℕ) (r : A) (g h : ℕ → Option A)
    (inserted : (j : ℕ) → h j ≡ (if j == k then some r else g j)) where
  count_below-insert_above : (n : ℕ) → n ≤ k → count_below p n h ≡ count_below p n g
  unfolding count_below
  count_below-insert_above zero le = refl
  count_below-insert_above (suc n) le =
      ground
        (arith, count_below-insert_above n (omega arith), inserted n, ap (one_if p) (inserted n))

  pub count_below-insert :
      g k ≡ none → (n : ℕ) → k < n → count_below p n h ≡ count_below p n g + (if p r then 1 else 0)
  unfolding count_below
  count_below-insert free zero lt = absurd (omega arith)
  count_below-insert free (suc n) lt = elim (ℕ-cases n k) [
    | inl here ↦
        ground (arith, count_below-insert_above n (omega arith), ap h here, ap g here, inserted k)
    | inr elsewhere ↦ ground (arith, count_below-insert free n, inserted n)
  ]

module _ {A : Type 0} (p : A → Bool) where
  abbrev keep_in : Option A → List A → List A
  keep_in none rest = rest
  keep_in (some r) rest = if p r then r ∷ rest else rest

  unfoldable pub rows_below : ℕ → (ℕ → Option A) → List A
  rows_below zero g = []
  rows_below (suc n) g = keep_in (g n) (rows_below n g)

  -- An element that is in the list with a new row is it, or was there before.
  keep_in-Among :
      (o : Option A) (xs : List A) (r : A)
      → Among r (keep_in o xs)
      → ((o ≡ some r) × (p r ≡ true)) ⊎ Among r xs
  keep_in-Among none xs r old = inr old
  keep_in-Among (some x) xs r there = tested (p x) refl there
    where
      tested :
          (b : Bool)
          → p x ≡ b
          → Among r (if b then x ∷ xs else xs)
          → ((some x ≡ some r) × (p r ≡ true)) ⊎ Among r xs
      tested true holds (inl same) = inl (ap some (sym same), ap p same ∙ holds)
      tested true holds (inr old) = inr old
      tested false holds old = inr old

  pub rows_below-Among :
      (n : ℕ) (g : ℕ → Option A) (r : A)
      → Among r (rows_below n g)
      → (k : ℕ) × (k < n) × (g k ≡ some r) × (p r ≡ true)
  unfolding rows_below
  rows_below-Among zero g r here = absurd here
  rows_below-Among (suc n) g r here = elim (keep_in-Among (g n) (rows_below n g) r here) [
    | inl (e, holds) ↦ (n, omega arith, e, holds)
    | inr old ↦
        let (k, below, found, holds) = rows_below-Among n g r old in (k, omega arith, found, holds)
  ]

  in_kept : (o : Option A) (xs : List A) (r : A) → Among r xs → Among r (keep_in o xs)
  in_kept none xs r here = here
  in_kept (some x) xs r here = elim (Bool-cases (p x)) [
    | inl e ↦ rw e (inr here)
    | inr e ↦ rw e here
  ]

  pub rows_below_all :
      (n : ℕ) (g : ℕ → Option A) (k : ℕ) (r : A)
      → k < n
      → g k ≡ some r
      → p r ≡ true
      → Among r (rows_below n g)
  unfolding rows_below
  rows_below_all zero g k r below found holds = absurd (omega arith)
  rows_below_all (suc n) g k r below found holds = elim (ℕ-cases k n) [
    | inl last ↦ rw (← last, found, holds) (inl refl)
    | inr other ↦
        in_kept (g n) (rows_below n g) r (rows_below_all n g k r (omega arith) found holds)
  ]

  distinct_kept :
      (key : A → ℕ) (o : Option A) (xs : List A)
      → ((x y : A) → o ≡ some x → Among y xs → key y ≢ key x)
      → DistinctKeys key xs
      → DistinctKeys key (keep_in o xs)
  distinct_kept key none xs apart rest = rest
  distinct_kept key (some x) xs apart rest = elim (Bool-cases (p x)) [
    | inl e ↦ rw e (λ y old. apart x y refl old, rest)
    | inr e ↦ rw e rest
  ]

  pub rows_below-DistinctKeys :
      (key : A → ℕ) (n : ℕ) (g : ℕ → Option A)
      → ((k : ℕ) (r : A) → g k ≡ some r → key r ≡ k)
      → DistinctKeys key (rows_below n g)
  unfolding rows_below
  rows_below-DistinctKeys key zero g keyed = tt
  rows_below-DistinctKeys key (suc n) g keyed =
      distinct_kept key (g n) (rows_below n g)
        (λ x y e old same.
          let (k, below, found, _) = rows_below-Among n g y old in
          absurd (omega (arith, keyed k y found, keyed n x e, same)))
        (rows_below-DistinctKeys key n g keyed)
