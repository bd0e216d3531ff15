-- ===== src/Common/Ordered.antt =====
-- Lists in order, by insertion: how the database in memory and the dispatcher order rows.
use tasks_platform.Common.{
  ℕ, zero, suc, ◌≤◌, ◌<◌, ◌≡◌, ◌≢◌, ◌⊎◌, inl, inr, refl, sym, ap, ◌∙◌, Bool, true, false, List, [],
  ◌∷◌, ◌++◌, Option, none, some, ◌==◌, arith, if◌then◌else◌, Among, DistinctKeys, length, take, ltb,
  leb, ◌||◌, ◌&&◌,
}

module _ {A : Type 0} where
  -- Every element may stand before each that comes after it.
  abbrev pub SortedBy : (A → A → Bool) → List A → Type 0
  SortedBy before [] = Unit {0}
  SortedBy before (x ∷ xs) = ((y : A) → Among y xs → before x y ≡ true) × SortedBy before xs

  -- Of any two one may stand before the other, and this is transitive.
  abbrev pub IsOrder : (A → A → Bool) → Type 0
  IsOrder before =
      ((x y : A) → (before x y ≡ true) ⊎ (before y x ≡ true))
      × ((x y z : A) → before x y ≡ true → before y z ≡ true → before x z ≡ true)

  -- Up or down by a column that is never null, and then by the key.
  abbrev pub ByColumn : (A → ℕ) → (A → A → Bool) → Type 0
  ByColumn key before =
      (column : A → ℕ) × (((a b : A)
          → before a b
            ≡ (ltb (column a) (column b) || (column a == column b && leb (key a) (key b))))
        ⊎ ((a b : A)
            → before a b
              ≡ (ltb (column b) (column a) || (column a == column b && leb (key a) (key b)))))

  unfoldable pub insert_ordered : (A → A → Bool) → A → List A → List A
  insert_ordered before x [] = x ∷ []
  insert_ordered before x (y ∷ ys) =
      if before x y then x ∷ (y ∷ ys) else y ∷ insert_ordered before x ys

  unfoldable pub ordered : (A → A → Bool) → List A → List A
  unfolding insert_ordered
  ordered before [] = []
  ordered before (x ∷ xs) = insert_ordered before x (ordered before xs)

module _ {A : Type 0} (before : A → A → Bool) where
  insert_ordered-Among :
      (e : A) (xs : List A) (x : A) → Among x (insert_ordered before e xs) → (x ≡ e) ⊎ Among x xs
  unfolding insert_ordered
  insert_ordered-Among e [] x h = h
  insert_ordered-Among e (y ∷ ys) x h = tested (before e y) h (insert_ordered-Among e ys x)
    where
      apart : (x ≡ e) ⊎ Among x ys → (x ≡ e) ⊎ Among x (y ∷ ys)
      apart (inl same) = inl same
      apart (inr later) = inr (inr later)

      tested :
          (b : Bool)
          → Among x (if b then e ∷ (y ∷ ys) else y ∷ insert_ordered before e ys)
          → (Among x (insert_ordered before e ys) → (x ≡ e) ⊎ Among x ys)
          → (x ≡ e) ⊎ Among x (y ∷ ys)
      tested true here rest = here
      tested false (inl same) rest = inr (inl same)
      tested false (inr later) rest = apart (rest later)

  insert_ordered_keeps :
      (e : A) (xs : List A) (x : A) → (x ≡ e) ⊎ Among x xs → Among x (insert_ordered before e xs)
  unfolding insert_ordered
  insert_ordered_keeps e [] x h = h
  insert_ordered_keeps e (y ∷ ys) x h = tested (before e y) h (insert_ordered_keeps e ys x)
    where
      tested :
          (b : Bool)
          → (x ≡ e) ⊎ Among x (y ∷ ys)
          → ((x ≡ e) ⊎ Among x ys → Among x (insert_ordered before e ys))
          → Among x (if b then e ∷ (y ∷ ys) else y ∷ insert_ordered before e ys)
      tested true h rest = h
      tested false (inl same) rest = inr (rest (inl same))
      tested false (inr (inl same)) rest = inl same
      tested false (inr (inr later)) rest = inr (rest (inr later))

  pub ordered-Among : (xs : List A) (x : A) → Among x (ordered before xs) → Among x xs
  unfolding ordered
  ordered-Among [] x h = h
  ordered-Among (y ∷ ys) x h = elim (insert_ordered-Among y (ordered before ys) x h) [
    | inl same ↦ inl same
    | inr later ↦ inr (ordered-Among ys x later)
  ]

  pub ordered_keeps : (xs : List A) (x : A) → Among x xs → Among x (ordered before xs)
  unfolding ordered
  ordered_keeps [] x h = h
  ordered_keeps (y ∷ ys) x (inl same) = insert_ordered_keeps y (ordered before ys) x (inl same)
  ordered_keeps (y ∷ ys) x (inr later) =
      insert_ordered_keeps y (ordered before ys) x (inr (ordered_keeps ys x later))

  module _ (key : A → ℕ) where
    insert_ordered-DistinctKeys :
        (e : A) (xs : List A)
        → ((y : A) → Among y xs → key y ≢ key e)
        → DistinctKeys key xs
        → DistinctKeys key (insert_ordered before e xs)
    unfolding insert_ordered
    insert_ordered-DistinctKeys e [] apart distinct = (λ y h. absurd h, tt)
    insert_ordered-DistinctKeys e (x ∷ xs) apart (first, rest) =
        tested (before e x) (insert_ordered-DistinctKeys e xs (λ y h. apart y (inr h)) rest)
      where
        others : (y : A) → Among y (insert_ordered before e xs) → key y ≢ key x
        others y h = elim (insert_ordered-Among e xs y h) [
          | inl same ↦ λ clash. apart x (inl refl) (sym clash ∙ ap key same)
          | inr later ↦ first y later
        ]

        tested :
            (b : Bool)
            → DistinctKeys key (insert_ordered before e xs)
            → DistinctKeys key (if b then e ∷ (x ∷ xs) else x ∷ insert_ordered before e xs)
        tested true below = (apart, (first, rest))
        tested false below = (others, below)

    pub ordered-DistinctKeys :
        (xs : List A) → DistinctKeys key xs → DistinctKeys key (ordered before xs)
    unfolding ordered
    ordered-DistinctKeys [] distinct = tt
    ordered-DistinctKeys (x ∷ xs) (first, rest) =
        insert_ordered-DistinctKeys x (ordered before xs) (λ y h. first y (ordered-Among xs y h))
          (ordered-DistinctKeys xs rest)

  module _ (is_order : IsOrder before) where
    insert_ordered-SortedBy :
        (e : A) (xs : List A) → SortedBy before xs → SortedBy before (insert_ordered before e xs)
    unfolding insert_ordered
    insert_ordered-SortedBy e [] sorted = (λ y h. absurd h, tt)
    insert_ordered-SortedBy e (x ∷ xs) (first, rest) =
        tested (before e x) refl (insert_ordered-SortedBy e xs rest)
      where
        after_first : before e x ≡ true → (y : A) → Among y (x ∷ xs) → before e y ≡ true
        after_first le y (inl same) = ap (before e) same ∙ le
        after_first le y (inr later) = is_order.1 e x y le (first y later)

        turned : before e x ≡ false → before x e ≡ true
        turned not_first = elim (is_order.0 e x) [ inl le' ↦ absurd (cc) | inr le ↦ le ]

        others :
            before e x ≡ false → (y : A) → Among y (insert_ordered before e xs) → before x y ≡ true
        others not_first y h = elim (insert_ordered-Among e xs y h) [
          | inl same ↦ ap (before x) same ∙ turned not_first
          | inr later ↦ first y later
        ]

        tested :
            (b : Bool)
            → before e x ≡ b
            → SortedBy before (insert_ordered before e xs)
            → SortedBy before (if b then e ∷ (x ∷ xs) else x ∷ insert_ordered before e xs)
        tested true le below = (after_first le, (first, rest))
        tested false not_first below = (others not_first, below)

    pub ordered-SortedBy : (xs : List A) → SortedBy before (ordered before xs)
    unfolding ordered
    ordered-SortedBy [] = tt
    ordered-SortedBy (x ∷ xs) = insert_ordered-SortedBy x (ordered before xs) (ordered-SortedBy xs)

module _ {A : Type 0} where
  pub take-Among : (n : ℕ) (xs : List A) (x : A) → Among x (take n xs) → Among x xs
  take-Among zero xs x h = absurd h
  take-Among (suc n) [] x h = h
  take-Among (suc n) (y ∷ ys) x (inl same) = inl same
  take-Among (suc n) (y ∷ ys) x (inr later) = inr (take-Among n ys x later)

  pub take-DistinctKeys :
      (key : A → ℕ) (n : ℕ) (xs : List A) → DistinctKeys key xs → DistinctKeys key (take n xs)
  take-DistinctKeys key zero xs distinct = tt
  take-DistinctKeys key (suc n) [] distinct = tt
  take-DistinctKeys key (suc n) (x ∷ xs) (first, rest) =
      (λ y h. first y (take-Among n xs y h), take-DistinctKeys key n xs rest)

  -- A list that is shorter than what was asked for is whole.
  pub take_short : (n : ℕ) (xs : List A) → length (take n xs) < n → take n xs ≡ xs
  take_short zero xs h = absurd (omega arith)
  take_short (suc n) [] h = refl
  take_short (suc n) (x ∷ xs) h = ap (λ ys. x ∷ ys) (take_short n xs (omega arith))

  pub length-take : (n : ℕ) (xs : List A) → length (take n xs) ≤ n
  length-take zero xs = omega arith
  length-take (suc n) [] = omega arith
  length-take (suc n) (x ∷ xs) = omega (arith, length-take n xs)

  abbrev pub drop : ℕ → List A → List A
  drop zero xs = xs
  drop (suc n) [] = []
  drop (suc n) (x ∷ xs) = drop n xs

  -- The list from the element with a key on, or all of it.
  abbrev pub from_key : (A → ℕ) → Option ℕ → List A → List A
  from_key key none xs = xs
  from_key key (some k) [] = []
  from_key key (some k) (x ∷ xs) = if key x == k then x ∷ xs else from_key key (some k) xs

  Among-append : (xs ys : List A) (x : A) → Among x ys → Among x (xs ++ ys)
  Among-append [] ys x h = h
  Among-append (z ∷ zs) ys x h = inr (Among-append zs ys x h)

  pub from_key-append :
      (key : A → ℕ) (xs : List A) (r : A) (ys : List A)
      → DistinctKeys key (xs ++ (r ∷ ys))
      → from_key key (some (key r)) (xs ++ (r ∷ ys)) ≡ r ∷ ys
  from_key-append key [] r ys distinct = ground arith
  from_key-append key (x ∷ xs) r ys (first, rest) =
      let other : key r ≢ key x = first r (Among-append xs (r ∷ ys) r (inl refl)) in
      ground (arith, from_key-append key xs r ys rest)
