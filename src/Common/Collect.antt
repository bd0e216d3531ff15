-- ===== src/Common/Collect.antt =====
-- The rows that each row of a list refers to, as a query's `include` collects them.
use tasks_platform.Common.{
  ◌≡◌, ◌↔◌, inl, inr, refl, ap, ◌∙◌, sym, Bool, true, Option, none, some, List, [], ◌∷◌, Among,
  filter, Bool-cases, map_option, arith,
}

module _ {A B : Type 0} where
  -- none, if there is one for which there is nothing
  unfoldable pub collect : (A → Option B) → List A → Option (List B)
  collect f [] = some []
  collect f (x ∷ xs) = joined (f x) (collect f xs)
    where
      joined : Option B → Option (List B) → Option (List B)
      joined none rest = none
      joined (some y) rest = map_option (λ ys. y ∷ ys) rest

  pub collect_all :
      (f : A → Option B) (xs : List A)
      → ((x : A) → Among x xs → (y : B) × (f x ≡ some y))
      → (ys : List B) × (collect f xs ≡ some ys)
        × ((y : B) → Among y ys ↔ ((x : A) × Among x xs × (f x ≡ some y)))
  unfolding collect
  collect_all f [] total = ([], refl, (λ y. (λ h. absurd h, λ (x, h, _). absurd h)))
  collect_all f (x ∷ xs) total =
      let (z, found) = total x (inl refl) in
      let (zs, e, all) = collect_all f xs (λ w h. total w (inr h)) in
      (
        z ∷ zs,
        rw (found, e) refl,
        (λ y. (
          (λ h. elim h [
            | inl same ↦ (x, inl refl, found ∙ ap some (sym same))
            | inr later ↦ let (w, h2, e2) = (all y).0 later in (w, inr h2, e2)
          ]),
          λ (w, h, e2). elim h [
            | inl same ↦ inl (ground (arith, found, e2, ap f same))
            | inr later ↦ inr ((all y).1 (w, later, e2))
          ],
        )),
      )

module _ {A : Type 0} where
  pub filter-Among :
      (p : A → Bool) (xs : List A) (x : A) → Among x (filter p xs) ↔ (Among x xs × (p x ≡ true))
  unfolding filter
  filter-Among p [] x = (λ h. absurd h, λ (h, _). absurd h)
  filter-Among p (y ∷ ys) x = elim (Bool-cases (p y)) [
    | inl holds ↦ rw holds (
      (λ h. elim h [
        | inl same ↦ (inl same, ap p same ∙ holds)
        | inr later ↦ let (a, b) = (filter-Among p ys x).0 later in (inr a, b)
      ]),
      λ (h, e). elim h [
        | inl same ↦ inl same
        | inr later ↦ inr ((filter-Among p ys x).1 (later, e))
      ],
    )
    | inr fails ↦ rw fails (
      (λ h. let (a, b) = (filter-Among p ys x).0 h in (inr a, b)),
      λ (h, e). elim h [
        | inl same ↦ absurd (ground (arith, ap p same))
        | inr later ↦ (filter-Among p ys x).1 (later, e)
      ],
    )
  ]
