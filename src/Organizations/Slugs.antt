-- ===== src/Organizations/Slugs.antt =====
-- The loop over the candidates for a slug ends with one that is free.
use tasks_platform.Common.{
  ℕ, zero, suc, ◌+◌, ◌≤◌, ◌<◌, ◌≡◌, ◌≢◌, inl, inr, refl, sym, ap, ◌∙◌, subst, String, none, some,
  List, [], ◌∷◌, map, arith, Among, length, Option-cases, str_eq, eq_iff,
}
use Prim.Native.String.{◌++◌}
use text.Mathlib.TextLemmas.{append_cancel_left, append-nil, append-eq-nil_iff}
use tasks_platform.Common.{true, false}
use tasks_platform.Database.Schema.{Organization}
use tasks_platform.Database.Client.{Tables, Db}
use tasks_platform.Organizations.Service.{candidate, has_slug, free_slug}

-- The list without one of its elements.
without : {A : Type 0} (x : A) (xs : List A) → Among x xs → List A
without x [] h = []
without x (y ∷ ys) (inl here) = ys
without x (y ∷ ys) (inr later) = y ∷ without x ys later

length-without :
    {A : Type 0} (x : A) (xs : List A) (h : Among x xs) → length xs ≡ length (without x xs h) + 1
unfolding without
length-without x [] h = absurd h
length-without x (y ∷ ys) (inl here) = omega arith
length-without x (y ∷ ys) (inr later) = omega (arith, length-without x ys later)

without-Among :
    {A : Type 0} (x y : A) (xs : List A) (h : Among x xs)
    → y ≢ x
    → Among y xs
    → Among y (without x xs h)
unfolding without
without-Among x y [] h other at = absurd h
without-Among x y (z ∷ zs) (inl here) other (inl same) = absurd (other (same ∙ sym here))
without-Among x y (z ∷ zs) (inl here) other (inr later) = later
without-Among x y (z ∷ zs) (inr there) other (inl same) = inl same
without-Among x y (z ∷ zs) (inr there) other (inr later) =
    inr (without-Among x y zs there other later)

length-map : {A B : Type 0} (f : A → B) (xs : List A) → length (map f xs) ≡ length xs
length-map f [] = refl
length-map f (x ∷ xs) = omega (arith, length-map f xs)

map-Among : {A B : Type 0} (f : A → B) (x : A) (xs : List A) → Among x xs → Among (f x) (map f xs)
map-Among f x [] h = absurd h
map-Among f x (y ∷ ys) (inl same) = inl (ap f same)
map-Among f x (y ∷ ys) (inr later) = inr (map-Among f x ys later)

pub not_empty : (head s : String) → str_eq head "" ≡ false → String.[] ≢ head ++ s
not_empty head s other e =
    let empty : head ≡ String.[] = (append-eq-nil_iff.0 (sym e)).0 in
    let same : str_eq head "" ≡ true = (eq_iff head "").1 empty in absurd (cc)

module _ (print : ℕ → String) (print_injective : (i j : ℕ) → print i ≡ print j → i ≡ j) where
  -- No two candidates are the same text.
  candidate_injective :
      (base : String) (i j : ℕ) → candidate print base i ≡ candidate print base j → i ≡ j
  unfolding candidate
  candidate_injective base zero zero e = refl
  candidate_injective base zero (suc j) e = absurd (
      not_empty "-" (print (j + 2)) refl
        (append_cancel_left base String.[] ("-" ++ print (j + 2)) (append-nil base ∙ e)))
  candidate_injective base (suc i) zero e = absurd (
      not_empty "-" (print (i + 2)) refl
        (append_cancel_left base String.[] ("-" ++ print (i + 2)) (append-nil base ∙ sym e)))
  candidate_injective base (suc i) (suc j) e =
      let same : print (i + 2) ≡ print (j + 2) =
        append_cancel_left "-" _ _ (append_cancel_left base _ _ e) in
      omega (arith, print_injective (i + 2) (j + 2) same)

  module _ (t : Tables) (base : String) (db : Db t) where
    free_from :
        (fuel n : ℕ) (slugs : List String)
        → ((i : ℕ) (r : Organization)
            → n ≤ i
            → t.organization.find_first (has_slug (candidate print base i)) db.organizations
              ≡ some r
            → Among (candidate print base i) slugs)
        → length slugs < fuel
        → (slug : String) × (free_slug print base fuel n db ≡ some slug)
          × (t.organization.find_first (has_slug slug) db.organizations ≡ none)
    unfolding free_slug
    free_from zero n slugs listed short = absurd (omega arith)
    free_from (suc fuel) n slugs listed short =
        elim (Option-cases
          (t.organization.find_first (has_slug (candidate print base n)) db.organizations)) [
            | inl free ↦ (candidate print base n, rw (free, free_slug), free)
            | inr (r, taken) ↦
                let here = listed n r (omega arith) taken in
                let (slug, e, free) =
                  free_from fuel (suc n) (without (candidate print base n) slugs here)
                    (λ i x later found.
                      without-Among (candidate print base n) (candidate print base i) slugs here
                        (λ same. absurd (omega (arith, candidate_injective base i n same)))
                        (listed i x (omega arith) found))
                    (omega (arith, length-without (candidate print base n) slugs here)) in
                (slug, rw (taken, free_slug) e, free)
          ]

    -- The slugs that are in use.
    in_use : List String
    in_use =
        map (λ (r : Organization). r.slug) (t.organization.find_many (λ r. true) db.organizations)

    -- With more fuel than there are organizations the loop ends, at a candidate that no organization has.
    pub free_slug-total :
        (fuel : ℕ)
        → length (t.organization.find_many (λ r. true) db.organizations) < fuel
        → (slug : String) × (free_slug print base fuel 0 db ≡ some slug)
          × (t.organization.find_first (has_slug slug) db.organizations ≡ none)
    unfolding in_use
    free_slug-total fuel enough =
        free_from fuel 0 in_use
          (λ i r _ taken.
            let (meets, there) = t.organization.find_first-some _ db.organizations r taken in
            subst (λ s. Among s in_use) ((eq_iff _ _).0 meets)
              (map-Among (λ (x : Organization). x.slug) r _
                (t.organization.find_many-all (λ x. true) db.organizations r.id r there refl)))
          (omega (
            arith,
            length-map (λ (x : Organization). x.slug)
                (t.organization.find_many (λ r. true) db.organizations),
          ))
