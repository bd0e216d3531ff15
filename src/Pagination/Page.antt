-- ===== src/Pagination/Page.antt =====
-- `buildPage` of apps/api/src/shared/pagination/cursor.ts. The encoding of a cursor, Node's Buffer, is a
-- parameter.
use tasks_platform.Common.{
  ℕ, zero, suc, ◌≤◌, ◌<◌, ◌≡◌, ◌↔◌, inl, inr, refl, sym, ap, String, false, Option, none, some,
  List, [], ◌∷◌, arith, ltb, if◌then◌else◌, length, take, map_option, Bool-cases,
}

pub record Page (A : Type 0) : Type 0 where
  pub data_rows : List A
  pub next_cursor : Option String

module _ {A : Type 0} where
  -- `data[data.length - 1]`
  abbrev pub last : List A → Option A
  last [] = none
  last (x ∷ []) = some x
  last (x ∷ (y ∷ ys)) = last (y ∷ ys)

  pub take_all : (n : ℕ) (xs : List A) → length xs ≤ n → take n xs ≡ xs
  take_all zero [] le = refl
  take_all zero (x ∷ xs) le = absurd (omega arith)
  take_all (suc n) [] le = refl
  take_all (suc n) (x ∷ xs) le = ap (λ ys. x ∷ ys) (take_all n xs (omega arith))

  last-some : (x : A) (xs : List A) → (y : A) × (last (x ∷ xs) ≡ some y)
  last-some x [] = (x, refl)
  last-some x (z ∷ zs) = last-some z zs

module _ {A : Type 0} (id_of : A → ℕ) (encode_cursor : ℕ → String) where
  unfoldable pub build_page : List A → ℕ → Page A
  build_page rows limit =
      let has_more = ltb limit (length rows) in
      let data_rows = if has_more then take limit rows else rows in
      record {
        data_rows = data_rows;
        next_cursor =
            if has_more
            then map_option (λ row. encode_cursor (id_of row)) (last data_rows)
            else none;
      }

  -- Of the rows that were fetched, a page of a positive limit has the first ones up to the limit, and it has
  -- no cursor to a next page exactly when it has them all.
  build_page-cursor :
      (rows : List A) (limit : ℕ)
      → 0 < limit
      → ((build_page rows limit).data_rows ≡ take limit rows)
        × (((build_page rows limit).next_cursor ≡ none) ↔ (length rows ≤ limit))
  unfolding build_page
  build_page-cursor [] (suc n) positive =
      let whole : ltb (suc n) 0 ≡ false = ground arith in
      rw whole (refl, ((λ _. omega arith), λ _. refl))
  build_page-cursor rows zero positive = absurd (omega arith)
  build_page-cursor (x ∷ xs) (suc n) positive = elim (Bool-cases (ltb (suc n) (length (x ∷ xs)))) [
    | inl more ↦
        let (y, e) = last-some x (take n xs) in
        rw (more, e) (refl, ((λ never. absurd (cc)), λ le. absurd (ground arith)))
    | inr whole ↦
        let fits : length (x ∷ xs) ≤ suc n = ground arith in
        rw whole (sym (take_all (suc n) (x ∷ xs) fits), ((λ _. fits), λ _. refl))
  ]
