-- ===== src/Pagination/Walk.antt =====
-- Following the cursors gives every row once, in order, and comes to an end.
use mathlib.Core.List.{append_assoc}
use tasks_platform.Common.{
  ℕ, zero, suc, ◌+◌, ◌≤◌, ◌<◌, ◌≡◌, inl, inr, refl, sym, ap, ◌∙◌, String, Bool, true, false, Option,
  none, some, List, [], ◌∷◌, ◌++◌, arith, ltb, str_eq, eq_iff, length, take, Bool-cases,
}
use tasks_platform.Common.Ordered.{IsOrder, ByColumn}
use tasks_platform.Database.Table.{Table}
use tasks_platform.Database.Client.{Tables, Db, Action, ok, or_throw}
use tasks_platform.Pagination.Page.{Page, build_page, last, take_all}
use tasks_platform.Pagination.Listing.{cursor_id, decode_cursor, list_page, walk, GivesAll}

module _ {A : Type 0} where
  -- A list that is longer than a page: the page, its last row, and the rest.
  abbrev Cut : ℕ → List A → Type 0
  Cut n ys =
      (zs : List A) × (r : A) × (ws : List A) × (ys ≡ zs ++ (r ∷ ws))
      × (take (suc n) ys ≡ zs ++ (r ∷ []))
      × (last (take (suc n) ys) ≡ some r)
      × (length ws < length ys)

  last-cons : (x : A) (xs : List A) {y : A} → last xs ≡ some y → last (x ∷ xs) ≡ some y
  last-cons x [] e = absurd (cc)
  last-cons x (z ∷ zs) e = e

  cut : (n : ℕ) (ys : List A) → n < length ys → Cut n ys
  cut n [] short = absurd (omega arith)
  cut zero (y ∷ ys) long = ([], y, ys, refl, refl, refl, omega arith)
  cut (suc n) (y ∷ ys) long =
      let (zs, r, ws, whole, page, end, less) = cut n ys (omega arith) in
      (
        y ∷ zs,
        r,
        ws,
        ap (λ l. y ∷ l) whole,
        ap (λ l. y ∷ l) page,
        last-cons y (take (suc n) ys) end,
        omega arith,
      )

  take-take : (n m : ℕ) (ys : List A) → n ≤ m → take n (take m ys) ≡ take n ys
  take-take zero m ys le = refl
  take-take (suc n) zero ys le = absurd (omega arith)
  take-take (suc n) (suc m) [] le = refl
  take-take (suc n) (suc m) (y ∷ ys) le = ap (λ l. y ∷ l) (take-take n m ys (omega arith))

  length-take_long : (n m : ℕ) (ys : List A) → n < m → n < length ys → n < length (take m ys)
  length-take_long n zero ys lt long = absurd (omega arith)
  length-take_long n (suc m) [] lt long = absurd (omega arith)
  length-take_long zero (suc m) (y ∷ ys) lt long = omega arith
  length-take_long (suc n) (suc m) (y ∷ ys) lt long =
      omega (arith, length-take_long n m ys (omega arith) (omega arith))

  append_assoc_one : (zs : List A) (r : A) (ws : List A) → zs ++ (r ∷ ws) ≡ (zs ++ (r ∷ [])) ++ ws
  append_assoc_one [] r ws = refl
  append_assoc_one (z ∷ zs) r ws = ap (λ l. z ∷ l) (append_assoc_one zs r ws)

module _ {A : Type 0} (key : A → ℕ) (encode : ℕ → String) where
  page_whole :
      (limit : ℕ) (ys : List A)
      → length ys ≤ limit
      → build_page key encode (take (limit + 1) ys) limit
        ≡ record { data_rows = ys; next_cursor = none }
  unfolding build_page
  page_whole limit ys fits =
      let all_rows : take (limit + 1) ys ≡ ys = take_all (limit + 1) ys (omega arith) in
      let short : ltb limit (length ys) ≡ false = ground arith in rw (all_rows, short) refl

  page_cut :
      (n : ℕ) (ys : List A) (r : A)
      → suc n < length ys
      → last (take (suc n) ys) ≡ some r
      → build_page key encode (take (suc n + 1) ys) (suc n)
        ≡ record { data_rows = take (suc n) ys; next_cursor = some (encode (key r)) }
  unfolding build_page
  page_cut n ys r long end =
      let more : ltb (suc n) (length (take (suc n + 1) ys)) ≡ true =
        ground (arith, length-take_long (suc n) (suc n + 1) ys (omega arith) long) in
      rw (more, take-take (suc n) (suc n + 1) ys (omega arith), end) refl

module _ {t : Tables} {A : Type 0} (fetch : Option String → Action t (Page A)) (db : Db t) where
  walk_end :
      (fuel : ℕ) (cursor : Option String) (ys : List A)
      → fetch cursor db ≡ (ok (record { data_rows = ys; next_cursor = none }), db)
      → walk fetch (suc fuel) cursor db ≡ some ys
  unfolding walk
  walk_end fuel cursor ys e = rw (e, walk) refl

  walk_on :
      (fuel : ℕ) (cursor : Option String) (zs ws : List A) (next : String)
      → fetch cursor db ≡ (ok (record { data_rows = zs; next_cursor = some next }), db)
      → walk fetch fuel (some next) db ≡ some ws
      → walk fetch (suc fuel) cursor db ≡ some (zs ++ ws)
  unfolding walk
  walk_on fuel cursor zs ws next e rest = rw (e, walk) (rw rest refl)

module _ {t : Tables} {A : Type 0} {key : A → ℕ} {clashes : A → A → Bool}
    (table : Table key clashes) (decode : String → Option ℕ) (encode : ℕ → String)
    (decode-encode : (k : ℕ) → decode (encode k) ≡ some k) (decode_empty : decode "" ≡ none)
    (p : A → Bool) (before : A → A → Bool) (n : ℕ) (rows : table.Rows) (db : Db t)
    (fetch : Option String → Action t (Page A))
    (fetched : (cursor : Option String)
      → fetch cursor db ≡ list_page table decode encode p before cursor (suc n) rows db) where
  encoded : (k : ℕ) → str_eq (encode k) "" ≡ false
  encoded k = elim (Bool-cases (str_eq (encode k) "")) [
    | inl empty ↦
        let same = ap decode ((eq_iff (encode k) "").0 empty) in absurd (cc (decode-encode k))
    | inr filled ↦ filled
  ]

  fetch_next :
      (xs ys : List A) (r : A)
      → ByColumn key before
      → table.find_ordered p before rows ≡ xs ++ (r ∷ ys)
      → fetch (some (encode (key r))) db
        ≡ (ok (build_page key encode (take (suc n + 1) ys) (suc n)), db)
  unfolding cursor_id decode_cursor or_throw
  fetch_next xs ys r by_column e =
      rw
        (
          fetched (some (encode (key r))),
          encoded (key r),
          decode-encode (key r),
          table.find_page-next p before (suc n + 1) rows xs ys r by_column e,
        )
        refl

  fetch_first : fetch none db ≡ (
    ok (build_page key encode (take (suc n + 1) (table.find_ordered p before rows)) (suc n)),
    db,
  )
  unfolding cursor_id
  fetch_first = rw (fetched none, table.find_page-first p before (suc n + 1) rows) refl

  -- A walk from a request that gets the first page of what is left.
  walk_from :
      (fuel : ℕ) (cursor : Option String) (xs ys : List A)
      → ByColumn key before
      → table.find_ordered p before rows ≡ xs ++ ys
      → fetch cursor db ≡ (ok (build_page key encode (take (suc n + 1) ys) (suc n)), db)
      → length ys < fuel
      → walk fetch fuel cursor db ≡ some ys
  walk_from zero cursor xs ys by_column e got enough = absurd (omega arith)
  walk_from (suc fuel) cursor xs ys by_column e got enough =
      elim (Bool-cases (ltb (suc n) (length ys))) [
        | inl more ↦
            let long : suc n < length ys = ground arith in
            let (zs, r, ws, whole, page, end, less) = cut n ys (omega arith) in
            let split : table.find_ordered p before rows ≡ (xs ++ zs) ++ (r ∷ ws) =
              e ∙ ap (λ l. xs ++ l) whole ∙ sym (append_assoc xs zs (r ∷ ws)) in
            let rest =
              walk_from fuel (some (encode (key r))) ((xs ++ zs) ++ (r ∷ [])) ws by_column
                (split ∙ append_assoc_one (xs ++ zs) r ws)
                (fetch_next (xs ++ zs) ws r by_column split) (omega arith) in
            walk_on fetch db fuel cursor (zs ++ (r ∷ [])) ws (encode (key r))
              (got
                ∙ ap (λ pg. (ok pg, db)) (page_cut key encode n ys r long end)
                ∙ ap
                    (λ data_rows. (
                      ok (record { data_rows = data_rows; next_cursor = some (encode (key r)) }),
                      db,
                    ))
                    page)
              rest
            ∙ ap some (sym (whole ∙ append_assoc_one zs r ws))
        | inr whole ↦
            walk_end fetch db fuel cursor ys
              (got ∙ ap (λ pg. (ok pg, db)) (page_whole key encode (suc n) ys (ground arith)))
      ]

  -- Whoever follows the cursors from the first page on gets every row, once and in order.
  walk-find_ordered :
      ByColumn key before
      → (fuel : ℕ) → length (table.find_ordered p before rows) < fuel
      → walk fetch fuel none db ≡ some (table.find_ordered p before rows)
  walk-find_ordered by_column fuel enough =
      walk_from fuel none [] (table.find_ordered p before rows) by_column refl fetch_first enough

  pub walk-GivesAll : IsOrder before → ByColumn key before → GivesAll table p before rows db fetch
  walk-GivesAll order by_column = (
    table.find_ordered p before rows,
    walk-find_ordered by_column,
    (λ x. (
      table.find_ordered-row p before rows x,
      λ (holds, there). table.find_ordered-all p before rows (key x) x there holds,
    )),
    table.find_ordered-DistinctKeys p before rows,
    table.find_ordered-SortedBy p before order rows,
  )
