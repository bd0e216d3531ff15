-- ===== src/Pagination/Listing.antt =====
-- What the paginated lists share: the cursor of a request and the query of one page, and what a client gets
-- that follows the cursors. The decoding of a cursor, Node's Buffer, is a parameter: none is the empty text.
use tasks_platform.Common.{
  ℕ, zero, suc, ◌+◌, String, Bool, Option, none, some, List, ◌++◌, str_eq, map_option,
  if◌then◌else◌, ◌<◌, ◌≡◌, ◌↔◌, true, length, Among, DistinctKeys,
}
use tasks_platform.Common.Ordered.{SortedBy}
use tasks_platform.Errors.{validation}
use tasks_platform.Database.Table.{Table}
use tasks_platform.Database.Client.{Tables, Db, ok, err, Action, pure, or_throw, ◌>>=◌}
use tasks_platform.Pagination.Page.{Page, build_page}

module _ {t : Tables} where
  unfoldable pub decode_cursor : (String → Option ℕ) → String → Action t ℕ
  decode_cursor decode cursor =
      or_throw (decode cursor) (validation (some "Invalid pagination cursor") none)

  -- `cursor ? decodeCursor(cursor) : undefined`
  unfoldable pub cursor_id : (String → Option ℕ) → Option String → Action t (Option ℕ)
  unfolding decode_cursor
  cursor_id decode none = pure none
  cursor_id decode (some cursor) =
      if str_eq cursor "" then pure none else do id ← decode_cursor decode cursor; pure (some id)

-- `skip: cursorId ? 1 : 0`
abbrev pub skip_of : Option ℕ → ℕ
skip_of none = 0
skip_of (some id) = 1

module _ {A : Type 0} {key : A → ℕ} {clashes : A → A → Bool} (table : Table key clashes) where
  -- `findMany({ where, orderBy, cursor, skip, take: limit + 1 })`
  abbrev pub page_rows : (A → Bool) → (A → A → Bool) → Option ℕ → ℕ → table.Rows → List A
  page_rows p before cursor limit rows =
      table.find_page p before cursor (skip_of cursor) (limit + 1) rows

  module _ {t : Tables} (decode : String → Option ℕ) (encode : ℕ → String) where
    -- A list's method: the cursor, the rows of one more than the page, and the page.
    abbrev pub list_page :
        (A → Bool) → (A → A → Bool) → Option String → ℕ → table.Rows → Action t (Page A)
    list_page p before cursor limit rows = do
      id ← cursor_id decode cursor
      pure (build_page key encode (page_rows p before id limit rows) limit)

-- The rows of the pages that a client gets who follows the cursors from one on: none if it gives up or if
-- a request fails.
unfoldable pub walk :
    {t : Tables} {A : Type 0}
    → (Option String → Action t (Page A))
    → ℕ
    → Option String
    → Db t
    → Option (List A)
walk fetch zero cursor db = none
walk fetch (suc fuel) cursor db = elim (fetch cursor db).0 [
  | err e ↦ none
  | ok page ↦ elim page.next_cursor [
    | none ↦ some page.data_rows
    | some next ↦ map_option (λ rest. page.data_rows ++ rest) (walk fetch fuel (some next) db)
  ]
]

-- Following the cursors from the first page on, with enough requests, gives the rows that meet a condition
-- and no others, each once and in order.
abbrev pub GivesAll :
    {t : Tables} {A : Type 0} {key : A → ℕ} {clashes : A → A → Bool}
    → (table : Table key clashes) → (A → Bool)
    → (A → A → Bool)
    → table.Rows
    → Db t
    → (Option String → Action t (Page A))
    → Type 0
GivesAll {A = A} {key = key} table p before rows db fetch =
    (xs : List A) × ((fuel : ℕ) → length xs < fuel → walk fetch fuel none db ≡ some xs)
    × ((x : A) → Among x xs ↔ ((p x ≡ true) × (table.get (key x) rows ≡ some x)))
    × DistinctKeys key xs
    × SortedBy before xs
