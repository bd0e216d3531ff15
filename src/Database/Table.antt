-- ===== src/Database/Table.antt =====
-- A table of the database as the Prisma client documents it. `key` is the primary key of a row, and
-- `clashes` says which two rows a unique index of the schema does not let stand side by side.
-- Everything is observed through `get`, the row that a primary key names.
use tasks_platform.Common.{
  ℕ, ◌+◌, ◌≤◌, ◌<◌, ◌≡◌, ◌⊎◌, inl, inr, arith, ap, Option-cases, ℕ-cases, Bool, true, false, Option,
  none, some, ◌==◌, if◌then◌else◌, map_option, List, ◌∷◌, ◌++◌, take, Among, DistinctKeys,
}
use tasks_platform.Common.Ordered.{SortedBy, IsOrder, ByColumn}

-- A row that does not meet a condition, if there is one.
abbrev pub unless : {A : Type 0} → (A → Bool) → Option A → Option A
unless p none = none
unless p (some r) = if p r then none else some r

pub record Table {A : Type 0} (key : A → ℕ) (clashes : A → A → Bool) : Type 1 where
  pub Rows : Type 0
  pub get : ℕ → Rows → Option A
  -- `findFirst` and `findUnique`: some row that meets the `where`, or null.
  pub find_first : (A → Bool) → Rows → Option A
  -- `findMany`: the rows that meet the `where`, in some order.
  pub find_many : (A → Bool) → Rows → List A
  -- `findMany` with `orderBy`: the same rows in an order. With `cursor`, `skip` and `take` as well: at most so
  -- many of them, from the row of the cursor on, less those that are skipped.
  pub find_ordered : (A → Bool) → (A → A → Bool) → Rows → List A
  pub find_page : (A → Bool) → (A → A → Bool) → Option ℕ → ℕ → ℕ → Rows → List A
  pub count : (A → Bool) → Rows → ℕ
  -- `create`: none where it throws, as it does for the violation of a unique index. It may throw for other
  -- reasons as well, such as a foreign key.
  pub create : A → Rows → Option Rows
  -- `updateMany`: every row that meets the `where` is changed.
  pub update_many : (A → Bool) → (A → A) → Rows → Rows
  -- `update` and `delete` by primary key: none if there is no such row, which throws.
  pub update : ℕ → (A → A) → Rows → Option (A × Rows)
  pub delete : ℕ → Rows → Option Rows
  -- the rows that go with a row that they refer to, by `onDelete: Cascade`
  pub delete_many : (A → Bool) → Rows → Rows
  -- a row is found under its own key
  pub get-key : (k : ℕ) (s : Rows) (r : A) → get k s ≡ some r → key r ≡ k
  -- what is found meets the `where` and is in the table
  pub find_first-some :
      (p : A → Bool) (s : Rows) (r : A)
      → find_first p s ≡ some r
      → (p r ≡ true) × (get (key r) s ≡ some r)
  -- null is found only if no row meets the `where`
  pub find_first-none :
      (p : A → Bool) (s : Rows) (k : ℕ) (r : A)
      → find_first p s ≡ none
      → get k s ≡ some r
      → p r ≡ false
  pub find_many-row :
      (p : A → Bool) (s : Rows) (r : A)
      → Among r (find_many p s)
      → (p r ≡ true) × (get (key r) s ≡ some r)
  pub find_many-all :
      (p : A → Bool) (s : Rows) (k : ℕ) (r : A)
      → get k s ≡ some r
      → p r ≡ true
      → Among r (find_many p s)
  pub find_many-DistinctKeys : (p : A → Bool) (s : Rows) → DistinctKeys key (find_many p s)
  pub find_ordered-row :
      (p : A → Bool) (before : A → A → Bool) (s : Rows) (r : A)
      → Among r (find_ordered p before s)
      → (p r ≡ true) × (get (key r) s ≡ some r)
  pub find_ordered-all :
      (p : A → Bool) (before : A → A → Bool) (s : Rows) (k : ℕ) (r : A)
      → get k s ≡ some r
      → p r ≡ true
      → Among r (find_ordered p before s)
  pub find_ordered-DistinctKeys :
      (p : A → Bool) (before : A → A → Bool) (s : Rows) → DistinctKeys key (find_ordered p before s)
  pub find_ordered-SortedBy :
      (p : A → Bool) (before : A → A → Bool)
      → IsOrder before
      → (s : Rows) → SortedBy before (find_ordered p before s)
  -- without a cursor the first rows, and with one those after it if one is skipped: for an order by a column
  -- that is never null, since nothing is documented of a cursor on a nullable one
  pub find_page-first :
      (p : A → Bool) (before : A → A → Bool) (n : ℕ) (s : Rows)
      → find_page p before none 0 n s ≡ take n (find_ordered p before s)
  pub find_page-next :
      (p : A → Bool) (before : A → A → Bool) (n : ℕ) (s : Rows) (xs ys : List A) (r : A)
      → ByColumn key before
      → find_ordered p before s ≡ xs ++ (r ∷ ys)
      → find_page p before (some (key r)) 1 n s ≡ take n ys
  -- a row that was created stands beside the others
  pub get-create :
      (r : A) (s t : Rows) (k : ℕ)
      → create r s ≡ some t
      → get k t ≡ (if k == key r then some r else get k s)
  -- its primary key was unused
  pub create-fresh : (r : A) (s t : Rows) → create r s ≡ some t → get (key r) s ≡ none
  -- no unique index was violated
  pub create-clashes :
      (r : A) (s t : Rows) (k : ℕ) (x : A)
      → create r s ≡ some t
      → get k s ≡ some x
      → clashes r x ≡ false
  -- an update that leaves the key alone and makes no row clash that did not
  pub get-update_many :
      (p : A → Bool) (f : A → A)
      → ((r : A) → key (f r) ≡ key r)
      → ((r x : A) → clashes (f r) x ≡ true → clashes r x ≡ true)
      → (s : Rows) (k : ℕ)
      → get k (update_many p f s) ≡ map_option (λ r. if p r then f r else r) (get k s)
  -- an update by key is an update of the rows with that key, and returns the row as it is then
  pub update_lem :
      (k : ℕ) (f : A → A)
      → ((r : A) → key (f r) ≡ key r)
      → ((r x : A) → clashes (f r) x ≡ true → clashes r x ≡ true)
      → (s : Rows)
      → update k f s ≡ map_option (λ r. (f r, update_many (λ x. key x == k) f s)) (get k s)
  -- an update that went through changed the row of that key, and no other
  pub get-update :
      (k : ℕ) (f : A → A)
      → ((r : A) → key (f r) ≡ key r)
      → (s t : Rows) (a : A) → update k f s ≡ some (a, t)
      → (r : A) × (get k s ≡ some r)
        × (a ≡ f r)
        × ((j : ℕ) → get j t ≡ (if j == k then some a else get j s))
  pub get-delete :
      (j k : ℕ) (s t : Rows) → delete j s ≡ some t → get k t ≡ (if k == j then none else get k s)
  pub get-delete_many :
      (p : A → Bool) (s : Rows) (k : ℕ) → get k (delete_many p s) ≡ unless p (get k s)
  pub delete-none : (k : ℕ) (s : Rows) → delete k s ≡ none → get k s ≡ none
  -- a count is zero exactly when `findFirst` finds nothing, and counts a new row
  pub count-none : (p : A → Bool) (s : Rows) → find_first p s ≡ none → count p s ≡ 0
  pub count-some : (p : A → Bool) (s : Rows) (r : A) → find_first p s ≡ some r → 0 < count p s
  pub count-key :
      (p : A → Bool) (k : ℕ) → ((r : A) → p r ≡ true → key r ≡ k) → (s : Rows) → count p s ≤ 1
  pub count-create :
      (p : A → Bool) (r : A) (s t : Rows)
      → create r s ≡ some t
      → count p t ≡ count p s + (if p r then 1 else 0)

module _ {A : Type 0} {key : A → ℕ} {clashes : A → A → Bool} (table : Table key clashes) where
  -- An update that touches neither the primary key nor a column under a unique index.
  abbrev pub Keeps : (A → A) → Type 0
  Keeps f =
      ((r : A) → key (f r) ≡ key r) × ((r x : A) → clashes (f r) x ≡ true → clashes r x ≡ true)

  pub update-found :
      (k : ℕ) (f : A → A) (s : table.Rows) {r : A}
      → Keeps f
      → table.get k s ≡ some r
      → table.update k f s ≡ some (f r, table.update_many (λ x. key x == k) f s)
  update-found k f s keeps e = rw (table.update_lem k f keeps.0 keeps.1 s, e)

  pub update-missing :
      (k : ℕ) (f : A → A) (s : table.Rows)
      → Keeps f
      → table.get k s ≡ none
      → table.update k f s ≡ none
  update-missing k f s keeps e = rw (table.update_lem k f keeps.0 keeps.1 s, e)

  -- The rows after an update by key: that row is changed, and every other stays.
  pub get-updated :
      (k j : ℕ) (f : A → A) (s : table.Rows)
      → Keeps f
      → table.get j (table.update_many (λ x. key x == k) f s)
        ≡ (if j == k then map_option f (table.get j s) else table.get j s)
  get-updated k j f s keeps = elim (Option-cases (table.get j s)) [
    | inl e ↦ rw (table.get-update_many (λ x. key x == k) f keeps.0 keeps.1 s j, e) (ground arith)
    | inr (r, e) ↦
        rw (table.get-update_many (λ x. key x == k) f keeps.0 keeps.1 s j, e, table.get-key j s r e)
          (ground arith)
  ]

  -- After a `create`: the new row is found, the old ones still are, and there are no others.
  pub created-new :
      (r : A) (s after : table.Rows)
      → table.create r s ≡ some after
      → table.get (key r) after ≡ some r
  created-new r s after e = rw (table.get-create r s after (key r) e) (ground arith)

  pub created-old :
      (r : A) (s after : table.Rows) (k : ℕ) {x : A}
      → table.create r s ≡ some after
      → table.get k s ≡ some x
      → table.get k after ≡ some x
  created-old r s after k e found = elim (ℕ-cases k (key r)) [
    | inl same ↦
        absurd (ground (arith, table.create-fresh r s after e, ap (λ i. table.get i s) same))
    | inr other ↦ ground (arith, table.get-create r s after k e)
  ]

  pub created-cases :
      (r : A) (s after : table.Rows) (k : ℕ) (x : A)
      → table.create r s ≡ some after
      → table.get k after ≡ some x
      → (x ≡ r) ⊎ (table.get k s ≡ some x)
  created-cases r s after k x e found = elim (ℕ-cases k (key r)) [
    | inl same ↦ inl (ground (arith, table.get-create r s after k e))
    | inr other ↦ inr (ground (arith, table.get-create r s after k e))
  ]

  -- What an `update` that goes through says.
  pub updated-some :
      (k : ℕ) (f : A → A) (s : table.Rows) {a : A} {after : table.Rows}
      → Keeps f
      → table.update k f s ≡ some (a, after)
      → (r : A) × (table.get k s ≡ some r)
        × (a ≡ f r)
        × (after ≡ table.update_many (λ x. key x == k) f s)
  updated-some k f s keeps e = elim (Option-cases (table.get k s)) [
    | inl absent ↦ absurd (ground (arith, update-missing k f s keeps absent))
    | inr (r, found) ↦
        (r, found, cc (update-found k f s keeps found), cc (update-found k f s keeps found))
  ]

  -- The only row that meets a `where` is still found after an update of it that leaves the `where` alone.
  pub found_updated :
      (p : A → Bool) (f : A → A) (s : table.Rows) (r : A)
      → Keeps f
      → ((x : A) → p (f x) ≡ p x)
      → ((x : A) → table.get (key x) s ≡ some x → p x ≡ true → key x ≡ key r)
      → table.get (key r) s ≡ some r
      → p r ≡ true
      → table.find_first p (table.update_many (λ x. key x == key r) f s) ≡ some (f r)
  found_updated p f s r keeps same only there holds =
      let after : table.Rows = table.update_many (λ x. key x == key r) f s in
      let row = λ (j : ℕ). get-updated (key r) j f s keeps in
      elim (Option-cases (table.find_first p after)) [
        | inl absent ↦ absurd (
            ground (arith, row (key r), same r, table.find_first-none p after (key r) (f r) absent))
        | inr (y, again) ↦
            let (meets, now) = table.find_first-some p after y again in
            elim (ℕ-cases (key y) (key r)) [
              | inl e ↦ ground (arith, row (key y), ap (λ k. table.get k s) e)
              | inr other ↦ absurd (other (only y (ground (arith, row (key y))) meets))
            ]
      ]
