-- ===== src/Database/Memory.antt =====
-- A table in memory that meets the interface, for tests and for the theorems' examples. The rows are
-- a partial function on the keys below a bound.
pub mod Scan
use Scan.{
  first_below, first_below-some, first_below-none, count_below, count_below-none, count_below-some,
  count_below-key, count_below-pad, count_below-insert, rows_below, rows_below-Among,
  rows_below_all, rows_below-DistinctKeys,
}
use Prim.Native.Nat.{max}
use tasks_platform.Common.{
  ℕ, suc, ◌+◌, ◌≤◌, ◌<◌, ◌≡◌, refl, ◌∙◌, sym, ◌⊎◌, inl, inr, Bool, true, false, ◌&&◌, Option, none,
  some, arith, ltb, ◌==◌, ==_iff, if◌then◌else◌, map_option, List, ◌∷◌, ◌++◌, ap, take, Among,
  DistinctKeys, Option-cases, Bool-cases, subst,
}
use tasks_platform.Common.Ordered.{
  ordered, ordered-Among, ordered_keeps, ordered-DistinctKeys, ordered-SortedBy, drop, from_key,
  from_key-append,
}
use tasks_platform.Database.Table.{Table, unless}

module _ {A : Type 0} (key : A → ℕ) (clashes : A → A → Bool) where
  pub record MemoryRows : Type 0 where
    pub bound : ℕ
    pub row : ℕ → Option A

  -- A row that stands under another key than its own is not seen.
  abbrev pub own_row : ℕ → Option A → Option A
  own_row k none = none
  own_row k (some r) = if key r == k then some r else none

  abbrev pub get : ℕ → MemoryRows → Option A
  get k s = if ltb k s.bound then own_row k (s.row k) else none

  abbrev pub find_first : (A → Bool) → MemoryRows → Option A
  find_first p s = first_below p s.bound (λ k. get k s)

  abbrev pub find_many : (A → Bool) → MemoryRows → List A
  find_many p s = rows_below p s.bound (λ k. get k s)

  abbrev pub find_ordered : (A → Bool) → (A → A → Bool) → MemoryRows → List A
  find_ordered p before s = ordered before (find_many p s)

  abbrev pub find_page : (A → Bool) → (A → A → Bool) → Option ℕ → ℕ → ℕ → MemoryRows → List A
  find_page p before cursor skip n s =
      take n (drop skip (from_key key cursor (find_ordered p before s)))

  abbrev pub count : (A → Bool) → MemoryRows → ℕ
  count p s = count_below p s.bound (λ k. get k s)

  abbrev pub insert : A → MemoryRows → MemoryRows
  insert r s = record {
    bound = max s.bound (suc (key r));
    row = λ k. if k == key r then some r else get k s;
  }

  abbrev create_unless : A → MemoryRows → Option A → Option A → Option MemoryRows
  create_unless r s none none = some (insert r s)
  create_unless r s none (some x) = none
  create_unless r s (some x) o = none

  abbrev pub create : A → MemoryRows → Option MemoryRows
  create r s = create_unless r s (get (key r) s) (find_first (λ x. clashes r x) s)

  abbrev pub update_many : (A → Bool) → (A → A) → MemoryRows → MemoryRows
  update_many p f s = record s { row = λ k. map_option (λ r. if p r then f r else r) (get k s) }

  abbrev pub update : ℕ → (A → A) → MemoryRows → Option (A × MemoryRows)
  update k f s = map_option (λ r. (f r, update_many (λ x. key x == k) f s)) (get k s)

  abbrev pub delete_many : (A → Bool) → MemoryRows → MemoryRows
  delete_many p s = record s { row = λ k. unless p (get k s) }

  abbrev pub delete : ℕ → MemoryRows → Option MemoryRows
  delete j s = map_option (λ r. record s { row = λ k. if k == j then none else get k s }) (get j s)

  pub get-key : (k : ℕ) (s : MemoryRows) (r : A) → get k s ≡ some r → key r ≡ k
  get-key k s r e = ground arith

  get-none : (s : MemoryRows) (k : ℕ) → s.bound ≤ k → get k s ≡ none
  get-none s k h = ground arith

  pub find_first-some :
      (p : A → Bool) (s : MemoryRows) (r : A)
      → find_first p s ≡ some r
      → (p r ≡ true) × (get (key r) s ≡ some r)
  find_first-some p s r e =
      let (k, found, holds) = first_below-some p s.bound (λ k. get k s) r e in
      (holds, rw (get-key k s r found) found)

  pub find_first-none :
      (p : A → Bool) (s : MemoryRows) (k : ℕ) (r : A)
      → find_first p s ≡ none
      → get k s ≡ some r
      → p r ≡ false
  find_first-none p s k r e found =
      first_below-none p s.bound (λ k. get k s) k r e (ground arith) found

  pub find_many-row :
      (p : A → Bool) (s : MemoryRows) (r : A)
      → Among r (find_many p s)
      → (p r ≡ true) × (get (key r) s ≡ some r)
  find_many-row p s r here =
      let (k, _, found, holds) = rows_below-Among p s.bound (λ k. get k s) r here in
      (holds, rw (get-key k s r found) found)

  pub find_many-all :
      (p : A → Bool) (s : MemoryRows) (k : ℕ) (r : A)
      → get k s ≡ some r
      → p r ≡ true
      → Among r (find_many p s)
  find_many-all p s k r found holds =
      rows_below_all p s.bound (λ j. get j s) k r (ground arith) found holds

  get-insert :
      (r : A) (s : MemoryRows) (k : ℕ)
      → get k (insert r s) ≡ (if k == key r then some r else get k s)
  get-insert r s k = ground arith

  create_unless-some :
      (r : A) (s t : MemoryRows) (a b : Option A)
      → create_unless r s a b ≡ some t
      → (t ≡ insert r s) × (a ≡ none) × (b ≡ none)
  create_unless-some r s t none none e = (cc, refl, refl)
  create_unless-some r s t none (some x) e = absurd (cc)
  create_unless-some r s t (some x) b e = absurd (cc)

  create_unless-none :
      (r : A) (s : MemoryRows) (a b : Option A)
      → create_unless r s a b ≡ none
      → ((x : A) × (a ≡ some x)) ⊎ ((x : A) × (b ≡ some x))
  create_unless-none r s none none e = absurd (cc)
  create_unless-none r s none (some x) e = inr (x, refl)
  create_unless-none r s (some x) b e = inl (x, refl)

  pub created :
      (r : A) (s t : MemoryRows)
      → create r s ≡ some t
      → (t ≡ insert r s) × (get (key r) s ≡ none) × (find_first (λ x. clashes r x) s ≡ none)
  created r s t e = create_unless-some r s t _ _ e

  pub get-create :
      (r : A) (s t : MemoryRows) (k : ℕ)
      → create r s ≡ some t
      → get k t ≡ (if k == key r then some r else get k s)
  get-create r s t k e =
      subst (λ u. get k u ≡ (if k == key r then some r else get k s)) (sym (created r s t e).0)
        (get-insert r s k)

  own_row-map :
      (p : A → Bool) (f : A → A)
      → ((r : A) → key (f r) ≡ key r)
      → (k : ℕ) (o : Option A)
      → own_row k (map_option (λ r. if p r then f r else r) (own_row k o))
        ≡ map_option (λ r. if p r then f r else r) (own_row k o)
  own_row-map p f keeps k none = refl
  own_row-map p f keeps k (some r) = ground (arith, keeps r)

  pub get-update_many :
      (p : A → Bool) (f : A → A)
      → ((r : A) → key (f r) ≡ key r)
      → (s : MemoryRows) (k : ℕ)
      → get k (update_many p f s) ≡ map_option (λ r. if p r then f r else r) (get k s)
  get-update_many p f keeps s k = elim (Bool-cases (ltb k s.bound)) [
    | inl inside ↦ rw inside (own_row-map p f keeps k (s.row k))
    | inr outside ↦ rw outside
  ]

  get-updated_row :
      (k : ℕ) (f : A → A)
      → ((r : A) → key (f r) ≡ key r)
      → (s : MemoryRows) (r : A) → get k s ≡ some r
      → (j : ℕ)
      → get j (update_many (λ x. key x == k) f s) ≡ (if j == k then some (f r) else get j s)
  get-updated_row k f keeps s r there j = elim (Option-cases (get j s)) [
    | inl absent ↦ elim (Bool-cases (j == k)) [
      | inl same ↦ absurd (ground (arith, ap (λ i. get i s) ((==_iff j k).0 same)))
      | inr other ↦ rw (get-update_many (λ x. key x == k) f keeps s j, absent, other) refl
    ]
    | inr (x, found) ↦ elim (Bool-cases (j == k)) [
      | inl same ↦
          let row : x ≡ r = cc (ap (λ i. get i s) ((==_iff j k).0 same)) in
          rw (get-update_many (λ x. key x == k) f keeps s j, found, get-key j s x found, same)
            (ap (λ y. some (f y)) row)
      | inr other ↦
          rw (get-update_many (λ x. key x == k) f keeps s j, found, get-key j s x found, other) refl
    ]
  ]

  abbrev updating : ℕ → (A → A) → MemoryRows → A → A × MemoryRows
  updating k f s r = (f r, update_many (λ x. key x == k) f s)

  pub get-update :
      (k : ℕ) (f : A → A)
      → ((r : A) → key (f r) ≡ key r)
      → (s t : MemoryRows) (a : A) → update k f s ≡ some (a, t)
      → (r : A) × (get k s ≡ some r)
        × (a ≡ f r)
        × ((j : ℕ) → get j t ≡ (if j == k then some a else get j s))
  get-update k f keeps s t a e = elim (Option-cases (get k s)) [
    | inl absent ↦ absurd (ground (arith, ap (map_option (updating k f s)) absent))
    | inr (r, there) ↦
        let pair : some (f r, update_many (λ x. key x == k) f s) ≡ some (a, t) =
          sym (ap (map_option (updating k f s)) there) ∙ e in
        (
          r,
          there,
          cc pair,
          λ j.
              let rows : update_many (λ x. key x == k) f s ≡ t = cc pair in
              let row : f r ≡ a = cc pair in
              subst (λ u. get j u ≡ (if j == k then some a else get j s)) rows
                (get-updated_row k f keeps s r there j
                  ∙ ap (λ y. if j == k then some y else get j s) row),
        )
  ]

  seen-unless :
      (p : A → Bool) (here : Bool) (o : Option A) (k : ℕ)
      → let seen = if here then own_row k o else none in
        (if here then own_row k (unless p seen) else none) ≡ unless p seen
  seen-unless p false o k = refl
  seen-unless p true none k = refl
  seen-unless p true (some r) k = elim (Bool-cases (key r == k)) [
    | inl own ↦ elim (Bool-cases (p r)) [
      | inl goes ↦ rw (own, goes) refl
      | inr stays ↦ rw (own, stays, own) refl
    ]
    | inr other ↦ rw other refl
  ]

  pub get-delete_many :
      (p : A → Bool) (s : MemoryRows) (k : ℕ) → get k (delete_many p s) ≡ unless p (get k s)
  get-delete_many p s k = seen-unless p (ltb k s.bound) (s.row k) k

  pub get-delete :
      (j k : ℕ) (s t : MemoryRows)
      → delete j s ≡ some t
      → get k t ≡ (if k == j then none else get k s)
  get-delete j k s t e = ground arith

  pub delete-none : (k : ℕ) (s : MemoryRows) → delete k s ≡ none → get k s ≡ none
  delete-none k s e = ground arith

  pub count-key :
      (p : A → Bool) (k : ℕ) → ((r : A) → p r ≡ true → key r ≡ k) → (s : MemoryRows) → count p s ≤ 1
  count-key p k one s =
      count_below-key p k s.bound (λ j. get j s)
        (λ j r found holds. sym (get-key j s r found) ∙ one r holds)

  pub count-create :
      (p : A → Bool) (r : A) (s t : MemoryRows)
      → create r s ≡ some t
      → count p t ≡ count p s + (if p r then 1 else 0)
  count-create p r s t e =
      let (same, free, _) = created r s t e in
      let top : ℕ = max s.bound (suc (key r)) in
      let inserted : count_below p top (λ k. get k (insert r s))
          ≡ count_below p top (λ k. get k s) + (if p r then 1 else 0) =
        count_below-insert p (key r) r (λ k. get k s) (λ k. get k (insert r s)) (get-insert r s)
          free top (omega arith) in
      let padded : count_below p top (λ k. get k s) ≡ count_below p s.bound (λ k. get k s) =
        count_below-pad p top s.bound (λ k. get k s) (get-none s) (omega arith) in
      subst (λ u. count p u ≡ count p s + (if p r then 1 else 0)) (sym same)
        (omega (arith, inserted, padded))

  pub find_ordered-DistinctKeys :
      (p : A → Bool) (before : A → A → Bool) (s : MemoryRows)
      → DistinctKeys key (find_ordered p before s)
  find_ordered-DistinctKeys p before s =
      ordered-DistinctKeys before key (find_many p s)
        (rows_below-DistinctKeys p key s.bound (λ k. get k s) (λ k r. get-key k s r))

  pub find_page-next :
      (p : A → Bool) (before : A → A → Bool) (n : ℕ) (s : MemoryRows) (xs ys : List A) (r : A)
      → find_ordered p before s ≡ xs ++ (r ∷ ys)
      → find_page p before (some (key r)) 1 n s ≡ take n ys
  find_page-next p before n s xs ys r e =
      ap (λ rows. take n (drop 1 (from_key key (some (key r)) rows))) e
      ∙ ap (λ rows. take n (drop 1 rows))
          (from_key-append key xs r ys
            (subst (DistinctKeys key) e (find_ordered-DistinctKeys p before s)))

  -- The interface, filled.
  abbrev pub memory_table : Table key clashes
  memory_table = record {
    Rows = MemoryRows;
    get = get;
    find_first = find_first;
    find_many = find_many;
    count = count;
    create = create;
    update_many = update_many;
    update = update;
    delete = delete;
    delete_many = delete_many;
    get-key = get-key;
    find_first-some = find_first-some;
    find_first-none = find_first-none;
    find_many-row = find_many-row;
    find_many-all = find_many-all;
    find_many-DistinctKeys =
        λ p s. rows_below-DistinctKeys p key s.bound (λ k. get k s) (λ k r. get-key k s r);
    find_ordered = find_ordered;
    find_page = find_page;
    find_ordered-row =
        λ p before s r h. find_many-row p s r (ordered-Among before (find_many p s) r h);
    find_ordered-all = λ p before s k r there holds.
        ordered_keeps before (find_many p s) r (find_many-all p s k r there holds);
    find_ordered-DistinctKeys = find_ordered-DistinctKeys;
    find_ordered-SortedBy = λ p before is_order s. ordered-SortedBy before is_order (find_many p s);
    find_page-first = λ p before n s. refl;
    find_page-next = λ p before n s xs ys r by_column e. find_page-next p before n s xs ys r e;
    get-create = get-create;
    create-fresh = λ r s t e. (created r s t e).1;
    create-clashes =
        λ r s t k x e found. find_first-none (λ x. clashes r x) s k x (created r s t e).2 found;
    get-update_many = λ p f keeps _ s k. get-update_many p f keeps s k;
    update_lem = λ k f keeps _ s. refl;
    get-update = get-update;
    get-delete = get-delete;
    get-delete_many = get-delete_many;
    delete-none = delete-none;
    count-none = λ p s e. count_below-none p s.bound (λ k. get k s) e;
    count-some = λ p s r e. count_below-some p s.bound (λ k. get k s) r e;
    count-key = count-key;
    count-create = count-create;
  }

  abbrev pub empty : MemoryRows
  empty = record { bound = 0; row = λ k. none }
