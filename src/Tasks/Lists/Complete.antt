-- ===== src/Tasks/Lists/Complete.antt =====
-- What following a list of tasks to its end gives, and whose tasks a list of someone's tasks has.
use tasks_platform.Common.{
  ℕ, suc, ◌<◌, ◌≡◌, ◌↔◌, ◌≢◌, ◌⊎◌, inl, inr, refl, ap, sym, ◌∙◌, subst, String, Bool, true, ◌||◌,
  ◌&&◌, not, Option, none, some, List, arith, leb, Among, length, Bool-cases, or_keep,
}
use tasks_platform.Common.Ordered.{IsOrder, ByColumn}
use tasks_platform.Database.Schema.{Task, Task_key}
use tasks_platform.Database.Client.{Tables, Db}
use tasks_platform.Pagination.Listing.{GivesAll, list_page, walk}
use tasks_platform.Pagination.Walk.{walk-GivesAll}
use tasks_platform.Tasks.Service.{priority_index}
use tasks_platform.Tasks.Lists.{
  TaskSortBy, created_at, due_date, priority, TaskSortOrder, asc, desc, TaskListFilter,
  TaskListQuery, sort_value, below, task_before, in_project, filter_assignee, assigned_in, list,
  list_assigned_to_user, same_id,
}

abbrev rank : Option ℕ → ℕ → Option ℕ → ℕ → Bool
rank x i y j = below x y || (not (below y x) && leb i j)

rank_total :
    (x : Option ℕ) (i : ℕ) (y : Option ℕ) (j : ℕ) → (rank x i y j ≡ true) ⊎ (rank y j x i ≡ true)
rank_total none i none j = elim (Bool-cases (leb i j)) [
  | inl le ↦ inl le
  | inr gt ↦ inr (ground arith)
]
rank_total none i (some b) j = inr refl
rank_total (some a) i none j = inl refl
rank_total (some a) i (some b) j = elim (Bool-cases (rank (some a) i (some b) j)) [
  | inl le ↦ inl le
  | inr gt ↦ inr (ground arith)
]

rank_trans :
    (x : Option ℕ) (i : ℕ) (y : Option ℕ) (j : ℕ) (z : Option ℕ) (k : ℕ)
    → rank x i y j ≡ true
    → rank y j z k ≡ true
    → rank x i z k ≡ true
rank_trans x i y j z k p q = ground arith

abbrev fall : Option ℕ → ℕ → Option ℕ → ℕ → Bool
fall x i y j = below y x || (not (below x y) && leb i j)

fall_total :
    (x : Option ℕ) (i : ℕ) (y : Option ℕ) (j : ℕ) → (fall x i y j ≡ true) ⊎ (fall y j x i ≡ true)
fall_total none i none j = rank_total none i none j
fall_total none i (some b) j = inl refl
fall_total (some a) i none j = inr refl
fall_total (some a) i (some b) j = elim (Bool-cases (fall (some a) i (some b) j)) [
  | inl le ↦ inl le
  | inr gt ↦ inr (ground arith)
]

fall_trans :
    (x : Option ℕ) (i : ℕ) (y : Option ℕ) (j : ℕ) (z : Option ℕ) (k : ℕ)
    → fall x i y j ≡ true
    → fall y j z k ≡ true
    → fall x i z k ≡ true
fall_trans x i y j z k p q = ground arith

task_before-IsOrder :
    (sort_by : TaskSortBy) (sort_order : TaskSortOrder) → IsOrder (task_before sort_by sort_order)
unfolding task_before
task_before-IsOrder sort_by asc = (
  λ a b. rank_total (sort_value sort_by a) a.id (sort_value sort_by b) b.id,
  λ a b c.
      rank_trans (sort_value sort_by a) a.id (sort_value sort_by b) b.id (sort_value sort_by c)
        c.id,
)
task_before-IsOrder sort_by desc = (
  λ a b. fall_total (sort_value sort_by a) a.id (sort_value sort_by b) b.id,
  λ a b c.
      fall_trans (sort_value sort_by a) a.id (sort_value sort_by b) b.id (sort_value sort_by c)
        c.id,
)

-- An order by the date of creation or by the priority: these columns are never null.
task_before-ByColumn :
    (sort_by : TaskSortBy) (sort_order : TaskSortOrder)
    → sort_by ≢ due_date
    → ByColumn Task_key (task_before sort_by sort_order)
unfolding task_before
task_before-ByColumn created_at asc other = ((λ task. task.created_at), inl (λ a b. ground arith))
task_before-ByColumn created_at desc other = ((λ task. task.created_at), inr (λ a b. ground arith))
task_before-ByColumn due_date order other = absurd (other refl)
task_before-ByColumn priority asc other =
    ((λ task. priority_index task.priority), inl (λ a b. ground arith))
task_before-ByColumn priority desc other =
    ((λ task. priority_index task.priority), inr (λ a b. ground arith))

filter_assignee_named :
    (filter : TaskListFilter) (id : ℕ)
    → filter.assignee_id ≡ some id
    → filter_assignee filter ≡ some (some id)
unfolding filter_assignee
filter_assignee_named filter id named = rw named refl

same_id-some : (o : Option ℕ) (id : ℕ) → same_id o (some id) ≡ true → o ≡ some id
same_id-some none id e = absurd (cc)
same_id-some (some a) id e = ap some (ground arith)

module _ (t : Tables) (matches : String → String → Bool) (decode : String → Option ℕ)
    (encode : ℕ → String) (decode-encode : (k : ℕ) → decode (encode k) ≡ some k)
    (decode_empty : decode "" ≡ none) where
  -- Where a cursor decodes to what was encoded in it, and the empty text to nothing, and where the query sorts by
  -- the date of creation or the priority, and not by the due date, which may be null: a client that follows the
  -- cursors of a project's list from the first page on, with as many requests as
  -- it takes and pages of a positive size, while nothing is written, gets the tasks of the project that are
  -- not deleted and meet the filter, and no others, each once and in the order of the query.
  pub walk-list :
      (project_id limit : ℕ) (query : TaskListQuery) (db : Db t)
      → query.sort_by ≢ due_date
      → query.limit ≡ suc limit
      → GivesAll t.task
          (in_project {t = t} matches project_id query.filter db)
          (task_before query.sort_by query.sort_order)
          db.tasks
          db
          (λ cursor.
            list {t = t} matches decode encode project_id (record query { cursor = cursor }))
  unfolding list in_project task_before
  walk-list project_id limit query db not_due positive =
      let p = in_project {t = t} matches project_id query.filter db in
      let before = task_before query.sort_by query.sort_order in
      walk-GivesAll t.task decode encode decode-encode decode_empty p before limit db.tasks db
        (λ cursor. list {t = t} matches decode encode project_id (record query { cursor = cursor }))
        (λ cursor. ap (λ n. list_page t.task decode encode p before cursor n db.tasks db) positive)
        (task_before-IsOrder query.sort_by query.sort_order)
        (task_before-ByColumn query.sort_by query.sort_order not_due)

  walk-list_assigned :
      (organization_id user_id limit : ℕ) (query : TaskListQuery) (db : Db t)
      → query.sort_by ≢ due_date
      → query.limit ≡ suc limit
      → GivesAll t.task
          (assigned_in {t = t} matches organization_id user_id query.filter db)
          (task_before query.sort_by query.sort_order)
          db.tasks
          db
          (λ cursor.
            list_assigned_to_user {t = t} matches decode encode organization_id user_id
              (record query { cursor = cursor }))
  unfolding list_assigned_to_user assigned_in task_before
  walk-list_assigned organization_id user_id limit query db not_due positive =
      let p = assigned_in {t = t} matches organization_id user_id query.filter db in
      let before = task_before query.sort_by query.sort_order in
      walk-GivesAll t.task decode encode decode-encode decode_empty p before limit db.tasks db
        (λ cursor.
          list_assigned_to_user {t = t} matches decode encode organization_id user_id
            (record query { cursor = cursor }))
        (λ cursor. ap (λ n. list_page t.task decode encode p before cursor n db.tasks db) positive)
        (task_before-IsOrder query.sort_by query.sort_order)
        (task_before-ByColumn query.sort_by query.sort_order not_due)

  assigned_in_named :
      (organization_id user_id other : ℕ) (filter : TaskListFilter) (db : Db t) (task : Task)
      → filter.assignee_id ≡ some other
      → assigned_in {t = t} matches organization_id user_id filter db task
        ≡ assigned_in {t = t} matches organization_id other filter db task
  unfolding assigned_in
  assigned_in_named organization_id user_id other filter db task named =
      rw (filter_assignee_named filter other named) refl

  assigned_in-assignee :
      (organization_id user_id : ℕ) (filter : TaskListFilter) (db : Db t) (task : Task) (other : ℕ)
      → filter.assignee_id ≡ some other
      → assigned_in {t = t} matches organization_id user_id filter db task ≡ true
      → task.assignee_id ≡ some other
  unfolding assigned_in
  assigned_in-assignee organization_id user_id filter db task other named held =
      let same : same_id task.assignee_id (or_keep (filter_assignee filter) (some user_id)) ≡ true =
        ground arith in
      same_id-some task.assignee_id other (
        ap (λ o. same_id task.assignee_id (or_keep o (some user_id)))
          (sym (filter_assignee_named filter other named))
        ∙ same)

  -- Where a cursor decodes to what was encoded in it, and the empty text to nothing, and where the query of
  -- someone's list of tasks has a positive limit, does not sort by the due date and names an assignee, whoever follows the cursors of that list
  -- while nothing is written gets the tasks of that assignee, and only those, whoever's list it is.
  pub list_assigned_overridden :
      (organization_id user_id other limit : ℕ) (query : TaskListQuery) (db : Db t)
      → query.sort_by ≢ due_date
      → query.limit ≡ suc limit
      → query.filter.assignee_id ≡ some other
      → (tasks : List Task) × ((fuel : ℕ)
          → length tasks < fuel
          → walk
              (λ cursor.
                list_assigned_to_user {t = t} matches decode encode organization_id user_id
                  (record query { cursor = cursor }))
              fuel
              none
              db
            ≡ some tasks)
        × ((task : Task) → Among task tasks → task.assignee_id ≡ some other)
        × ((task : Task)
            → Among task tasks ↔ (
                (assigned_in {t = t} matches organization_id other query.filter db task ≡ true)
                × (t.task.get task.id db.tasks ≡ some task)))
  list_assigned_overridden organization_id user_id other limit query db not_due positive named =
      let (tasks, walked, all, _, _) =
        walk-list_assigned organization_id user_id limit query db not_due positive in
      (
        tasks,
        walked,
        (λ task among.
            assigned_in-assignee organization_id user_id query.filter db task other named
              ((all task).0 among).0),
        (λ task.
            subst (λ b. Among task tasks ↔ ((b ≡ true) × (t.task.get task.id db.tasks ≡ some task)))
              (assigned_in_named organization_id user_id other query.filter db task named)
              (all task)),
      )
