-- ===== src/Tasks/Lists.antt =====
-- The lists of apps/api/src/modules/tasks/tasks.service.ts and tasks.repository.ts. How a title is searched,
-- with no regard to case, is a parameter, as are the encoding and the decoding of a cursor.
pub mod Complete
use tasks_platform.Common.{
  ℕ, String, Bool, true, false, ◌&&◌, ◌||◌, not, Option, none, some, ◌==◌, ltb, leb, str_eq,
  is_some, is_id, or_keep, if◌then◌else◌,
}
use tasks_platform.Database.Schema.{Project, Task, Task_key, TaskStatus, TaskPriority}
use tasks_platform.Database.Client.{Tables, Db, Action}
use tasks_platform.Pagination.Page.{Page}
use tasks_platform.Pagination.Listing.{list_page}
use tasks_platform.Tasks.Service.{status_index, priority_index}

pub data TaskSortBy : Type 0 where
  created_at due_date priority : TaskSortBy

pub data TaskSortOrder : Type 0 where
  asc desc : TaskSortOrder

pub record TaskListFilter : Type 0 where
  pub status : Option TaskStatus
  pub priority : Option TaskPriority
  pub assignee_id : Option ℕ
  pub unassigned : Option Bool
  pub due_before : Option ℕ
  pub due_after : Option ℕ
  pub search : Option String
  pub label_id : Option ℕ

pub record TaskListQuery : Type 0 where
  pub filter : TaskListFilter
  pub sort_by : TaskSortBy
  pub sort_order : TaskSortOrder
  pub cursor : Option String
  pub limit : ℕ

-- A condition that a filter may give: `true` where it does not.
abbrev pub given : {V : Type 0} → (V → Bool) → Option V → Bool
given test none = true
given test (some v) = test v

abbrev pub same_id : Option ℕ → Option ℕ → Bool
same_id none none = true
same_id none (some b) = false
same_id (some a) o = is_id o a

-- `lt` and `gt` hold of no null.
abbrev pub before_time : Option ℕ → ℕ → Bool
before_time none time = false
before_time (some t) time = ltb t time

abbrev pub after_time : Option ℕ → ℕ → Bool
after_time none time = false
after_time (some t) time = ltb time t

abbrev pub or_unassigned : Option Bool → Option (Option ℕ)
or_unassigned none = none
or_unassigned (some wanted) = if wanted then some none else none

-- `where.assigneeId`, if it is set
unfoldable pub filter_assignee : TaskListFilter → Option (Option ℕ)
filter_assignee filter = assigned_to filter.assignee_id
  where
    assigned_to : Option ℕ → Option (Option ℕ)
    assigned_to none = or_unassigned filter.unassigned
    assigned_to (some id) = some (some id)

-- What a sort goes by. PostgreSQL has a null above every value.
abbrev pub sort_value : TaskSortBy → Task → Option ℕ
sort_value created_at task = some task.created_at
sort_value due_date task = task.due_date
sort_value priority task = some (priority_index task.priority)

abbrev pub below : Option ℕ → Option ℕ → Bool
below none b = false
below (some a) none = true
below (some a) (some b) = ltb a b

-- `[{ [sortBy]: sortOrder }, { id: 'asc' }]`
unfoldable pub task_before : TaskSortBy → TaskSortOrder → Task → Task → Bool
task_before sort_by asc a b =
    below (sort_value sort_by a) (sort_value sort_by b)
    || (not (below (sort_value sort_by b) (sort_value sort_by a)) && leb a.id b.id)
task_before sort_by desc a b =
    below (sort_value sort_by b) (sort_value sort_by a)
    || (not (below (sort_value sort_by a) (sort_value sort_by b)) && leb a.id b.id)

abbrev pub live_in : ℕ → Option Project → Bool
live_in organization_id none = false
live_in organization_id (some project) =
    project.organization_id == organization_id && not (is_some project.deleted_at)

module _ {t : Tables} (matches : String → String → Bool) where
  -- `buildFilterWhere`, but for the assignee
  unfoldable pub meets : TaskListFilter → Db t → Task → Bool
  meets filter db task =
      given (λ status. status_index task.status == status_index status) filter.status
      && given (λ priority. priority_index task.priority == priority_index priority) filter.priority
      && given (before_time task.due_date) filter.due_before
      && given (after_time task.due_date) filter.due_after
      && given (λ search. str_eq search "" || matches task.title search) filter.search
      && given (λ label. t.task_label.holds task.id label db.task_labels) filter.label_id

  -- `{ projectId, deletedAt: null, ...buildFilterWhere(filter) }`
  unfoldable pub in_project : ℕ → TaskListFilter → Db t → Task → Bool
  unfolding meets filter_assignee
  in_project project_id filter db task =
      task.project_id == project_id
      && not (is_some task.deleted_at)
      && given (same_id task.assignee_id) (filter_assignee filter)
      && meets filter db task

  -- `{ assigneeId: userId, deletedAt: null, project: …, ...buildFilterWhere(filter) }`: what the filter sets
  -- for the assignee replaces the user.
  unfoldable pub assigned_in : ℕ → ℕ → TaskListFilter → Db t → Task → Bool
  unfolding meets filter_assignee
  assigned_in organization_id user_id filter db task =
      same_id task.assignee_id (or_keep (filter_assignee filter) (some user_id))
      && not (is_some task.deleted_at)
      && live_in organization_id (t.project.get task.project_id db.projects)
      && meets filter db task

  module _ (decode : String → Option ℕ) (encode : ℕ → String) where
    unfoldable pub list : ℕ → TaskListQuery → Action t (Page Task)
    unfolding in_project task_before
    list project_id query db =
        list_page t.task decode encode (in_project project_id query.filter db)
          (task_before query.sort_by query.sort_order) query.cursor query.limit db.tasks db

    unfoldable pub list_assigned_to_user : ℕ → ℕ → TaskListQuery → Action t (Page Task)
    unfolding assigned_in task_before
    list_assigned_to_user organization_id user_id query db =
        list_page t.task decode encode (assigned_in organization_id user_id query.filter db)
          (task_before query.sort_by query.sort_order) query.cursor query.limit db.tasks db
