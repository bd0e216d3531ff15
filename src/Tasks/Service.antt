-- ===== src/Tasks/Service.antt =====
-- apps/api/src/modules/tasks/tasks.service.ts.
use tasks_platform.Common.{
  ℕ, ◌++◌, String, Bool, true, false, ◌&&◌, ◌||◌, not, Option, none, some, List, [], ◌∷◌, ◌==◌,
  str_eq, is_some, is_id, if◌then◌else◌,
}
use tasks_platform.Errors.{conflict, forbidden, unprocessable_entity}
use tasks_platform.Authorization.Permissions.{
  task_update_any, task_update_own, task_delete_any, task_delete_own, task_assign, task_assign_self,
}
use tasks_platform.Authorization.Actor.{
  Actor, user, api_key, actor_has_permission, can_actor_act_on_resource, actor_columns,
}
use tasks_platform.Database.Schema.{
  Project, Task, TaskStatus, todo, in_progress, done, cancelled, TaskPriority, low, medium, high,
  urgent, Json, null, text, status_of, priority_of, iso_date, uuid, created_task, TaskActivityType,
  task_created, status_changed, priority_changed, assignee_changed, due_date_changed, title_changed,
}
use tasks_platform.Database.Client.{Prisma, Action, pure, refuse, ensure, or_throw, ◌>>=◌, ◌>>◌}
use tasks_platform.Members.Repository as Members
use tasks_platform.Activity.Service.{Generated, RecordActivityInput, record_change, record_changes}
use tasks_platform.Tasks.Repository
use tasks_platform.Tasks.Repository.{CreateTaskInput, UpdateTaskInput}

-- `===` on the values of the two enumerations
abbrev pub status_index : TaskStatus → ℕ
status_index todo = 0
status_index in_progress = 1
status_index done = 2
status_index cancelled = 3

abbrev pub priority_index : TaskPriority → ℕ
priority_index low = 0
priority_index medium = 1
priority_index high = 2
priority_index urgent = 3

abbrev pub is_done : TaskStatus → Bool
is_done status = status_index status == status_index done

abbrev pub is_own_task : Task → Actor → Bool
is_own_task task (user id role) = is_id task.created_by_id id || is_id task.assignee_id id
is_own_task task (api_key id scopes) = false

-- The bodies of the requests.
pub record CreateTaskRequest : Type 0 where
  pub title : String
  pub description : Option String
  pub priority : TaskPriority
  pub assignee_id : Option ℕ
  pub due_date : Option ℕ

pub record UpdateTaskRequest : Type 0 where
  pub title : Option String
  pub description : Option (Option String)
  pub status : Option TaskStatus
  pub priority : Option TaskPriority
  pub due_date : Option (Option ℕ)
  pub version : ℕ

-- `date ? date.toISOString() : null`
abbrev pub iso_of : Option ℕ → Json
iso_of none = null
iso_of (some date) = iso_date date

abbrev pub same_date : Option ℕ → Option ℕ → Bool
same_date none none = true
same_date (some a) b = is_id b a
same_date none (some b) = false

abbrev pub uuid_of : Option ℕ → Json
uuid_of none = null
uuid_of (some id) = uuid id

abbrev pub change : Task → Actor → ℕ → TaskActivityType → Json → Json → RecordActivityInput
change task actor organization_id type before after = record {
  task_id = task.id;
  organization_id = organization_id;
  actor = actor;
  type = type;
  before = before;
  after = after;
}

module _ (before after : Task) (actor : Actor) (organization_id : ℕ) where
  abbrev pub title_entries : Option String → List RecordActivityInput
  title_entries none = []
  title_entries (some title) =
      if str_eq title before.title
      then []
      else change after actor organization_id title_changed (text before.title) (text after.title)
        ∷ []

  abbrev pub status_entries : Option TaskStatus → List RecordActivityInput
  status_entries none = []
  status_entries (some status) =
      if status_index status == status_index before.status
      then []
      else change after actor organization_id status_changed (status_of before.status)
          (status_of after.status)
        ∷ []

  abbrev pub priority_entries : Option TaskPriority → List RecordActivityInput
  priority_entries none = []
  priority_entries (some priority) =
      if priority_index priority == priority_index before.priority
      then []
      else change after actor organization_id priority_changed (priority_of before.priority)
          (priority_of after.priority)
        ∷ []

  abbrev pub due_date_entries : Option (Option ℕ) → List RecordActivityInput
  due_date_entries none = []
  due_date_entries (some due_date) =
      if same_date before.due_date after.due_date
      then []
      else change after actor organization_id due_date_changed (iso_of before.due_date)
          (iso_of after.due_date)
        ∷ []

  unfoldable pub diff_task_fields : UpdateTaskRequest → List RecordActivityInput
  diff_task_fields input =
      title_entries input.title
      ++ (status_entries input.status
          ++ (priority_entries input.priority ++ due_date_entries input.due_date))

-- What `update` does to `completedAt`, given the status that it was called with.
abbrev pub completion : Option TaskStatus → TaskStatus → ℕ → Option (Option ℕ)
completion none old now = none
completion (some new) old now =
    if is_done new && not (is_done old)
    then some (some now)
    else if not (is_done new) && is_done old
    then some none
    else none

abbrev pub patch_of : UpdateTaskRequest → TaskStatus → ℕ → UpdateTaskInput
patch_of input old now = record {
  title = input.title;
  description = input.description;
  status = input.status;
  priority = input.priority;
  due_date = input.due_date;
  completed_at = completion input.status old now;
}

abbrev pub create_input : Project → Actor → CreateTaskRequest → CreateTaskInput
create_input project actor input = record {
  project_id = project.id;
  title = input.title;
  description = input.description;
  priority = input.priority;
  assignee_id = input.assignee_id;
  due_date = input.due_date;
  created_by_id = (actor_columns actor).user_id;
  created_by_api_key_id = (actor_columns actor).api_key_id;
}

module _ (prisma : Prisma) where
  unfoldable pub assert_assignee_is_member : ℕ → ℕ → Action prisma.tables (Unit {0})
  assert_assignee_is_member organization_id assignee_id = do
    membership ← Members.find_by_user_and_organization assignee_id organization_id
    or_throw membership
        (unprocessable_entity (some "The assignee must be a member of the organization"))
    pure tt

  abbrev pub assert_assignee : ℕ → Option ℕ → Action prisma.tables (Unit {0})
  assert_assignee organization_id none = pure tt
  assert_assignee organization_id (some assignee_id) =
      assert_assignee_is_member organization_id assignee_id

  -- The block of the transaction in `create`.
  unfoldable pub create_block :
      Generated → ℕ → Project → Actor → CreateTaskRequest → Action prisma.tables Task
  create_block g id project actor input = do
    task ← Repository.create_with_next_number id g.now (create_input project actor input)
    record_change g (
        change task actor project.organization_id task_created null
          (created_task task.title task.status))
    pure task

  unfoldable pub create :
      Generated → ℕ → Project → Actor → CreateTaskRequest → Action prisma.tables Task
  create g id project actor input = do
    assert_assignee project.organization_id input.assignee_id
    prisma.transaction Task (create_block g id project actor input)

  -- The block of the transaction in `update`.
  unfoldable pub update_block :
      (ℕ → Generated) → ℕ → Task → Actor → ℕ → UpdateTaskRequest → Action prisma.tables Task
  update_block g now task actor organization_id input = do
    result ← Repository.update_with_version task.id input.version (patch_of input task.status now)
    updated ←
        or_throw result (conflict (some "Task was modified by someone else; reload and try again"))
    record_changes g (diff_task_fields task updated actor organization_id input)
    pure updated

  unfoldable pub update :
      (ℕ → Generated) → ℕ → Task → Actor → ℕ → UpdateTaskRequest → Action prisma.tables Task
  update g now task actor organization_id input = do
    ensure
        (can_actor_act_on_resource actor task_update_any task_update_own (is_own_task task actor))
        (forbidden (some "Missing permission: task:update:own or task:update:any"))
    prisma.transaction Task (update_block g now task actor organization_id input)

  unfoldable pub remove : ℕ → Task → Actor → Action prisma.tables (Unit {0})
  remove now task actor = do
    ensure
        (can_actor_act_on_resource actor task_delete_any task_delete_own (is_own_task task actor))
        (forbidden (some "Missing permission: task:delete:own or task:delete:any"))
    Repository.soft_delete now task.id
    pure tt

  -- The block of the transactions in `assign` and `unassign`.
  unfoldable pub assign_block : Generated → Task → Actor → ℕ → Option ℕ → Action prisma.tables Task
  assign_block g task actor organization_id assignee_id = do
    updated ← Repository.assign task.id assignee_id
    record_change g (
        change task actor organization_id assignee_changed (uuid_of task.assignee_id)
          (uuid_of assignee_id))
    pure updated

  -- What `task:assign:self` alone lets a user do.
  unfoldable pub assert_may_take : Task → Actor → ℕ → Action prisma.tables (Unit {0})
  assert_may_take task (api_key id scopes) assignee_id =
      ensure false (forbidden (some "Missing permission: task:assign or task:assign:self"))
  assert_may_take task (user id role) assignee_id = do
    ensure (actor_has_permission (user id role) task_assign_self)
        (forbidden (some "Missing permission: task:assign or task:assign:self"))
    ensure (assignee_id == id)
        (forbidden (some "task:assign:self only lets you assign a task to yourself"))
    refuse (is_some task.assignee_id) (conflict (some "Task already has an assignee"))

  unfoldable pub assert_may_leave : Task → Actor → Action prisma.tables (Unit {0})
  assert_may_leave task (api_key id scopes) =
      ensure false (forbidden (some "Missing permission: task:assign or task:assign:self"))
  assert_may_leave task (user id role) = do
    ensure (actor_has_permission (user id role) task_assign_self)
        (forbidden (some "Missing permission: task:assign or task:assign:self"))
    ensure (is_id task.assignee_id id)
        (forbidden (some "task:assign:self only lets you unassign yourself"))

  unfoldable pub assign : Generated → Task → Actor → ℕ → ℕ → Action prisma.tables Task
  assign g task actor organization_id assignee_id = do
    if actor_has_permission actor task_assign
        then pure tt
        else assert_may_take task actor assignee_id
    assert_assignee_is_member organization_id assignee_id
    prisma.transaction Task (assign_block g task actor organization_id (some assignee_id))

  unfoldable pub unassign : Generated → Task → Actor → ℕ → Action prisma.tables Task
  unassign g task actor organization_id = do
    if actor_has_permission actor task_assign then pure tt else assert_may_leave task actor
    prisma.transaction Task (assign_block g task actor organization_id none)
