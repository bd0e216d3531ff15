-- ===== src/Tasks/Repository.antt =====
-- apps/api/src/modules/tasks/tasks.repository.ts and tasks.types.ts: the queries on the tasks. The
-- joined columns, which a query only adds to what it returns, are left out.
use tasks_platform.Common.{
  ℕ, ◌+◌, String, Bool, ◌&&◌, not, Option, none, some, ◌==◌, is_some, or_keep, leb, if◌then◌else◌,
}
use tasks_platform.Errors.{other}
use tasks_platform.Database.Schema.{Project, Task, TaskStatus, todo, TaskPriority}
use tasks_platform.Database.Client.{
  Tables, Db, Action, ok, err, pure, stored, changed, prisma_error, continue, ◌>>=◌,
}

pub record CreateTaskInput : Type 0 where
  pub project_id : ℕ
  pub title : String
  pub description : Option String
  pub priority : TaskPriority
  pub assignee_id : Option ℕ
  pub due_date : Option ℕ
  pub created_by_id : Option ℕ
  pub created_by_api_key_id : Option ℕ

-- A property that is absent leaves its column; one that is null clears it.
pub record UpdateTaskInput : Type 0 where
  pub title : Option String
  pub description : Option (Option String)
  pub status : Option TaskStatus
  pub priority : Option TaskPriority
  pub due_date : Option (Option ℕ)
  pub completed_at : Option (Option ℕ)

abbrev pub task_row : ℕ → ℕ → ℕ → CreateTaskInput → Task
task_row id now number input = record {
  id = id;
  project_id = input.project_id;
  number = number;
  title = input.title;
  description = input.description;
  status = todo;
  priority = input.priority;
  assignee_id = input.assignee_id;
  created_by_id = input.created_by_id;
  created_by_api_key_id = input.created_by_api_key_id;
  due_date = input.due_date;
  completed_at = none;
  version = 1;
  created_at = now;
  deleted_at = none;
}

-- `{ ...input, version: { increment: 1 } }`
abbrev pub patched : UpdateTaskInput → Task → Task
patched input task = record task {
  title = or_keep input.title task.title;
  description = or_keep input.description task.description;
  status = or_keep input.status task.status;
  priority = or_keep input.priority task.priority;
  due_date = or_keep input.due_date task.due_date;
  completed_at = or_keep input.completed_at task.completed_at;
  version = task.version + 1;
}

abbrev pub assigned : Option ℕ → Task → Task
assigned assignee_id task = record task { assignee_id = assignee_id; version = task.version + 1 }

abbrev pub deleted : ℕ → Task → Task
deleted now task = record task { deleted_at = some now }

abbrev pub counted : Project → Project
counted project = record project { task_counter = project.task_counter + 1 }

-- `where: { id, version }`
abbrev pub at_version : ℕ → ℕ → Task → Bool
at_version id version task = task.id == id && task.version == version

-- `where: { id, projectId, deletedAt: null }`
abbrev pub live_task : ℕ → ℕ → Task → Bool
live_task id project_id task =
    task.id == id && task.project_id == project_id && not (is_some task.deleted_at)

module _ {t : Tables} where
  -- `UPDATE "Project" SET "taskCounter" = "taskCounter" + 1 WHERE id = … RETURNING "taskCounter"`;
  -- the column has 32 bits with a sign, and a greater number is an error
  unfoldable pub claim_number : ℕ → Action t ℕ
  claim_number project_id db = elim (t.project.update project_id counted db.projects) [
    | none ↦ (err (other "Error" "Cannot claim a task number: project does not exist"), db)
    | some (project, rows) ↦
        if leb project.task_counter 2147483647
        then (ok project.task_counter, record db { projects = rows })
        else (err prisma_error, db)
  ]

  unfoldable pub create_with_next_number : ℕ → ℕ → CreateTaskInput → Action t Task
  create_with_next_number id now input = claim_number input.project_id >>= λ number db.
      stored (t.task.create (task_row id now number input) db.tasks)
        (λ rows. record db { tasks = rows }) (task_row id now number input) db

  unfoldable pub find_by_id : ℕ → ℕ → Action t (Option Task)
  find_by_id id project_id db = (ok (t.task.find_first (live_task id project_id) db.tasks), db)

  -- `findUniqueOrThrow`
  unfoldable pub find_unique_or_throw : ℕ → Action t Task
  find_unique_or_throw id db = elim (t.task.get id db.tasks) [
    | none ↦ (err prisma_error, db)
    | some task ↦ (ok task, db)
  ]

  unfoldable pub update_with_version : ℕ → ℕ → UpdateTaskInput → Action t (Option Task)
  update_with_version id expected_version input db =
      let after : Db t = record db {
        tasks = t.task.update_many (at_version id expected_version) (patched input) db.tasks;
      } in
      if t.task.count (at_version id expected_version) db.tasks == 0
      then (ok none, after)
      else continue (find_unique_or_throw id after) (λ row. pure (some row))

  unfoldable pub assign : ℕ → Option ℕ → Action t Task
  assign id assignee_id db =
      changed (t.task.update id (assigned assignee_id) db.tasks)
        (λ rows. record db { tasks = rows }) db

  unfoldable pub soft_delete : ℕ → ℕ → Action t Task
  soft_delete now id db =
      changed (t.task.update id (deleted now) db.tasks) (λ rows. record db { tasks = rows }) db
