-- ===== src/Tasks/Controller.antt =====
-- apps/api/src/modules/tasks/tasks.controller.ts and require-task.middleware.ts with the routes of
-- tasks.routes.ts: every request that writes a task runs through requireMembership, requireProject and
-- either requirePermission or requireTask before its handler.
use tasks_platform.Common.{ℕ, Option, some, List, [], ◌∷◌}
use tasks_platform.Errors.{not_found}
use tasks_platform.Authorization.Permissions.{task_create}
use tasks_platform.Authorization.Actor.{Actor}
use tasks_platform.Database.Schema.{Project, Task}
use tasks_platform.Database.Client.{Db, Prisma, Action, pure, or_throw, ◌>>=◌, ◌>>◌}
use tasks_platform.Members.Gate.{
  AuthContext, MembershipContext, require_membership, require_permission, require_actor,
}
use tasks_platform.Projects.Gate.{require_project}
use tasks_platform.Activity.Service.{Generated}
use tasks_platform.Tasks.Repository
use tasks_platform.Tasks.Service
use tasks_platform.Tasks.Service.{CreateTaskRequest, UpdateTaskRequest}

-- The requests that write a task. The numbers in front of a body are the path's: the organization,
-- the project and the task.
pub data Request : Type 0 where
  create : ℕ → ℕ → CreateTaskRequest → Request
  update : ℕ → ℕ → ℕ → UpdateTaskRequest → Request
  remove : ℕ → ℕ → ℕ → Request
  assign : ℕ → ℕ → ℕ → ℕ → Request
  unassign : ℕ → ℕ → ℕ → Request

-- What the database and the clock give a request: the keys of its entries and events, the key of the
-- task if it creates one, and the time.
pub record Draws : Type 0 where
  pub entries : ℕ → Generated
  pub task_id : ℕ
  pub now : ℕ

module _ (prisma : Prisma) where
  unfoldable pub require_task : ℕ → Project → Action prisma.tables Task
  require_task task_id project = do
    task ← Repository.find_by_id task_id project.id
    or_throw task (not_found (some "Task not found"))

  -- `requireMembership` and `requireProject`
  unfoldable pub enter :
      Option AuthContext → ℕ → ℕ → Action prisma.tables (MembershipContext × Project)
  enter auth organization_id project_id = do
    membership ← require_membership auth organization_id
    project ← require_project project_id membership.organization_id
    pure (membership, project)

  -- and `requireTask`, with the actor that the handler asks for
  unfoldable pub enter_task :
      Option AuthContext → ℕ → ℕ → ℕ → Action prisma.tables (MembershipContext × Task × Actor)
  enter_task auth organization_id project_id task_id = do
    (membership, project) ← enter auth organization_id project_id
    task ← require_task task_id project
    actor ← require_actor auth (some membership)
    pure (membership, task, actor)

  unfoldable pub serve : Option AuthContext → Draws → Request → Action prisma.tables (Unit {0})
  serve auth draws (create organization_id project_id body) = do
    (membership, project) ← enter auth organization_id project_id
    require_permission task_create auth (some membership)
    actor ← require_actor auth (some membership)
    Service.create prisma (draws.entries 0) draws.task_id project actor body
    pure tt
  serve auth draws (update organization_id project_id task_id body) = do
    (membership, task, actor) ← enter_task auth organization_id project_id task_id
    Service.update prisma draws.entries draws.now task actor membership.organization_id body
    pure tt
  serve auth draws (remove organization_id project_id task_id) = do
    (membership, task, actor) ← enter_task auth organization_id project_id task_id
    Service.remove prisma draws.now task actor
  serve auth draws (assign organization_id project_id task_id assignee_id) = do
    (membership, task, actor) ← enter_task auth organization_id project_id task_id
    Service.assign prisma (draws.entries 0) task actor membership.organization_id assignee_id
    pure tt
  serve auth draws (unassign organization_id project_id task_id) = do
    (membership, task, actor) ← enter_task auth organization_id project_id task_id
    Service.unassign prisma (draws.entries 0) task actor membership.organization_id
    pure tt

  -- Requests one after another, each by its own caller, whatever becomes of each.
  unfoldable pub serve_all :
      List (Option AuthContext × Draws × Request) → Db prisma.tables → Db prisma.tables
  serve_all [] db = db
  serve_all ((auth, draws, request) ∷ rest) db = serve_all rest (serve auth draws request db).1
