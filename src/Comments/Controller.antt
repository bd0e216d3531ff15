-- ===== src/Comments/Controller.antt =====
-- apps/api/src/modules/comments/comments.controller.ts, require-comment.middleware.ts and
-- comments.routes.ts: every request that writes a comment, with the middlewares in front of it.
use tasks_platform.Common.{ℕ, String, Option, some}
use tasks_platform.Errors.{not_found}
use tasks_platform.Authorization.Permissions.{comment_create, comment_update_own}
use tasks_platform.Database.Schema.{Task}
use tasks_platform.Database.Integrations.{Comment}
use tasks_platform.Database.Client.{Prisma, Action, pure, or_throw, ◌>>=◌, ◌>>◌}
use tasks_platform.Members.Gate.{
  AuthContext, MembershipContext, require_permission, require_actor, require_user_id,
}
use tasks_platform.Activity.Service.{Generated}
use tasks_platform.Tasks.Controller.{enter, require_task}
use tasks_platform.Comments.Service

-- The numbers in front of a body are the path's: the organization, the project, the task, the comment.
pub data Request : Type 0 where
  create : ℕ → ℕ → ℕ → String → Request
  update : ℕ → ℕ → ℕ → ℕ → String → Request
  remove : ℕ → ℕ → ℕ → ℕ → Request

pub record Draws : Type 0 where
  pub generated : Generated
  pub comment_id : ℕ
  pub now : ℕ

module _ (prisma : Prisma) where
  unfoldable pub require_comment : ℕ → Task → Action prisma.tables Comment
  require_comment comment_id task = do
    comment ← Service.find_by_id comment_id task.id
    or_throw comment (not_found (some "Comment not found"))

  -- `requireMembership`, `requireProject` and `requireTask`
  unfoldable pub enter_comments :
      Option AuthContext → ℕ → ℕ → ℕ → Action prisma.tables (MembershipContext × Task)
  enter_comments auth organization_id project_id task_id = do
    (membership, project) ← enter prisma auth organization_id project_id
    task ← require_task prisma task_id project
    pure (membership, task)

  unfoldable pub serve : Option AuthContext → Draws → Request → Action prisma.tables (Unit {0})
  serve auth draws (create organization_id project_id task_id body) = do
    (membership, task) ← enter_comments auth organization_id project_id task_id
    require_permission comment_create auth (some membership)
    actor ← require_actor auth (some membership)
    Service.create prisma draws.generated draws.comment_id task.id membership.organization_id actor
        body
    pure tt
  serve auth draws (update organization_id project_id task_id comment_id body) = do
    (membership, task) ← enter_comments auth organization_id project_id task_id
    require_permission comment_update_own auth (some membership)
    comment ← require_comment comment_id task
    actor_id ← require_user_id auth
    Service.update draws.now comment actor_id body
    pure tt
  serve auth draws (remove organization_id project_id task_id comment_id) = do
    (membership, task) ← enter_comments auth organization_id project_id task_id
    comment ← require_comment comment_id task
    actor ← require_actor auth (some membership)
    Service.remove draws.now comment actor
