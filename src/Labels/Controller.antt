-- ===== src/Labels/Controller.antt =====
-- apps/api/src/modules/labels/labels.controller.ts, require-label.middleware.ts and labels.routes.ts, with
-- `setLabels` of apps/api/src/modules/tasks/tasks.controller.ts: every request that writes labels.
use tasks_platform.Common.{ℕ, String, Bool, Option, some, List, [], ◌∷◌}
use tasks_platform.Errors.{not_found}
use tasks_platform.Authorization.Permissions.{label_manage}
use tasks_platform.Database.Labels.{Label}
use tasks_platform.Database.Client.{Db, Prisma, Action, pure, or_throw, ◌>>=◌, ◌>>◌}
use tasks_platform.Members.Gate.{
  AuthContext, MembershipContext, require_membership, require_permission,
}
use tasks_platform.Activity.Service.{Generated}
use tasks_platform.Tasks.Controller.{enter_task}
use tasks_platform.Tasks.Labels as TaskLabels
use tasks_platform.Labels.Service
use tasks_platform.Labels.Service.{UpdateLabelInput}

-- The number in front of a body is the path's organization, then the label; or the organization, the project
-- and the task.
pub data Request : Type 0 where
  create : ℕ → String → String → Request
  update : ℕ → ℕ → UpdateLabelInput → Request
  remove : ℕ → ℕ → Request
  set_labels : ℕ → ℕ → ℕ → List ℕ → Request

pub record Draws : Type 0 where
  pub generated : Generated
  pub label_id : ℕ
  pub now : ℕ

module _ (prisma : Prisma) (above same_lower : String → String → Bool) where
  unfoldable pub require_label : ℕ → MembershipContext → Action prisma.tables Label
  require_label label_id membership = do
    label ← Service.find_by_id label_id membership.organization_id
    or_throw label (not_found (some "Label not found"))

  -- `requireMembership` and `requirePermission('label:manage')`
  unfoldable pub enter_labels : Option AuthContext → ℕ → Action prisma.tables MembershipContext
  enter_labels auth organization_id = do
    membership ← require_membership auth organization_id
    require_permission label_manage auth (some membership)
    pure membership

  unfoldable pub serve : Option AuthContext → Draws → Request → Action prisma.tables (Unit {0})
  serve auth draws (create organization_id name color) = do
    membership ← enter_labels auth organization_id
    Service.create draws.label_id draws.now membership.organization_id name color
    pure tt
  serve auth draws (update organization_id label_id input) = do
    membership ← enter_labels auth organization_id
    label ← require_label label_id membership
    Service.update same_lower label input
    pure tt
  serve auth draws (remove organization_id label_id) = do
    membership ← enter_labels auth organization_id
    label ← require_label label_id membership
    Service.remove label
  serve auth draws (set_labels organization_id project_id task_id label_ids) = do
    (membership, task, actor) ← enter_task prisma auth organization_id project_id task_id
    TaskLabels.set_labels prisma above draws.generated task actor membership.organization_id
        label_ids
    pure tt

  -- Requests one after another, each by its own caller, whatever becomes of each.
  unfoldable pub serve_all :
      List (Option AuthContext × Draws × Request) → Db prisma.tables → Db prisma.tables
  serve_all [] db = db
  serve_all ((auth, draws, request) ∷ rest) db = serve_all rest (serve auth draws request db).1
