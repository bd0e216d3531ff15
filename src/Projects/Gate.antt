-- ===== src/Projects/Gate.antt =====
-- `findById` of apps/api/src/modules/projects/projects.repository.ts and
-- apps/api/src/modules/projects/require-project.middleware.ts.
use tasks_platform.Common.{ℕ, Bool, ◌&&◌, not, Option, some, ◌==◌, is_some}
use tasks_platform.Errors.{not_found}
use tasks_platform.Database.Schema.{Project}
use tasks_platform.Database.Client.{Tables, Action, ok, or_throw, ◌>>=◌}

-- `where: { id, organizationId, deletedAt: null }`
abbrev pub live_project : ℕ → ℕ → Project → Bool
live_project id organization_id project =
    project.id == id
    && project.organization_id == organization_id
    && not (is_some project.deleted_at)

module _ {t : Tables} where
  unfoldable pub find_by_id : ℕ → ℕ → Action t (Option Project)
  find_by_id id organization_id db =
      (ok (t.project.find_first (live_project id organization_id) db.projects), db)

  unfoldable pub require_project : ℕ → ℕ → Action t Project
  require_project project_id organization_id = do
    project ← find_by_id project_id organization_id
    or_throw project (not_found (some "Project not found"))
