-- ===== src/Projects/Service.antt =====
-- apps/api/src/modules/projects/projects.service.ts and projects.repository.ts. A new
-- row's key and the time are arguments.
use tasks_platform.Common.{
  ℕ, String, Bool, true, false, ◌&&◌, not, Option, none, some, ◌==◌, str_eq, is_some, or_keep,
}
use tasks_platform.Errors.{conflict}
use tasks_platform.Authorization.Actor.{Actor, actor_columns}
use tasks_platform.Database.Schema.{Project, Project_key, ProjectStatus, active, archived}
use tasks_platform.Database.Client.{Tables, Action, ok, refuse, stored, changed, pure, ◌>>=◌, ◌>>◌}
use tasks_platform.Pagination.Page.{Page}
use tasks_platform.Pagination.Orders.{newest_first}
use tasks_platform.Pagination.Listing.{list_page}

pub record CreateProjectInput : Type 0 where
  pub organization_id : ℕ
  pub key : String
  pub name : String
  pub description : Option String
  pub created_by_id : Option ℕ
  pub created_by_api_key_id : Option ℕ

pub record UpdateProjectInput : Type 0 where
  pub name : Option String
  pub description : Option (Option String)

abbrev pub project_row : ℕ → ℕ → CreateProjectInput → Project
project_row id now input = record {
  id = id;
  organization_id = input.organization_id;
  key = input.key;
  name = input.name;
  description = input.description;
  status = active;
  task_counter = 0;
  created_by_id = input.created_by_id;
  created_by_api_key_id = input.created_by_api_key_id;
  created_at = now;
  deleted_at = none;
}

-- `where: { organizationId, key, deletedAt: null }`
abbrev pub live_key : ℕ → String → Project → Bool
live_key organization_id key project =
    project.organization_id == organization_id
    && str_eq project.key key
    && not (is_some project.deleted_at)

abbrev pub renamed : UpdateProjectInput → Project → Project
renamed input project = record project {
  name = or_keep input.name project.name;
  description = or_keep input.description project.description;
}

abbrev pub with_status : ProjectStatus → Project → Project
with_status status project = record project { status = status }

abbrev pub removed : ℕ → Project → Project
removed now project = record project { deleted_at = some now }

abbrev pub is_archived : ProjectStatus → Bool
is_archived active = false
is_archived archived = true

abbrev pub new_project : ℕ → ℕ → ℕ → Actor → String → String → Option String → Project
new_project id now organization_id actor key name description = project_row id now (record {
  organization_id = organization_id;
  key = key;
  name = name;
  description = description;
  created_by_id = (actor_columns actor).user_id;
  created_by_api_key_id = (actor_columns actor).api_key_id;
})

module _ {t : Tables} where
  -- projectsRepository.create
  unfoldable pub create_project : Project → Action t Project
  create_project row db =
      stored (t.project.create row db.projects) (λ rows. record db { projects = rows }) row db

  unfoldable pub find_by_key : ℕ → String → Action t (Option Project)
  find_by_key organization_id key db =
      (ok (t.project.find_first (live_key organization_id key) db.projects), db)

  -- The `update` by id of projectsRepository's update, updateStatus and softDelete.
  unfoldable pub change_project : ℕ → (Project → Project) → Action t Project
  change_project id f db =
      changed (t.project.update id f db.projects) (λ rows. record db { projects = rows }) db

  unfoldable pub create : ℕ → ℕ → ℕ → Actor → String → String → Option String → Action t Project
  create id now organization_id actor key name description = do
    existing ← find_by_key organization_id key
    refuse (is_some existing)
        (conflict (some "A project with this key already exists in the organization"))
    create_project (new_project id now organization_id actor key name description)

  unfoldable pub update : Project → UpdateProjectInput → Action t Project
  update project input = change_project project.id (renamed input)

  unfoldable pub archive : Project → Action t Project
  archive project = do
    refuse (is_archived project.status) (conflict (some "Project is already archived"))
    change_project project.id (with_status archived)

  unfoldable pub unarchive : Project → Action t Project
  unarchive project = do
    refuse (not (is_archived project.status)) (conflict (some "Project is already active"))
    change_project project.id (with_status active)

  unfoldable pub remove : ℕ → Project → Action t (Unit {0})
  remove now project = change_project project.id (removed now) >> pure tt

abbrev pub with_given_status : Option ProjectStatus → Project → Bool
with_given_status none project = true
with_given_status (some active) project = not (is_archived project.status)
with_given_status (some archived) project = is_archived project.status

-- `{ organizationId, deletedAt: null, ...(filter.status ? { status: filter.status } : {}) }`
abbrev pub listed_project : ℕ → Option ProjectStatus → Project → Bool
listed_project organization_id status project =
    project.organization_id == organization_id
    && not (is_some project.deleted_at)
    && with_given_status status project

abbrev pub project_order : Project → Project → Bool
project_order = newest_first (λ project. project.created_at) Project_key

module _ {t : Tables} (decode : String → Option ℕ) (encode : ℕ → String) where
  unfoldable pub list : ℕ → Option ProjectStatus → Option String → ℕ → Action t (Page Project)
  list organization_id status cursor limit db =
      list_page t.project decode encode (listed_project organization_id status) project_order cursor
        limit db.projects db
