-- ===== src/Examples/Rows.antt =====
-- A small database: one organization with an owner, an administrator and a member, a project and
-- its one task.
use tasks_platform.Common.{ℕ, ◌+◌, none, some, ◌==◌, if◌then◌else◌}
use tasks_platform.Authorization.Permissions.{Role, owner, admin, member}
use tasks_platform.Database.Schema.{Organization, Membership, Project, active, Task, todo, medium}
use tasks_platform.Database.Client.{Db}
use tasks_platform.Database.Instance.{memory_tables, empty_db}
use tasks_platform.Activity.Service.{Generated}
use tasks_platform.Tasks.Service.{UpdateTaskRequest, CreateTaskRequest}
use tasks_platform.Tasks.Controller.{Draws}
use tasks_platform.Database.Schema.{done}

abbrev pub acme : Organization
acme = record { id = 1; name = "Acme"; slug = "acme"; created_at = 0; deleted_at = none }

abbrev pub membership : ℕ → Role → Membership
membership id role = record {
  id = id;
  user_id = id;
  organization_id = 1;
  role = role;
  joined_at = 0;
}

abbrev pub project : Project
project = record {
  id = 1;
  organization_id = 1;
  key = "WEB";
  name = "Website";
  description = none;
  status = active;
  task_counter = 1;
  created_by_id = some 1;
  created_by_api_key_id = none;
  created_at = 0;
  deleted_at = none;
}

abbrev pub task : Task
task = record {
  id = 1;
  project_id = 1;
  number = 1;
  title = "Write the copy";
  description = none;
  status = todo;
  priority = medium;
  assignee_id = none;
  created_by_id = some 3;
  created_by_api_key_id = none;
  due_date = none;
  completed_at = none;
  version = 1;
  created_at = 0;
  deleted_at = none;
}

-- Users 1, 2 and 3 own, administer and take part in the organization.
abbrev pub db : Db memory_tables
db = record empty_db {
  organizations = record { bound = 2; row = λ k. if k == 1 then some acme else none };
  memberships = record {
    bound = 4;
    row = λ k.
        if k == 1
        then some (membership 1 owner)
        else if k == 2
        then some (membership 2 admin)
        else if k == 3
        then some (membership 3 member)
        else none;
  };
  projects = record { bound = 2; row = λ k. if k == 1 then some project else none };
  tasks = record { bound = 2; row = λ k. if k == 1 then some task else none };
}

abbrev pub generated : ℕ → ℕ → Generated
generated first n = record {
  activity_id = first + n;
  event_id = first + n;
  activity_created_at = 8;
  event_created_at = 9;
  now = 7;
}

abbrev pub draws : ℕ → Draws
draws first = record { entries = generated first; task_id = first; now = 7 }

abbrev pub finish : UpdateTaskRequest
finish = record {
  title = none;
  description = none;
  status = some done;
  priority = none;
  due_date = none;
  version = 1;
}

abbrev pub new_task : CreateTaskRequest
new_task = record {
  title = "Pick the photos";
  description = none;
  priority = medium;
  assignee_id = some 3;
  due_date = none;
}
