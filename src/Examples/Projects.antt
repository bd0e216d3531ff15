-- ===== src/Examples/Projects.antt =====
-- Projects and pages.
use tasks_platform.Common.{◌≡◌, refl, none, some, ◌==◌, if◌then◌else◌}
use tasks_platform.Authorization.Permissions.{admin}
use tasks_platform.Authorization.Actor.{user}
use tasks_platform.Database.Client.{Db, err, prisma_error}
use tasks_platform.Database.Instance.{memory_tables}
use tasks_platform.Projects.Service
use tasks_platform.Projects.Keys.{create_deleted_key}
use tasks_platform.Examples.Rows.{db, project}

-- The same database once the project is deleted.
abbrev deleted_db : Db memory_tables
deleted_db = record db {
  projects = record {
    bound = 2;
    row = λ k. if k == 1 then some (record project { deleted_at = some 5 }) else none;
  };
}

create_deleted_key_example :
    Service.create 2 7 1 (user 2 admin) "WEB" "Website again" none deleted_db
    ≡ (err prisma_error, deleted_db)
unfolding tasks_platform.Database.Memory.Scan.first_below
create_deleted_key_example =
    create_deleted_key memory_tables 2 7 1 (user 2 admin) "WEB" "Website again" none deleted_db 1
      refl refl refl refl
