-- ===== src/Tasks/Invariant.antt =====
-- Through any history of requests, each of them run to its end before the next, the completion dates,
-- the numbers and the log stay as they should be.
use tasks_platform.Common.{
  ℕ, ◌≡◌, refl, sym, ap, subst, true, Option, none, some, List, [], ◌∷◌, arith,
}
use tasks_platform.Authorization.Permissions.{Permission, task_create}
use tasks_platform.Authorization.Actor.{Actor}
use tasks_platform.Database.Schema.{Project, Task}
use tasks_platform.Database.Client.{Db, Prisma, pure, ensure, or_throw}
use tasks_platform.Database.Steps.{Ends}
use tasks_platform.Database.Outcomes.{
  Reads, known-then, refused, writes_nothing, or_throw-Reads, keep_through, keeps-unit,
}
use tasks_platform.Members.Gate.{
  AuthContext, user_auth, api_key_auth, MembershipContext, require_membership, require_permission,
  require_actor, find_organization, resolve,
}
use tasks_platform.Members.Repository as Members
use tasks_platform.Projects.Gate.{require_project, find_by_id, live_project}
use tasks_platform.Activity.Service.{Generated}
use tasks_platform.Tasks.Repository
use tasks_platform.Tasks.Repository.{patched, assigned, deleted, at_version, live_task}
use tasks_platform.Tasks.Service
use tasks_platform.Tasks.Service.{CreateTaskRequest, UpdateTaskRequest, patch_of, diff_task_fields}
use tasks_platform.Tasks.Update.{update-Updated}
use tasks_platform.Tasks.Effects.{created_entry, create-Created}
use tasks_platform.Tasks.Changes.{
  with_task, assignee_entry, assign-Assigned, unassign-Assigned, remove-Removed,
}
use tasks_platform.Tasks.Sound.{
  Sound, Timed, Recorded-Sound, changed-Sound, after_creation, patched-Timed,
}
use tasks_platform.Tasks.Controller.{
  Request, Draws, require_task, enter, enter_task, serve, serve_all,
}

module _ (prisma : Prisma) where
  open prisma use {tables}

  pub require_membership-reads :
      (auth : Option AuthContext) (organization_id : ℕ) (db : Db tables)
      → (require_membership auth organization_id db).1 ≡ db
  unfolding require_membership find_organization resolve ensure or_throw
      Members.find_by_user_and_organization
  require_membership-reads none org db = refl
  require_membership-reads (some (api_key_auth id key_org scopes)) org db = ground arith
  require_membership-reads (some (user_auth id)) org db = ground arith

  pub require_permission-reads :
      (permission : Permission) (auth : Option AuthContext) (m : MembershipContext) (db : Db tables)
      → (require_permission permission auth (some m) db).1 ≡ db
  unfolding require_permission ensure
  require_permission-reads p none m db = refl
  require_permission-reads p (some (api_key_auth id org scopes)) m db = ground arith
  require_permission-reads p (some (user_auth id)) m db = ground arith

  pub require_actor-reads :
      (auth : Option AuthContext) (m : MembershipContext) (db : Db tables)
      → (require_actor auth (some m) db).1 ≡ db
  unfolding require_actor or_throw
  require_actor-reads none m db = refl
  require_actor-reads (some (api_key_auth id org scopes)) m db = refl
  require_actor-reads (some (user_auth id)) m db = ground arith

  pub require_project-Reads :
      (project_id organization_id : ℕ) (db : Db tables)
      → Ends
          (Reads db (λ project.
            tables.project.find_first (live_project project_id organization_id) db.projects
            ≡ some project))
          (require_project project_id organization_id db)
  unfolding require_project find_by_id
  require_project-Reads project_id org db = or_throw-Reads db _ _

  pub require_task-Reads :
      (task_id : ℕ) (project : Project) (db : Db tables)
      → Ends
          (Reads db
            (λ task. tables.task.find_first (live_task task_id project.id) db.tasks ≡ some task))
          (require_task prisma task_id project db)
  unfolding require_task Repository.find_by_id
  require_task-Reads task_id project db = or_throw-Reads db _ _

  pub enter-Reads :
      (auth : Option AuthContext) (organization_id project_id : ℕ) (db : Db tables)
      → Ends
          (Reads db (λ entered. tables.project.get entered.1.id db.projects ≡ some entered.1))
          (enter prisma auth organization_id project_id db)
  unfolding enter
  enter-Reads auth org project_id db =
      known-then _ _
        (writes_nothing (require_membership auth org db) (require_membership-reads auth org db))
        (λ _. refused)
        λ (m : MembershipContext) _.
          known-then _ (λ project. pure (m, project))
            (require_project-Reads project_id m.organization_id db) (λ _. refused)
            λ project found. record {
              holds = (refl, (tables.project.find_first-some _ db.projects project found).1);
            }

  -- The task that a handler is given is the stored one.
  enter_task-Reads :
      (auth : Option AuthContext) (organization_id project_id task_id : ℕ) (db : Db tables)
      → Ends
          (Reads db (λ entered. tables.task.get entered.1.id db.tasks ≡ some entered.1))
          (enter_task prisma auth organization_id project_id task_id db)
  unfolding enter_task
  enter_task-Reads auth org project_id task_id db =
      known-then _ _ (enter-Reads auth org project_id db) (λ _. refused)
        λ entered _.
          known-then _ _ (require_task-Reads task_id entered.1 db) (λ _. refused)
            λ task found.
              known-then _ (λ actor. pure (entered.0, task, actor))
                (writes_nothing (require_actor auth (some entered.0) db)
                  (require_actor-reads auth entered.0 db))
                (λ _. refused)
                λ actor _. record {
                  holds = (refl, (tables.task.find_first-some _ db.tasks task found).1);
                }

  -- The row of the key, at the version, is the stored task.
  same_row :
      (id k version : ℕ) (db : Db tables) (r task : Task)
      → tables.task.get k db.tasks ≡ some r
      → at_version id version r ≡ true
      → tables.task.get id db.tasks ≡ some task
      → r ≡ task
  same_row id k version db r task here meets stored_one =
      let same : k ≡ id = ground (arith, tables.task.get-key k db.tasks r here) in
      ground (arith, ap (λ i. tables.task.get i db.tasks) same)

  update-Sound :
      (g : ℕ → Generated) (now : ℕ) (task : Task) (actor : Actor) (organization_id : ℕ)
      (input : UpdateTaskRequest) (db : Db tables)
      → tables.task.get task.id db.tasks ≡ some task
      → Sound tables db
      → Ends
          (λ r. Sound tables r.1)
          (Service.update prisma g now task actor organization_id input db)
  update-Sound g now task actor org input db stored_one sound =
      keep_through (Sound tables) _ (update-Updated prisma g now task actor org input db) sound
        λ updated after (_, (row, there, current, is, recorded)).
          Recorded-Sound tables g (diff_task_fields task updated actor org input) _ after recorded (
            changed-Sound tables (at_version task.id input.version)
              (patched (patch_of input task.status now)) db (λ r. refl) (λ r. refl) (λ r. refl)
              (λ k r here meets timed.
                let same : r ≡ task =
                  same_row task.id k input.version db r task here meets stored_one in
                subst (λ x. Timed (patched (patch_of input x.status now) r)) same
                  (patched-Timed r input now timed))
              sound)

  create-Sound :
      (g : Generated) (id : ℕ) (project : Project) (actor : Actor) (input : CreateTaskRequest)
      (db : Db tables)
      → Sound tables db
      → Ends (λ r. Sound tables r.1) (Service.create prisma g id project actor input db)
  create-Sound g id project actor input db sound =
      keep_through (Sound tables) _ (create-Created prisma g id project actor input db) sound
        λ task after (_, (middle, created, recorded)).
          Recorded-Sound tables (λ _. g) (created_entry prisma project actor task ∷ []) middle after
            recorded (after_creation tables id g.now _ db middle task created sound)

  assigned-Sound :
      (task : Task) (assignee_id : Option ℕ) (db : Db tables)
      → Sound tables db
      → Sound tables (with_task tables task.id (assigned assignee_id) db)
  assigned-Sound task assignee_id db sound =
      changed-Sound tables _ (assigned assignee_id) db (λ r. refl) (λ r. refl) (λ r. refl)
        (λ k r here meets timed. timed) sound

  assign-Sound :
      (g : Generated) (task : Task) (actor : Actor) (organization_id assignee_id : ℕ)
      (db : Db tables)
      → Sound tables db
      → Ends
          (λ r. Sound tables r.1)
          (Service.assign prisma g task actor organization_id assignee_id db)
  assign-Sound g task actor org assignee_id db sound =
      keep_through (Sound tables) _ (assign-Assigned prisma g task actor org assignee_id db) sound
        λ _ after (_, _, (row, there, is, recorded)).
          Recorded-Sound tables (λ _. g)
            (assignee_entry prisma task actor org (some assignee_id) ∷ []) _ after recorded
            (assigned-Sound task (some assignee_id) db sound)

  unassign-Sound :
      (g : Generated) (task : Task) (actor : Actor) (organization_id : ℕ) (db : Db tables)
      → Sound tables db
      → Ends (λ r. Sound tables r.1) (Service.unassign prisma g task actor organization_id db)
  unassign-Sound g task actor org db sound =
      keep_through (Sound tables) _ (unassign-Assigned prisma g task actor org db) sound
        λ _ after (_, (row, there, is, recorded)).
          Recorded-Sound tables (λ _. g) (assignee_entry prisma task actor org none ∷ []) _ after
            recorded (assigned-Sound task none db sound)

  remove-Sound :
      (now : ℕ) (task : Task) (actor : Actor) (db : Db tables)
      → Sound tables db
      → Ends (λ r. Sound tables r.1) (Service.remove prisma now task actor db)
  remove-Sound now task actor db sound =
      keep_through (Sound tables) _ (remove-Removed prisma now task actor db) sound
        λ _ after (_, (row, there, same)). subst (Sound tables) (sym same) (
          changed-Sound tables _ (deleted now) db (λ r. refl) (λ r. refl) (λ r. refl)
            (λ k r here meets timed. timed) sound)

  serve-Sound :
      (auth : Option AuthContext) (draws : Draws) (request : Request) (db : Db tables)
      → Sound tables db
      → Ends (λ r. Sound tables r.1) (serve prisma auth draws request db)
  unfolding serve
  serve-Sound auth draws (Request.create org project_id body) db sound =
      known-then _ _ (enter-Reads auth org project_id db) (λ _. record { holds = sound })
        λ entered _.
          known-then _ _
            (writes_nothing (require_permission task_create auth (some entered.0) db)
              (require_permission-reads task_create auth entered.0 db))
            (λ _. record { holds = sound })
            λ _ _.
              known-then _ _
                (writes_nothing (require_actor auth (some entered.0) db)
                  (require_actor-reads auth entered.0 db))
                (λ _. record { holds = sound })
                λ actor _.
                  keeps-unit (Sound tables) _
                    (create-Sound (draws.entries 0) draws.task_id entered.1 actor body db sound)
  serve-Sound auth draws (Request.update org project_id task_id body) db sound =
      known-then _ _ (enter_task-Reads auth org project_id task_id db)
        (λ _. record { holds = sound })
        λ entered stored_one. keeps-unit (Sound tables) _ (
          update-Sound draws.entries draws.now entered.1 entered.2 entered.0.organization_id body db
            stored_one sound)
  serve-Sound auth draws (Request.remove org project_id task_id) db sound =
      known-then _ _ (enter_task-Reads auth org project_id task_id db)
        (λ _. record { holds = sound })
        λ entered _. remove-Sound draws.now entered.1 entered.2 db sound
  serve-Sound auth draws (Request.assign org project_id task_id assignee_id) db sound =
      known-then _ _ (enter_task-Reads auth org project_id task_id db)
        (λ _. record { holds = sound })
        λ entered _. keeps-unit (Sound tables) _ (
          assign-Sound (draws.entries 0) entered.1 entered.2 entered.0.organization_id assignee_id
            db sound)
  serve-Sound auth draws (Request.unassign org project_id task_id) db sound =
      known-then _ _ (enter_task-Reads auth org project_id task_id db)
        (λ _. record { holds = sound })
        λ entered _.
          keeps-unit (Sound tables) _ (
            unassign-Sound (draws.entries 0) entered.1 entered.2 entered.0.organization_id db sound)

  -- After any list of requests, whoever makes them and whatever becomes of each, a sound state is sound:
  -- every task has a completion date exactly when its status is DONE, its number is at most its project's
  -- counter, and the entries of the log and the events of the outbox mirror each other in all but their times.
  pub serve_all-Sound :
      (requests : List (Option AuthContext × Draws × Request)) (db : Db tables)
      → Sound tables db
      → Sound tables (serve_all prisma requests db)
  unfolding serve_all
  serve_all-Sound [] db sound = sound
  serve_all-Sound ((auth, draws, request) ∷ rest) db sound =
      serve_all-Sound rest (serve prisma auth draws request db).1
        (serve-Sound auth draws request db sound).holds
