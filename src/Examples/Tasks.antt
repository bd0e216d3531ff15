-- ===== src/Examples/Tasks.antt =====
-- Tasks and their log.
use tasks_platform.Common.{◌≡◌, refl, arith, some, [], ◌∷◌}
use tasks_platform.Errors.{app, conflict}
use tasks_platform.Authorization.Permissions.{admin, member, role_has_permission}
use tasks_platform.Authorization.Actor.{user, can_actor_act_on_resource, actor_has_permission}
use tasks_platform.Database.Client.{err, ensure, or_throw}
use tasks_platform.Database.Memory.Scan.{first_below, count_below}
use tasks_platform.Database.Instance.{memory, memory_tables}
use tasks_platform.Database.Steps.{Ends}
use tasks_platform.Database.Outcomes.{Atomic}
use tasks_platform.Members.Gate.{user_auth}
use tasks_platform.Activity.Service.{record_activity, record_event, record_change, record_changes}
use tasks_platform.Activity.Mirror.{Recorded}
use tasks_platform.Tasks.Repository.{deleted}
use tasks_platform.Tasks.Repository
use tasks_platform.Tasks.Service
use tasks_platform.Tasks.Service.{create_input, diff_task_fields}
use tasks_platform.Tasks.Controller.{Request, serve_all}
use tasks_platform.Tasks.Update.{update_once}
use tasks_platform.Tasks.Effects.{MemberIfAny, Created, created_entry, create-Created}
use tasks_platform.Tasks.Sound.{Sound}
use tasks_platform.Tasks.Invariant.{serve_all-Sound}
use tasks_platform.Examples.Rows.{db, project, task, generated, draws, finish, new_task}

pub sound : Sound memory_tables db
sound = record {
  timed = λ k x here. ground arith;
  numbered = λ k x here. (project, ground arith, ground arith);
  mirrored = (λ k x here. absurd (ground arith), λ k x here. absurd (ground arith));
}

serve_all-Sound_example : Sound memory_tables (
    serve_all memory
      ((some (user_auth 3), draws 10, Request.create 1 1 new_task)
        ∷ (some (user_auth 3), draws 20, Request.update 1 1 1 finish)
        ∷ (some (user_auth 2), draws 30, Request.remove 1 1 1)
        ∷ [])
      db)
serve_all-Sound_example =
    serve_all-Sound memory
      ((some (user_auth 3), draws 10, Request.create 1 1 new_task)
        ∷ (some (user_auth 3), draws 20, Request.update 1 1 1 finish)
        ∷ (some (user_auth 2), draws 30, Request.remove 1 1 1)
        ∷ [])
      db sound

-- The creator finishes the task; the administrator, who had read the same version, is refused.
update_once_example :
    let after = (Service.update memory (generated 10) 7 task (user 3 member) 1 finish db).1 in
    Service.update memory (generated 20) 8 task (user 2 admin) 1 finish after
    ≡ (err (app (conflict (some "Task was modified by someone else; reload and try again"))), after)
unfolding Service.update ensure or_throw first_below count_below can_actor_act_on_resource
    actor_has_permission role_has_permission Service.update_block Repository.update_with_version
    Repository.find_unique_or_throw record_changes diff_task_fields record_change record_activity
    tasks_platform.Database.Client.stored record_event
update_once_example =
    update_once memory (generated 10) 7 task (user 3 member) 1 finish db _ refl (generated 20) 8
      task (user 2 admin) finish refl refl refl

create-Created_example :
    Ends
      (Atomic db (λ created after.
        MemberIfAny memory 1 (some 3) db
        × ((middle : _) × Created memory_tables 10 7
              (create_input project (user 3 member) new_task)
              db
              created
              middle
            × Recorded memory_tables
                (λ _. generated 10 0)
                (created_entry memory project (user 3 member) created ∷ [])
                middle
                after)))
      (Service.create memory (generated 10 0) 10 project (user 3 member) new_task db)
create-Created_example =
    create-Created memory (generated 10 0) 10 project (user 3 member) new_task db
