-- ===== src/Tasks/Labels.antt =====
-- `setLabels` of apps/api/src/modules/tasks/tasks.service.ts: a task that was deleted meanwhile is a conflict,
-- with the new labels in place.
use tasks_platform.Common.{
  ℕ, ◌≡◌, ◌⊎◌, inl, inr, refl, sym, subst, String, Bool, true, Option, none, some, List,
}
use tasks_platform.Errors.{Thrown, app, conflict, forbidden}
use tasks_platform.Authorization.Permissions.{task_update_any, task_update_own}
use tasks_platform.Authorization.Actor.{Actor, can_actor_act_on_resource}
use tasks_platform.Database.Schema.{Task}
use tasks_platform.Database.Labels.{Label}
use tasks_platform.Database.Client.{
  Db, Prisma, Result, ok, err, Action, ensure, or_throw, continue, ◌>>=◌, ◌>>◌,
}
use tasks_platform.Database.Steps.{Ends, ensure-then}
use tasks_platform.Database.Outcomes.{Atomic}
use tasks_platform.Activity.Service.{Generated}
use tasks_platform.Labels.Service
use tasks_platform.Labels.Replaced.{Relabelled, set_task_labels_lem}
use tasks_platform.Tasks.Repository
use tasks_platform.Tasks.Repository.{live_task}
use tasks_platform.Tasks.Service.{is_own_task}

module _ (prisma : Prisma) (above : String → String → Bool) where
  open prisma use {tables}

  unfoldable pub set_labels : Generated → Task → Actor → ℕ → List ℕ → Action tables Task
  set_labels g task actor organization_id label_ids = do
    ensure
        (can_actor_act_on_resource actor task_update_any task_update_own (is_own_task task actor))
        (forbidden (some "Missing permission: task:update:own or task:update:any"))
    Service.set_task_labels prisma above g organization_id task.id actor label_ids
    updated ← Repository.find_by_id task.id task.project_id
    or_throw updated (conflict (some "Task was deleted while its labels were being updated"))

  -- The answer after the labels were set: the task as it is stored, or a conflict.
  abbrev pub answer : Option Task → Result Task
  answer none = err (app (conflict (some "Task was deleted while its labels were being updated")))
  answer (some task) = ok task

  answered :
      (o : Option Task) (db : Db tables)
      → or_throw o (conflict (some "Task was deleted while its labels were being updated")) db
        ≡ (answer o, db)
  unfolding or_throw
  answered none db = refl
  answered (some task) db = refl

  -- Refused with nothing written; or done by one who may update the task, with an answer that tells whether
  -- the task is still there.
  abbrev pub LabelsSet :
      Generated → Task → Actor → ℕ → List ℕ → Db tables → Result Task × Db tables → Type 0
  LabelsSet g task actor organization_id ids db (result, after) =
      ((e : Thrown) × (result ≡ err e) × (after ≡ db))
      ⊎ ((can_actor_act_on_resource actor task_update_any task_update_own (is_own_task task actor)
            ≡ true)
          × (labels : List Label) × Relabelled prisma above g organization_id task.id actor ids db
              labels after
          × (result
              ≡ answer (tables.task.find_first (live_task task.id task.project_id) after.tasks)))

  -- Setting the labels of a task throws and writes nothing, or the actor may update the task, each id that
  -- was given is the id of a label of the organization, the task has exactly the labels with these ids,
  -- every other task has the labels it had, one entry with its event tells of the change, and the answer is
  -- the stored task, or a conflict if it is not there or deleted.
  pub set_labels-LabelsSet :
      (g : Generated) (task : Task) (actor : Actor) (organization_id : ℕ) (ids : List ℕ)
      (db : Db tables)
      → Ends
          (LabelsSet g task actor organization_id ids db)
          (set_labels g task actor organization_id ids db)
  unfolding set_labels Repository.find_by_id
  set_labels-LabelsSet g task actor org ids db =
      ensure-then db _ _ _ (λ _. record { holds = inl (_, refl, refl) })
        λ may. outcome may _ (set_task_labels_lem prisma above g org task.id actor ids db)
    where
      outcome :
          can_actor_act_on_resource actor task_update_any task_update_own (is_own_task task actor)
            ≡ true
          → (r : Result (List Label) × Db tables)
          → Ends (Atomic db (Relabelled prisma above g org task.id actor ids db)) r
          → Ends (LabelsSet g task actor org ids db) (
              continue r λ _. do
                updated ← Repository.find_by_id task.id task.project_id
                or_throw updated
                    (conflict (some "Task was deleted while its labels were being updated")))
      outcome may (err e, after) known = record { holds = inl (e, refl, known.holds) }
      outcome may (ok labels, after) known =
          subst (Ends (LabelsSet g task actor org ids db))
            (sym (
              answered (tables.task.find_first (live_task task.id task.project_id) after.tasks)
                after))
            (record { holds = inr (may, labels, known.holds, refl) })
