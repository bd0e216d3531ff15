-- ===== src/Tasks/Changes.antt =====
-- What `assign`, `unassign` and `remove` take and write.
use tasks_platform.Common.{
  ℕ, ◌≡◌, ◌⊎◌, inl, inr, refl, ap, subst, true, false, Option, none, some, [], ◌∷◌, arith, ◌==◌,
  if◌then◌else◌, is_some, is_id, Bool-cases,
}
use tasks_platform.Authorization.Permissions.{
  task_delete_any, task_delete_own, task_assign, task_assign_self,
}
use tasks_platform.Authorization.Actor.{
  Actor, user, api_key, actor_has_permission, can_actor_act_on_resource,
}
use tasks_platform.Database.Table.{updated-some}
use tasks_platform.Database.Schema.{Task, assignee_changed}
use tasks_platform.Database.Client.{Tables, Db, Prisma, pure}
use tasks_platform.Database.Steps.{Ends, ensure-then}
use tasks_platform.Database.Outcomes.{
  OnOk, Atomic, refused, Reads, known-then, atomically, changed_last, changed-then, refuse_last,
  ensure_last, ok-then, weaken_outcome,
}
use tasks_platform.Activity.Service.{Generated, RecordActivityInput}
use tasks_platform.Activity.Mirror.{Recorded, record_one-Recorded}
use tasks_platform.Tasks.Repository
use tasks_platform.Tasks.Repository.{CreateTaskInput, task_row, assigned, deleted, counted}
use tasks_platform.Tasks.Service
use tasks_platform.Tasks.Service.{CreateTaskRequest, create_input, change, uuid_of, is_own_task}
use tasks_platform.Tasks.Effects.{Member, assert_assignee_is_member-Member}

module _ (t : Tables) where
  -- The rows after an update of one task by its key.
  abbrev pub with_task : ℕ → (Task → Task) → Db t → Db t
  with_task id f db = record db { tasks = t.task.update_many (λ task. task.id == id) f db.tasks }

  -- An update of one task by its key: it was there, and it alone is changed.
  abbrev pub Changed : ℕ → (Task → Task) → Db t → Task → Db t → Type 0
  Changed id f db task after =
      (row : Task) × (t.task.get id db.tasks ≡ some row)
      × (task ≡ f row)
      × (after ≡ with_task id f db)

  pub assign-Changed :
      (id : ℕ) (assignee_id : Option ℕ) (db : Db t)
      → Ends (OnOk (Changed id (assigned assignee_id) db)) (Repository.assign id assignee_id db)
  unfolding Repository.assign
  assign-Changed id assignee_id db =
      changed_last db _ _ (λ _. record { holds = tt })
        λ a rows e.
          let (row, there, is, same) =
            updated-some t.task id (assigned assignee_id) db.tasks ((λ r. refl), λ r x h. h) e in
          record { holds = (row, there, is, ap (λ r. record db { tasks = r }) same) }

module _ (prisma : Prisma) where
  open prisma use {tables}

  abbrev pub assignee_entry : Task → Actor → ℕ → Option ℕ → RecordActivityInput
  assignee_entry task actor organization_id assignee_id =
      change task actor organization_id assignee_changed (uuid_of task.assignee_id)
        (uuid_of assignee_id)

  -- What an assignment, to a user or to nobody, does.
  abbrev pub Assigned :
      Generated → Task → Actor → ℕ → Option ℕ → Db tables → Task → Db tables → Type 0
  Assigned g task actor organization_id assignee_id db updated after =
      (row : Task) × (tables.task.get task.id db.tasks ≡ some row)
      × (updated ≡ assigned assignee_id row)
      × Recorded tables (λ _. g) (assignee_entry task actor organization_id assignee_id ∷ [])
          (with_task tables task.id (assigned assignee_id) db) after

  assign_block-Assigned :
      (g : Generated) (task : Task) (actor : Actor) (organization_id : ℕ) (assignee_id : Option ℕ)
      (db : Db tables)
      → Ends
          (OnOk (Assigned g task actor organization_id assignee_id db))
          (Service.assign_block prisma g task actor organization_id assignee_id db)
  unfolding Service.assign_block
  assign_block-Assigned g task actor org assignee_id db =
      ok-then _ _ (assign-Changed tables task.id assignee_id db)
        λ updated middle (row, there, is, same).
          ok-then _ _
            (record_one-Recorded tables (λ _. g) (assignee_entry task actor org assignee_id) middle)
            λ _ after recorded. record {
              holds = (
                row,
                there,
                is,
                subst
                    (λ d.
                      Recorded tables (λ _. g) (assignee_entry task actor org assignee_id ∷ []) d
                        after)
                    same recorded,
              );
            }

  -- Who may move a task to an assignee: whoever has `task:assign`, and a user who has `task:assign:self`
  -- and takes a task that nobody has.
  abbrev pub MayTake : Task → Actor → ℕ → Type 0
  MayTake task (api_key id scopes) assignee_id =
      actor_has_permission (api_key id scopes) task_assign ≡ true
  MayTake task (user id role) assignee_id =
      (actor_has_permission (user id role) task_assign ≡ true)
      ⊎ ((actor_has_permission (user id role) task_assign_self ≡ true)
          × (assignee_id ≡ id)
          × (task.assignee_id ≡ none))

  -- Who may take a task from its assignee: whoever has `task:assign`, and that user with `task:assign:self`.
  abbrev pub MayLeave : Task → Actor → Type 0
  MayLeave task (api_key id scopes) = actor_has_permission (api_key id scopes) task_assign ≡ true
  MayLeave task (user id role) =
      (actor_has_permission (user id role) task_assign ≡ true)
      ⊎ ((actor_has_permission (user id role) task_assign_self ≡ true)
          × (task.assignee_id ≡ some id))

  guard_of_assign :
      (task : Task) (actor : Actor) (assignee_id : ℕ) (db : Db tables)
      → Ends (Reads db (λ _. MayTake task actor assignee_id)) (
          (if actor_has_permission actor task_assign
              then pure tt
              else Service.assert_may_take prisma task actor assignee_id)
            db)
  unfolding Service.assert_may_take
  guard_of_assign task (api_key id scopes) assignee_id db =
      elim (Bool-cases (actor_has_permission (api_key id scopes) task_assign)) [
        | inl may ↦ rw may (record { holds = (refl, refl) })
        | inr may_not ↦ rw may_not (ensure_last db false _ (λ _. refused) λ never. absurd (cc))
      ]
  guard_of_assign task (user id role) assignee_id db =
      elim (Bool-cases (actor_has_permission (user id role) task_assign)) [
        | inl may ↦ rw may (record { holds = (refl, inl refl) })
        | inr may_not ↦ rw may_not (
            ensure-then db (actor_has_permission (user id role) task_assign_self) _ _ (λ _. refused)
              λ self.
                ensure-then db (assignee_id == id) _ _ (λ _. refused)
                  λ own.
                    refuse_last db (is_some task.assignee_id) _ (λ _. refused)
                      λ free. record { holds = (refl, inr (self, ground arith, ground arith)) })
      ]

  guard_of_unassign :
      (task : Task) (actor : Actor) (db : Db tables)
      → Ends (Reads db (λ _. MayLeave task actor)) (
          (if actor_has_permission actor task_assign
              then pure tt
              else Service.assert_may_leave prisma task actor)
            db)
  unfolding Service.assert_may_leave
  guard_of_unassign task (api_key id scopes) db =
      elim (Bool-cases (actor_has_permission (api_key id scopes) task_assign)) [
        | inl may ↦ rw may (record { holds = (refl, refl) })
        | inr may_not ↦ rw may_not (ensure_last db false _ (λ _. refused) λ never. absurd (cc))
      ]
  guard_of_unassign task (user id role) db =
      elim (Bool-cases (actor_has_permission (user id role) task_assign)) [
        | inl may ↦ rw may (record { holds = (refl, inl refl) })
        | inr may_not ↦ rw may_not (
            ensure-then db (actor_has_permission (user id role) task_assign_self) _ _ (λ _. refused)
              λ self.
                ensure_last db (is_id task.assignee_id id) _ (λ _. refused)
                  λ own. record { holds = (refl, inr (self, ground arith)) })
      ]

  -- An assignment writes nothing, or: the actor may give the task to that user, who is a member of the
  -- organization, the task is theirs and one version on, and its one entry is written with it.
  pub assign-Assigned :
      (g : Generated) (task : Task) (actor : Actor) (organization_id assignee_id : ℕ)
      (db : Db tables)
      → Ends
          (Atomic db (λ updated after.
            MayTake task actor assignee_id
            × Member prisma organization_id assignee_id db
            × Assigned g task actor organization_id (some assignee_id) db updated after))
          (Service.assign prisma g task actor organization_id assignee_id db)
  unfolding Service.assign
  assign-Assigned g task actor org assignee_id db =
      known-then _ _ (guard_of_assign task actor assignee_id db) (λ _. refused)
        λ _ may.
          known-then _ _ (assert_assignee_is_member-Member prisma org assignee_id db) (λ _. refused)
            λ _ member.
              weaken_outcome _
                (atomically prisma db _
                  (assign_block-Assigned g task actor org (some assignee_id) db))
                λ _ _ done. (may, member, done)

  -- Taking a task from its assignee writes nothing, or: the actor may do so, the task has no assignee and
  -- is one version on, and its one entry is written with it.
  pub unassign-Assigned :
      (g : Generated) (task : Task) (actor : Actor) (organization_id : ℕ) (db : Db tables)
      → Ends
          (Atomic db (λ updated after.
            MayLeave task actor × Assigned g task actor organization_id none db updated after))
          (Service.unassign prisma g task actor organization_id db)
  unfolding Service.unassign
  unassign-Assigned g task actor org db =
      known-then _ _ (guard_of_unassign task actor db) (λ _. refused)
        λ _ may.
          weaken_outcome _ (atomically prisma db _ (assign_block-Assigned g task actor org none db))
            λ _ _ done. (may, done)

  -- A removal writes nothing, or: the matrix lets the actor delete the task, and the row is marked.
  pub remove-Removed :
      (now : ℕ) (task : Task) (actor : Actor) (db : Db tables)
      → Ends
          (Atomic db (λ _ after.
            (can_actor_act_on_resource actor task_delete_any task_delete_own
                (is_own_task task actor)
              ≡ true)
            × ((row : Task) × (tables.task.get task.id db.tasks ≡ some row)
                × (after ≡ with_task tables task.id (deleted now) db))))
          (Service.remove prisma now task actor db)
  unfolding Service.remove Repository.soft_delete
  remove-Removed now task actor db =
      ensure-then db _ _ _ (λ _. refused)
        λ allowed.
          changed-then db _ _ _ (λ _. refused)
            λ a rows e.
              let (row, there, is, same) =
                updated-some tables.task task.id (deleted now) db.tasks ((λ r. refl), λ r x h. h)
                  e in
              record { holds = (allowed, (row, there, ap (λ r. record db { tasks = r }) same)) }
