-- ===== src/Tasks/Effects.antt =====
-- What `create` takes and writes.
use tasks_platform.Common.{
  ℕ, ◌+◌, ◌≡◌, inl, inr, refl, Option, none, some, [], ◌∷◌, ◌==◌, Option-cases, Bool-cases, leb,
  if◌then◌else◌,
}
use tasks_platform.Authorization.Actor.{Actor}
use tasks_platform.Database.Table.{update-found, update-missing}
use tasks_platform.Database.Schema.{Project, Membership, Task, null, created_task, task_created}
use tasks_platform.Database.Client.{Tables, Db, Prisma, ok, err, prisma_error}
use tasks_platform.Database.Steps.{Ends, or_throw-then}
use tasks_platform.Database.Outcomes.{
  OnOk, Atomic, refused, Reads, known-then, atomically, stored_last, ok-then, weaken_outcome,
}
use tasks_platform.Members.Repository as Members
use tasks_platform.Members.Repository.{membership_of}
use tasks_platform.Activity.Service.{Generated, RecordActivityInput}
use tasks_platform.Activity.Mirror.{Recorded, record_one-Recorded}
use tasks_platform.Tasks.Repository
use tasks_platform.Tasks.Repository.{CreateTaskInput, task_row, assigned, deleted, counted}
use tasks_platform.Tasks.Service
use tasks_platform.Tasks.Service.{CreateTaskRequest, create_input, change, uuid_of, is_own_task}

module _ (t : Tables) where
  -- What creating a task does: its project's counter moves on, and the task has the number.
  abbrev pub Created : ℕ → ℕ → CreateTaskInput → Db t → Task → Db t → Type 0
  Created id now input db task after =
      (project : Project) × (rows : t.task.Rows) × (t.project.get input.project_id db.projects
        ≡ some project)
      × (task ≡ task_row id now (project.task_counter + 1) input)
      × (t.task.create (task_row id now (project.task_counter + 1) input) db.tasks ≡ some rows)
      × (after ≡ record db {
        projects = t.project.update_many (λ p. p.id == input.project_id) counted db.projects;
        tasks = rows;
      })

  pub claim_number_found :
      (id : ℕ) (db : Db t) {project : Project}
      → t.project.get id db.projects ≡ some project
      → Repository.claim_number id db ≡ (
          if leb (project.task_counter + 1) 2147483647
          then (
            ok (project.task_counter + 1),
            record db { projects = t.project.update_many (λ p. p.id == id) counted db.projects },
          )
          else (err prisma_error, db))
  unfolding Repository.claim_number
  claim_number_found id db e =
      rw
        (
          update-found t.project id counted db.projects ((λ r. refl), λ r x h. h) e,
          Repository.claim_number,
        )
        refl

  claim_number_missing :
      (id : ℕ) (db : Db t)
      → t.project.get id db.projects ≡ none
      → Ends (OnOk {A = ℕ} (λ _ _. ⊥)) (Repository.claim_number id db)
  unfolding Repository.claim_number
  claim_number_missing id db e =
      rw
        (
          update-missing t.project id counted db.projects ((λ r. refl), λ r x h. h) e,
          Repository.claim_number,
        )
        (record { holds = tt })

  pub create_with_next_number-Created :
      (id now : ℕ) (input : CreateTaskInput) (db : Db t)
      → Ends (OnOk (Created id now input db)) (Repository.create_with_next_number id now input db)
  unfolding Repository.create_with_next_number
  create_with_next_number-Created id now input db =
      elim (Option-cases (t.project.get input.project_id db.projects)) [
        | inl absent ↦
            ok-then _ _ (claim_number_missing input.project_id db absent) λ _ _ never. absurd never
        | inr (project, there) ↦ elim (Bool-cases (leb (project.task_counter + 1) 2147483647)) [
          | inl fits ↦
              rw (claim_number_found input.project_id db there, fits)
                (stored_last _ _ _ _ (λ _. record { holds = tt })
                  λ rows e. record { holds = (project, rows, there, refl, e, refl) })
          | inr over ↦
              rw (claim_number_found input.project_id db there, over) (record { holds = tt })
        ]
      ]

module _ (prisma : Prisma) where
  open prisma use {tables}

  -- Is there a membership of the organization that is this user's?
  abbrev pub Member : ℕ → ℕ → Db tables → Type 0
  Member organization_id user_id db =
      (m : Membership) × (tables.membership.find_first (membership_of user_id organization_id)
          db.memberships
        ≡ some m)

  abbrev pub MemberIfAny : ℕ → Option ℕ → Db tables → Type 0
  MemberIfAny organization_id none db = Unit {0}
  MemberIfAny organization_id (some user_id) db = Member organization_id user_id db

  abbrev pub created_entry : Project → Actor → Task → RecordActivityInput
  created_entry project actor task =
      change task actor project.organization_id task_created null
        (created_task task.title task.status)

  create_block-Created :
      (g : Generated) (id : ℕ) (project : Project) (actor : Actor) (input : CreateTaskRequest)
      (db : Db tables)
      → Ends
          (OnOk (λ task after.
            (middle : Db tables) × Created tables id g.now
              (create_input project actor input)
              db
              task
              middle
            × Recorded tables (λ _. g) (created_entry project actor task ∷ []) middle after))
          (Service.create_block prisma g id project actor input db)
  unfolding Service.create_block
  create_block-Created g id project actor input db =
      ok-then _ _
        (create_with_next_number-Created tables id g.now (create_input project actor input) db)
        λ task middle created.
          ok-then _ _
            (record_one-Recorded tables (λ _. g) (created_entry project actor task) middle)
            λ _ after recorded. record { holds = (middle, created, recorded) }

  pub assert_assignee_is_member-Member :
      (organization_id user_id : ℕ) (db : Db tables)
      → Ends
          (Reads db (λ _. Member organization_id user_id db))
          (Service.assert_assignee_is_member prisma organization_id user_id db)
  unfolding Service.assert_assignee_is_member Members.find_by_user_and_organization
  assert_assignee_is_member-Member org user_id db =
      or_throw-then db _ _ _ (λ _. refused) λ m found. record { holds = (refl, (m, found)) }

  assert_assignee-MemberIfAny :
      (organization_id : ℕ) (user_id : Option ℕ) (db : Db tables)
      → Ends
          (Reads db (λ _. MemberIfAny organization_id user_id db))
          (Service.assert_assignee prisma organization_id user_id db)
  assert_assignee-MemberIfAny org none db = record { holds = (refl, tt) }
  assert_assignee-MemberIfAny org (some user_id) db =
      assert_assignee_is_member-Member org user_id db

  -- A creation writes nothing, or: its assignee, if it has one, is a member of the organization, its
  -- number is the project's next, and its one entry is written with it.
  pub create-Created :
      (g : Generated) (id : ℕ) (project : Project) (actor : Actor) (input : CreateTaskRequest)
      (db : Db tables)
      → Ends
          (Atomic db (λ task after.
            MemberIfAny project.organization_id input.assignee_id db
            × ((middle : Db tables) × Created tables id g.now
                  (create_input project actor input)
                  db
                  task
                  middle
                × Recorded tables (λ _. g) (created_entry project actor task ∷ []) middle after)))
          (Service.create prisma g id project actor input db)
  unfolding Service.create
  create-Created g id project actor input db =
      known-then _ _ (assert_assignee-MemberIfAny project.organization_id input.assignee_id db)
        (λ _. refused)
        λ _ member.
          weaken_outcome _
            (atomically prisma db _ (create_block-Created g id project actor input db))
            λ _ _ created. (member, created)
