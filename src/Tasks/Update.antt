-- ===== src/Tasks/Update.antt =====
-- `update` with its optimistic lock: what it takes, what it writes, and that of two updates from one
-- version at most one goes through.
use tasks_platform.Common.{
  ℕ, ◌+◌, ◌≡◌, ◌≢◌, inl, inr, refl, ap, subst, true, false, none, some, arith, ◌==◌, if◌then◌else◌,
  map_option, Option-cases, Bool-cases,
}
use tasks_platform.Errors.{app, conflict}
use tasks_platform.Authorization.Permissions.{task_update_any, task_update_own}
use tasks_platform.Authorization.Actor.{Actor, can_actor_act_on_resource}
use tasks_platform.Database.Schema.{Task}
use tasks_platform.Database.Client.{Tables, Db, Prisma, ok, err, ensure, or_throw}
use tasks_platform.Database.Steps.{Ends, or_throw-then, ensure-then}
use tasks_platform.Database.Outcomes.{
  OnOk, Atomic, refused, atomically, ok-then, weaken_outcome, atomic-ok,
}
use tasks_platform.Activity.Service.{Generated}
use tasks_platform.Activity.Mirror.{Recorded, Recorded-frame, record_changes-Recorded}
use tasks_platform.Tasks.Repository
use tasks_platform.Tasks.Repository.{UpdateTaskInput, patched, at_version}
use tasks_platform.Tasks.Service
use tasks_platform.Tasks.Service.{UpdateTaskRequest, patch_of, is_own_task, diff_task_fields}

module _ (t : Tables) where
  -- The rows of the tasks after an update from a version.
  abbrev pub updated_rows : ℕ → ℕ → UpdateTaskInput → t.task.Rows → t.task.Rows
  updated_rows id version input rows =
      t.task.update_many (at_version id version) (patched input) rows

  pub get-updated_rows :
      (id version : ℕ) (input : UpdateTaskInput) (rows : t.task.Rows) (k : ℕ)
      → t.task.get k (updated_rows id version input rows)
        ≡ map_option
            (λ task. if at_version id version task then patched input task else task)
            (t.task.get k rows)
  get-updated_rows id version input rows k =
      t.task.get-update_many (at_version id version) (patched input) (λ r. refl) (λ r x h. h) rows k

  version_moved :
      (id version : ℕ) (input : UpdateTaskInput) (rows : t.task.Rows) {row found : Task}
      → t.task.get id rows ≡ some row
      → row.version ≡ version
      → t.task.get id (updated_rows id version input rows) ≡ some found
      → found.version ≡ version + 1
  version_moved id version input rows {row} {found} there current here =
      ground (arith, get-updated_rows id version input rows id, t.task.get-key id rows row)

  -- A row that is counted is the one of that key, at that version.
  counted_row :
      (id version : ℕ) (rows : t.task.Rows)
      → (t.task.count (at_version id version) rows == 0) ≡ false
      → (row : Task) × (t.task.get id rows ≡ some row) × (row.id ≡ id) × (row.version ≡ version)
  counted_row id version rows some_one =
      elim (Option-cases (t.task.find_first (at_version id version) rows)) [
        | inl absent ↦
            absurd (ground (arith, t.task.count-none (at_version id version) rows absent))
        | inr (row, found) ↦
            let (meets, there) = t.task.find_first-some (at_version id version) rows row found in
            (
              row,
              subst (λ i. t.task.get i rows ≡ some row) (ground arith) there,
              ground arith,
              ground arith,
            )
      ]

  find_unique_or_throw_found :
      (id : ℕ) (db : Db t) {task : Task}
      → t.task.get id db.tasks ≡ some task
      → Repository.find_unique_or_throw id db ≡ (ok task, db)
  unfolding Repository.find_unique_or_throw
  find_unique_or_throw_found id db e = rw (e, Repository.find_unique_or_throw)

  update_with_version-Locked :
      (id version : ℕ) (input : UpdateTaskInput) (db : Db t)
      → Ends
          (OnOk (λ result after.
            (after ≡ record db { tasks = updated_rows id version input db.tasks })
            × ((updated : Task)
                → result ≡ some updated
                → (row : Task) × (t.task.get id db.tasks ≡ some row)
                  × (row.version ≡ version)
                  × (updated ≡ patched input row))))
          (Repository.update_with_version id version input db)
  unfolding Repository.update_with_version
  update_with_version-Locked id version input db =
      elim (Bool-cases (t.task.count (at_version id version) db.tasks == 0)) [
        | inl zero_rows ↦ rw zero_rows (record { holds = (refl, λ u e. absurd (cc)) })
        | inr rows ↦
            let (row, there, named, current) = counted_row id version db.tasks rows in
            let now : t.task.get id (updated_rows id version input db.tasks)
                ≡ some (patched input row) =
              rw (get-updated_rows id version input db.tasks id, there) (ground arith) in
            let after : Db t = record db { tasks = updated_rows id version input db.tasks } in
            rw (rows, find_unique_or_throw_found id after now)
              (record { holds = (refl, λ u e. (row, there, current, ground arith)) })
      ]

  none_at :
      (id version : ℕ) (input : UpdateTaskInput) (db : Db t)
      → ((row : Task) → t.task.get id db.tasks ≡ some row → row.version ≢ version)
      → Repository.update_with_version id version input db
        ≡ (ok none, record db { tasks = updated_rows id version input db.tasks })
  unfolding Repository.update_with_version
  none_at id version input db stale =
      elim (Bool-cases (t.task.count (at_version id version) db.tasks == 0)) [
        | inl zero_rows ↦ rw (zero_rows, Repository.update_with_version)
        | inr rows ↦
            let (row, there, _, current) = counted_row id version db.tasks rows in
            absurd (stale row there current)
      ]

module _ (prisma : Prisma) where
  open prisma use {tables}

  -- What an update that went through has done: the row it changed was at the version given, the row
  -- it returns is that one with the changes made, and its entries are those of the diff.
  abbrev pub Updated :
      (ℕ → Generated)
      → ℕ
      → Task
      → Actor
      → ℕ
      → UpdateTaskRequest
      → Db tables
      → Task
      → Db tables
      → Type 0
  Updated g now task actor organization_id input db updated after =
      (row : Task) × (tables.task.get task.id db.tasks ≡ some row)
      × (row.version ≡ input.version)
      × (updated ≡ patched (patch_of input task.status now) row)
      × Recorded tables g (diff_task_fields task updated actor organization_id input)
          (record db {
            tasks =
                updated_rows tables task.id input.version (patch_of input task.status now) db.tasks;
          })
          after

  update_block-Updated :
      (g : ℕ → Generated) (now : ℕ) (task : Task) (actor : Actor) (organization_id : ℕ)
      (input : UpdateTaskRequest) (db : Db tables)
      → Ends
          (OnOk (Updated g now task actor organization_id input db))
          (Service.update_block prisma g now task actor organization_id input db)
  unfolding Service.update_block
  update_block-Updated g now task actor org input db =
      ok-then _ _
        (update_with_version-Locked tables task.id input.version (patch_of input task.status now)
          db)
        λ result middle (same, locked).
          or_throw-then middle result _ _ (λ _. record { holds = tt })
            λ updated here.
              ok-then _ _
                (record_changes-Recorded tables g (diff_task_fields task updated actor org input)
                  middle)
                λ _ after recorded.
                  let (row, there, current, is) = locked updated here in
                  record {
                    holds = (
                      row,
                      there,
                      current,
                      is,
                      subst
                          (λ d.
                            Recorded tables g (diff_task_fields task updated actor org input) d
                              after)
                          same recorded,
                    );
                  }

  pub update-Updated :
      (g : ℕ → Generated) (now : ℕ) (task : Task) (actor : Actor) (organization_id : ℕ)
      (input : UpdateTaskRequest) (db : Db tables)
      → Ends
          (Atomic db (λ updated after.
            (can_actor_act_on_resource actor task_update_any task_update_own
                (is_own_task task actor)
              ≡ true)
            × Updated g now task actor organization_id input db updated after))
          (Service.update prisma g now task actor organization_id input db)
  unfolding Service.update
  update-Updated g now task actor org input db =
      ensure-then db _ _ _ (λ _. refused)
        λ allowed.
          weaken_outcome _
            (atomically prisma db _ (update_block-Updated g now task actor org input db))
            λ updated after h. (allowed, h)

  -- An update from a version that is not the stored one is refused, and nothing is written.
  pub update_stale :
      (g : ℕ → Generated) (now : ℕ) (task : Task) (actor : Actor) (organization_id : ℕ)
      (input : UpdateTaskRequest) (db : Db tables)
      → can_actor_act_on_resource actor task_update_any task_update_own (is_own_task task actor)
        ≡ true
      → ((row : Task) → tables.task.get task.id db.tasks ≡ some row → row.version ≢ input.version)
      → Service.update prisma g now task actor organization_id input db ≡ (
        err (app (conflict (some "Task was modified by someone else; reload and try again"))),
        db,
      )
  unfolding Service.update Service.update_block ensure or_throw
  update_stale g now task actor org input db allowed stale =
      rw
        (
          allowed,
          prisma.transaction_lem Task (Service.update_block prisma g now task actor org input) db,
          none_at tables task.id input.version (patch_of input task.status now) db stale,
        )
        refl

  -- Of two updates from one version at most one goes through: right after one did, the other, whoever may
  -- make it and whatever it had read of the task, gets the conflict and writes nothing.
  pub update_once :
      (g : ℕ → Generated) (now : ℕ) (task : Task) (actor : Actor) (organization_id : ℕ)
      (input : UpdateTaskRequest) (db after : Db tables) {updated : Task}
      → Service.update prisma g now task actor organization_id input db ≡ (ok updated, after)
      → (g2 : ℕ → Generated) (later : ℕ) (seen : Task) (actor2 : Actor) (input2 : UpdateTaskRequest)
      → seen.id ≡ task.id
      → input2.version ≡ input.version
      → can_actor_act_on_resource actor2 task_update_any task_update_own (is_own_task seen actor2)
        ≡ true
      → Service.update prisma g2 later seen actor2 organization_id input2 after ≡ (
        err (app (conflict (some "Task was modified by someone else; reload and try again"))),
        after,
      )
  update_once g now task actor org input db after {updated} done g2 later seen actor2 input2
        same_task same_version allowed =
      let (_, h) = atomic-ok (update-Updated g now task actor org input db) done in
      let (row, there, current, _, recorded) = h in
      update_stale g2 later seen actor2 org input2 after allowed λ found here stale.
        let rows = ap (λ d. d.tasks) (Recorded-frame tables g _ _ after recorded) in
        let changed_rows =
          updated_rows tables task.id input.version (patch_of input task.status now) db.tasks in
        let moved =
          version_moved tables task.id input.version (patch_of input task.status now) db.tasks there
            current
            (subst (λ i. tables.task.get i changed_rows ≡ some found) same_task
              (subst (λ r. tables.task.get seen.id r ≡ some found) rows here)) in
        omega (arith, moved, stale, same_version)
