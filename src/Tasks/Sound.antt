-- ===== src/Tasks/Sound.antt =====
-- What every request leaves as it should be: the completion dates, the numbers and the log.
use tasks_platform.Common.{
  ℕ, suc, ◌+◌, ◌≤◌, ◌≡◌, inl, inr, refl, sym, ap, ◌∙◌, subst, Bool, true, Option, some, List, [],
  ◌∷◌, arith, ◌==◌, if◌then◌else◌, is_some, or_keep, Option-cases, Bool-cases, ℕ-cases,
}
use tasks_platform.Database.Table.{get-updated, created-cases}
use tasks_platform.Database.Schema.{Project, Task, TaskStatus}
use tasks_platform.Database.Client.{Tables, Db}
use tasks_platform.Activity.Service.{Generated, RecordActivityInput}
use tasks_platform.Activity.Mirror.{Mirrored, Recorded, written-Mirrored}
use tasks_platform.Tasks.Repository.{CreateTaskInput, task_row, patched, counted}
use tasks_platform.Tasks.Service.{UpdateTaskRequest, is_done, completion, patch_of}
use tasks_platform.Tasks.Effects.{Created}

-- A completion date is there exactly when the status says so.
abbrev pub Timed : Task → Type 0
Timed task = is_some task.completed_at ≡ is_done task.status

completion-Timed :
    (new old : TaskStatus) (at : Option ℕ) (now : ℕ)
    → is_some at ≡ is_done old
    → is_some (or_keep (completion (some new) old now) at) ≡ is_done new
completion-Timed new old at now timed = elim (Bool-cases (is_done new)) [
  | inl finished ↦ elim (Bool-cases (is_done old)) [
    | inl was ↦ ground arith
    | inr was ↦ ground arith
  ]
  | inr open_still ↦ elim (Bool-cases (is_done old)) [
    | inl was ↦ ground arith
    | inr was ↦ ground arith
  ]
]

pub patched-Timed :
    (row : Task) (input : UpdateTaskRequest) (now : ℕ)
    → Timed row
    → Timed (patched (patch_of input row.status now) row)
patched-Timed row input now timed = elim (Option-cases input.status) [
  | inl same ↦ rw same timed
  | inr (status, new) ↦ rw new (completion-Timed status row.status row.completed_at now timed)
]

unmoved :
    (p : Task → Bool) (f : Task → Task)
    → ((r : Task) → (f r).project_id ≡ r.project_id)
    → ((r : Task) → (f r).number ≡ r.number)
    → (r x : Task) → x ≡ (if p r then f r else r)
    → (x.project_id ≡ r.project_id) × (x.number ≡ r.number)
unmoved p f same_project same_number r x is = elim (Bool-cases (p r)) [
  | inl meets ↦
      let e = is ∙ ap (λ b. if b then f r else r) meets in
      (ap (λ y. y.project_id) e ∙ same_project r, ap (λ y. y.number) e ∙ same_number r)
  | inr not_it ↦
      let e = is ∙ ap (λ b. if b then f r else r) not_it in
      (ap (λ y. y.project_id) e, ap (λ y. y.number) e)
]

module _ (t : Tables) where
  abbrev pub AllTimed : Db t → Type 0
  AllTimed db = (k : ℕ) (task : Task) → t.task.get k db.tasks ≡ some task → Timed task

  -- The numbers of a project's tasks are among those it has handed out.
  abbrev pub Numbered : Db t → Type 0
  Numbered db =
      (k : ℕ) (task : Task)
      → t.task.get k db.tasks ≡ some task
      → (project : Project) × (t.project.get task.project_id db.projects ≡ some project)
        × (task.number ≤ project.task_counter)

  pub record Sound (db : Db t) : Type 0 where
    pub timed : AllTimed db
    pub numbered : Numbered db
    pub mirrored : Mirrored t db.activities db.outbox_events

  pub Recorded-Sound :
      (g : ℕ → Generated) (entries : List RecordActivityInput) (db after : Db t)
      → Recorded t g entries db after
      → Sound db
      → Sound after
  Recorded-Sound g [] db after same sound = subst Sound (sym same) sound
  Recorded-Sound g (entry ∷ rest) db after (activities, events, a, e, later) sound =
      Recorded-Sound (λ n. g (suc n)) rest
        (record db { activities = activities; outbox_events = events }) after later
        (record {
          timed = sound.timed;
          numbered = sound.numbered;
          mirrored = written-Mirrored t (g 0) entry db activities events a e sound.mirrored;
        })

  changed_row :
      (p : Task → Bool) (f : Task → Task) (rows : t.task.Rows)
      → ((r : Task) → (f r).id ≡ r.id)
      → ((r : Task) → (f r).project_id ≡ r.project_id)
      → ((r : Task) → (f r).number ≡ r.number)
      → (k : ℕ) (x : Task) → t.task.get k (t.task.update_many p f rows) ≡ some x
      → (r : Task) × (t.task.get k rows ≡ some r) × (x ≡ (if p r then f r else r))
  changed_row p f rows same_id same_project same_number k x here =
      let e =
        t.task.get-update_many p f same_id (λ r x h. ground (arith, same_project r, same_number r))
          rows k in
      elim (Option-cases (t.task.get k rows)) [
        | inl absent ↦ absurd (ground (arith, e))
        | inr (r, there) ↦ (r, there, ground (arith, e))
      ]

  -- A change of tasks that leaves their projects, their numbers and their dates in order.
  pub changed-Sound :
      (p : Task → Bool) (f : Task → Task) (db : Db t)
      → ((r : Task) → (f r).id ≡ r.id)
      → ((r : Task) → (f r).project_id ≡ r.project_id)
      → ((r : Task) → (f r).number ≡ r.number)
      → ((k : ℕ) (r : Task) → t.task.get k db.tasks ≡ some r → p r ≡ true → Timed r → Timed (f r))
      → Sound db
      → Sound (record db { tasks = t.task.update_many p f db.tasks })
  changed-Sound p f db same_id same_project same_number keeps sound =
      let row_of : (k : ℕ) (x : Task)
          → t.task.get k (t.task.update_many p f db.tasks) ≡ some x
          → (r : Task) × (t.task.get k db.tasks ≡ some r) × (x ≡ (if p r then f r else r)) =
        λ k x here. changed_row p f db.tasks same_id same_project same_number k x here in
      record {
        timed = λ k x here.
            let (r, there, is) = row_of k x here in
            elim (Bool-cases (p r)) [
              | inl meets ↦
                  subst Timed (sym (is ∙ ap (λ b. if b then f r else r) meets))
                    (keeps k r there meets (sound.timed k r there))
              | inr not_it ↦
                  subst Timed (sym (is ∙ ap (λ b. if b then f r else r) not_it))
                    (sound.timed k r there)
            ];
        numbered = λ k x here.
            let (r, there, is) = row_of k x here in
            let (project, stands, below) = sound.numbered k r there in
            let (one, two) = unmoved p f same_project same_number r x is in
            (
              project,
              subst (λ i. t.project.get i db.projects ≡ some project) (sym one) stands,
              omega arith,
            );
        mirrored = sound.mirrored;
      }

  abbrev counted_rows : ℕ → t.project.Rows → t.project.Rows
  counted_rows id rows = t.project.update_many (λ p. p.id == id) counted rows

  its_counter :
      (id : ℕ) (rows : t.project.Rows) {project : Project}
      → t.project.get id rows ≡ some project
      → t.project.get id (counted_rows id rows) ≡ some (counted project)
  its_counter id rows there =
      ground (arith, get-updated t.project id id counted rows ((λ r. refl), λ r x h. h))

  any_counter :
      (id k : ℕ) (rows : t.project.Rows) (project : Project)
      → t.project.get k rows ≡ some project
      → (now : Project) × (t.project.get k (counted_rows id rows) ≡ some now)
        × (project.task_counter ≤ now.task_counter)
  any_counter id k rows project there =
      let e = get-updated t.project id k counted rows ((λ r. refl), λ r x h. h) in
      elim (ℕ-cases k id) [
        | inl same ↦ (counted project, ground (arith, e), omega arith)
        | inr other ↦ (project, ground (arith, e), omega arith)
      ]

  pub after_creation :
      (id now : ℕ) (input : CreateTaskInput) (db after : Db t) (task : Task)
      → Created t id now input db task after
      → Sound db
      → Sound after
  after_creation id now input db after task (project, rows, there, is, e, same) sound =
      let new = task_row id now (project.task_counter + 1) input in
      subst Sound (sym same) (record {
        timed = λ k x here. elim (created-cases t.task new db.tasks rows k x e here) [
          | inl is_new ↦ subst Timed (sym is_new) refl
          | inr old ↦ sound.timed k x old
        ];
        numbered = λ k x here. elim (created-cases t.task new db.tasks rows k x e here) [
          | inl is_new ↦ (
            counted project,
            subst
                (λ y.
                  t.project.get y.project_id (counted_rows input.project_id db.projects)
                  ≡ some (counted project))
                (sym is_new) (its_counter input.project_id db.projects there),
            omega (arith, ap (λ y. y.number) is_new),
          )
          | inr old ↦
              let (q, stands, below) = sound.numbered k x old in
              let (q2, stands2, grown) =
                any_counter input.project_id x.project_id db.projects q stands in
              (q2, stands2, omega arith)
        ];
        mirrored = sound.mirrored;
      })
