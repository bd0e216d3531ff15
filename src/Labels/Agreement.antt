-- ===== src/Labels/Agreement.antt =====
-- Every label of a task is a label of the organization that the task's project belongs to.
use tasks_platform.Common.{
  ℕ, ◌≡◌, inl, inr, refl, sym, ap, ◌∙◌, subst, true, some, List, arith, ◌==◌, if◌then◌else◌,
  Bool-cases, ==_iff,
}
use tasks_platform.Common.Sets.{listed}
use tasks_platform.Database.Table.{created-old}
use tasks_platform.Database.Schema.{Project, Task}
use tasks_platform.Database.Labels.{Label}
use tasks_platform.Database.Client.{Tables, Db}
use tasks_platform.Database.Steps.{Ends}
use tasks_platform.Database.Outcomes.{stored_last, changed_last}
use tasks_platform.Labels.Service
use tasks_platform.Labels.Service.{UpdateLabelInput, edited}

module _ (t : Tables) where
  -- The task, its project and the label of a link, as they are stored.
  abbrev pub Agrees : ℕ → ℕ → Db t → Type 0
  Agrees task_id label_id db =
      (task : Task) × (project : Project) × (label : Label) × (t.task.get task_id db.tasks
        ≡ some task)
      × (t.project.get task.project_id db.projects ≡ some project)
      × (t.label.get label_id db.labels ≡ some label)
      × (label.organization_id ≡ project.organization_id)

  abbrev pub AllAgree : Db t → Type 0
  AllAgree db =
      (task_id label_id : ℕ)
      → t.task_label.holds task_id label_id db.task_labels ≡ true
      → Agrees task_id label_id db

  pub create_row-AllAgree :
      (row : Label) (db : Db t) → AllAgree db → Ends (λ r. AllAgree r.1) (Service.create_row row db)
  unfolding Service.create_row
  create_row-AllAgree row db agree =
      stored_last db _ _ _ (λ _. record { holds = agree })
        λ labels made. record {
          holds = λ task_id label_id held.
              let (task, project, label, task_there, project_there, there, same) =
                agree task_id label_id held in
              (
                task,
                project,
                label,
                task_there,
                project_there,
                created-old t.label row db.labels labels label_id made there,
                same,
              );
        }

  pub update_row-AllAgree :
      (id : ℕ) (input : UpdateLabelInput) (db : Db t)
      → AllAgree db
      → Ends (λ r. AllAgree r.1) (Service.update_row id input db)
  unfolding Service.update_row
  update_row-AllAgree id input db agree =
      changed_last db _ _ (λ _. record { holds = agree })
        λ updated labels e. record {
          holds = λ task_id label_id held.
              let (row, row_there, is, now) =
                t.label.get-update id (edited input) (λ r. refl) db.labels labels updated e in
              let (task, project, label, task_there, project_there, there, same) =
                agree task_id label_id held in
              elim (Bool-cases (label_id == id)) [
                | inl hit ↦
                    let unique_row : row ≡ label =
                      cc (ap (λ i. t.label.get i db.labels) ((==_iff label_id id).0 hit)) in
                    (
                      task,
                      project,
                      updated,
                      task_there,
                      project_there,
                      ground (arith, now label_id),
                      ap (λ l. l.organization_id) is
                          ∙ ap (λ l. l.organization_id) unique_row
                          ∙ same,
                    )
                | inr other ↦ (
                  task,
                  project,
                  label,
                  task_there,
                  project_there,
                  ground (arith, now label_id),
                  same,
                )
              ];
        }

  pub remove_row-AllAgree :
      (id : ℕ) (db : Db t) → AllAgree db → Ends (λ r. AllAgree r.1) (Service.remove_row id db)
  unfolding Service.remove_row
  remove_row-AllAgree id db agree =
      stored_last db _ _ _ (λ _. record { holds = agree })
        λ labels gone. record {
          holds = λ task_id label_id held.
              let cut = t.task_label.holds-delete_label task_id label_id id db.task_labels in
              let (task, project, label, task_there, project_there, there, same) =
                agree task_id label_id (ground arith) in
              (
                task,
                project,
                label,
                task_there,
                project_there,
                ground (arith, t.label.get-delete id label_id db.labels labels gone),
                same,
              );
        }

  -- New links for one task, to labels of its organization, with nothing else touched but the log.
  pub relabelled-AllAgree :
      (ids : List ℕ) (task : Task) (project : Project) (db : Db t) (links : t.task_label.Rows)
      (after : Db t)
      → t.task.get task.id db.tasks ≡ some task
      → t.project.get task.project_id db.projects ≡ some project
      → ((id : ℕ)
          → listed id ids ≡ true
          → (label : Label) × (t.label.get id db.labels ≡ some label)
            × (label.organization_id ≡ project.organization_id))
      → ((task' label : ℕ)
          → t.task_label.holds task' label links ≡ (
              if task' == task.id
              then listed label ids
              else t.task_label.holds task' label db.task_labels))
      → after ≡ record (record db { task_labels = links }) {
        activities = after.activities;
        outbox_events = after.outbox_events;
      }
      → AllAgree db
      → AllAgree after
  relabelled-AllAgree ids task project db links after there in_project valid linked frame agree =
      subst AllAgree (sym frame) λ task_id label_id held. elim (Bool-cases (task_id == task.id)) [
        | inl hit ↦
            let (label, stored, same) = valid label_id (ground (arith, linked task_id label_id)) in
            (
              task,
              project,
              label,
              ap (λ i. t.task.get i db.tasks) ((==_iff task_id task.id).0 hit) ∙ there,
              in_project,
              stored,
              same,
            )
        | inr other ↦ agree task_id label_id (ground (arith, linked task_id label_id))
      ]
