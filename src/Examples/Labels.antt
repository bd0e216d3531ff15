-- ===== src/Examples/Labels.antt =====
-- Labels.
use tasks_platform.Common.{
  refl, String, Bool, none, some, [], ◌∷◌, ◌==◌, str_eq, if◌then◌else◌, ◌&&◌, ◌≡◌, arith, subst,
}
use tasks_platform.Authorization.Permissions.{member}
use tasks_platform.Authorization.Actor.{user}
use tasks_platform.Database.Labels.{Label}
use tasks_platform.Database.Client.{Db}
use tasks_platform.Database.Steps.{Ends}
use tasks_platform.Database.Instance.{memory, memory_tables}
use tasks_platform.Members.Gate.{user_auth}
use tasks_platform.Labels.Controller.{Request, Draws, serve_all}
use tasks_platform.Labels.Agreement.{Agrees, AllAgree}
use tasks_platform.Labels.Invariant.{serve_all-AllAgree}
use tasks_platform.Tasks.Labels.{set_labels, LabelsSet, set_labels-LabelsSet}
use tasks_platform.Examples.Rows

abbrev above : String → String → Bool
above a b = str_eq a "urgent" && str_eq b "bug"

abbrev bug : Label
bug = record { id = 1; organization_id = 1; name = "bug"; color = "#f00"; created_at = 0 }

-- One label, which the task has.
abbrev db : Db memory_tables
db = record Rows.db {
  labels = record { bound = 2; row = λ k. if k == 1 then some bug else none };
  task_labels = λ task label. task == 1 && label == 1;
}

abbrev draws : Draws
draws = record { generated = Rows.generated 10 0; label_id = 2; now = 7 }

-- User 3 created the task.
set_labels-LabelsSet_example :
    Ends
      (LabelsSet memory above (Rows.generated 10 0) Rows.task (user 3 member) 1 (1 ∷ (1 ∷ [])) db)
      (set_labels memory above (Rows.generated 10 0) Rows.task (user 3 member) 1 (1 ∷ (1 ∷ [])) db)
set_labels-LabelsSet_example =
    set_labels-LabelsSet memory above (Rows.generated 10 0) Rows.task (user 3 member) 1
      (1 ∷ (1 ∷ [])) db

agree : AllAgree memory_tables db
agree task label held =
    let same_task : 1 ≡ task = ground arith in
    let same_label : 1 ≡ label = ground arith in
    subst (λ i. Agrees memory_tables i label db) same_task
      (subst (λ j. Agrees memory_tables 1 j db) same_label
        (Rows.task, Rows.project, bug, refl, refl, refl, refl))

serve_all-AllAgree_example : AllAgree memory_tables (
    serve_all memory above str_eq
      ((some (user_auth 2), draws, Request.create 1 "urgent" "#00f")
        ∷ ((some (user_auth 3), draws, Request.set_labels 1 1 1 (2 ∷ []))
            ∷ ((some (user_auth 2), draws, Request.remove 1 1) ∷ [])))
      db)
serve_all-AllAgree_example =
    serve_all-AllAgree memory above str_eq
      ((some (user_auth 2), draws, Request.create 1 "urgent" "#00f")
        ∷ ((some (user_auth 3), draws, Request.set_labels 1 1 1 (2 ∷ []))
            ∷ ((some (user_auth 2), draws, Request.remove 1 1) ∷ [])))
      db agree
