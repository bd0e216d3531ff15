-- ===== src/Examples/Lists.antt =====
-- Lists of tasks, page by page.
use tasks_platform.Common.{
  ℕ, zero, suc, ◌<◌, ◌≡◌, ◌↔◌, ◌≢◌, refl, ap, String, true, Option, none, some, List, length, Among,
  ◌==◌, str_eq,
}
use tasks_platform.Database.Schema.{Task}
use tasks_platform.Database.Instance.{memory_tables}
use tasks_platform.Pagination.Listing.{GivesAll, walk}
use tasks_platform.Tasks.Lists.{
  created_at, due_date, asc, TaskListFilter, TaskListQuery, in_project, assigned_in, task_before,
  list, list_assigned_to_user,
}
use tasks_platform.Tasks.Lists.Complete.{walk-list, list_assigned_overridden}
use tasks_platform.Comments.Service as Comments
use tasks_platform.Activity.Service as Activity
use tasks_platform.Projects.Service as Projects
use tasks_platform.Webhooks.Service as Webhooks
use tasks_platform.Pagination.Feeds.{walk-feeds}
use tasks_platform.Examples.Rows
use tasks_platform.Examples.Integrations

-- A cursor is as many signs as its number, and one more.
signs : ℕ → String
signs zero = ""
signs (suc n) = String.◌∷◌ "x" (signs n)

size : String → ℕ
size String.[] = 0
size (String.◌∷◌ c s) = suc (size s)

abbrev encode : ℕ → String
encode n = String.◌∷◌ "x" (signs n)

abbrev decode : String → Option ℕ
decode String.[] = none
decode (String.◌∷◌ c s) = some (size s)

size-signs : (n : ℕ) → size (signs n) ≡ n
unfolding size signs
size-signs zero = refl
size-signs (suc n) = ap suc (size-signs n)

decode-encode : (n : ℕ) → decode (encode n) ≡ some n
decode-encode n = ap some (size-signs n)

abbrev all_tasks : TaskListFilter
all_tasks = record {
  status = none;
  priority = none;
  assignee_id = none;
  unassigned = none;
  due_before = none;
  due_after = none;
  search = none;
  label_id = none;
}

abbrev query : TaskListQuery
query = record {
  filter = all_tasks;
  sort_by = created_at;
  sort_order = asc;
  cursor = none;
  limit = 1;
}

abbrev of_user_2 : TaskListQuery
of_user_2 = record query { filter = record all_tasks { assignee_id = some 2 } }

created_not_due : query.sort_by ≢ due_date
created_not_due e = cc e

walk-list_example :
    GivesAll memory_tables.task
      (in_project {t = memory_tables} str_eq 1 all_tasks Rows.db)
      (task_before created_at asc)
      Rows.db.tasks
      Rows.db
      (λ cursor. list {t = memory_tables} str_eq decode encode 1 (record query { cursor = cursor }))
walk-list_example =
    walk-list memory_tables str_eq decode encode decode-encode refl 1 0 query Rows.db
      created_not_due refl

-- User 3 asks for the tasks of user 2.
list_assigned_overridden_example :
    (tasks : List Task) × ((fuel : ℕ)
      → length tasks < fuel
      → walk
          (λ cursor.
            list_assigned_to_user {t = memory_tables} str_eq decode encode 1 3
              (record of_user_2 { cursor = cursor }))
          fuel
          none
          Rows.db
        ≡ some tasks)
    × ((task : Task) → Among task tasks → task.assignee_id ≡ some 2)
    × ((task : Task)
        → Among task tasks ↔ (
            (assigned_in {t = memory_tables} str_eq 1 2 of_user_2.filter Rows.db task ≡ true)
            × (memory_tables.task.get task.id Rows.db.tasks ≡ some task)))
list_assigned_overridden_example =
    list_assigned_overridden memory_tables str_eq decode encode decode-encode refl 1 3 2 0 of_user_2
      Rows.db created_not_due refl refl

-- The lists of task 1, of organization 1 and of a webhook.
walk-feeds_example :
    GivesAll memory_tables.comment
      (Comments.of_task 1)
      Comments.comment_order
      Rows.db.comments
      Rows.db
      (λ cursor. Comments.list {t = memory_tables} decode encode 1 cursor 1)
    × GivesAll memory_tables.task_activity
        (λ activity. activity.task_id == 1)
        Activity.activity_order
        Rows.db.activities
        Rows.db
        (λ cursor. Activity.list_for_task {t = memory_tables} decode encode 1 cursor 1)
    × GivesAll memory_tables.project
        (Projects.listed_project 1 none)
        Projects.project_order
        Rows.db.projects
        Rows.db
        (λ cursor. Projects.list {t = memory_tables} decode encode 1 none cursor 1)
    × GivesAll memory_tables.webhook_delivery
        (λ delivery. delivery.endpoint_id == Integrations.endpoint.id)
        Webhooks.delivery_order
        Rows.db.webhook_deliveries
        Rows.db
        (λ cursor.
          Webhooks.list_deliveries {t = memory_tables} decode encode Integrations.endpoint cursor 1)
walk-feeds_example =
    walk-feeds memory_tables decode encode decode-encode refl 0 Rows.db 1 1 none
      Integrations.endpoint
