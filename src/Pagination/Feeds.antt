-- ===== src/Pagination/Feeds.antt =====
-- Following the cursors of the lists of comments, of the activity of a task, of projects and of the deliveries
-- of a webhook (commentsService.list, activityService.listForTask, projectsService.list and
-- webhooksService.listDeliveries).
use tasks_platform.Common.{ℕ, suc, inl, inr, ◌≡◌, refl, String, Option, none, some, ◌==◌}
use tasks_platform.Database.Schema.{ProjectStatus, TaskActivity_key, Project_key}
use tasks_platform.Database.Integrations.{WebhookEndpoint, WebhookDelivery_key, Comment_key}
use tasks_platform.Database.Client.{Tables, Db}
use tasks_platform.Pagination.Orders.{oldest_first-IsOrder, newest_first-IsOrder}
use tasks_platform.Pagination.Listing.{GivesAll}
use tasks_platform.Pagination.Walk.{walk-GivesAll}
use tasks_platform.Comments.Service as Comments
use tasks_platform.Activity.Service as Activity
use tasks_platform.Projects.Service as Projects
use tasks_platform.Webhooks.Service as Webhooks

module _ (t : Tables) (decode : String → Option ℕ) (encode : ℕ → String)
    (decode-encode : (k : ℕ) → decode (encode k) ≡ some k) (decode_empty : decode "" ≡ none) (n : ℕ)
    (db : Db t) where
  walk-comments :
      (task_id : ℕ)
      → GivesAll t.comment
          (Comments.of_task task_id)
          Comments.comment_order
          db.comments
          db
          (λ cursor. Comments.list {t = t} decode encode task_id cursor (suc n))
  unfolding Comments.list
  walk-comments task_id =
      walk-GivesAll t.comment decode encode decode-encode decode_empty (Comments.of_task task_id)
        Comments.comment_order n db.comments db
        (λ cursor. Comments.list {t = t} decode encode task_id cursor (suc n)) (λ cursor. refl)
        (oldest_first-IsOrder (λ comment. comment.created_at) Comment_key)
        (λ comment. comment.created_at, inl (λ a b. refl))

  walk-activity :
      (task_id : ℕ)
      → GivesAll t.task_activity
          (λ activity. activity.task_id == task_id)
          Activity.activity_order
          db.activities
          db
          (λ cursor. Activity.list_for_task {t = t} decode encode task_id cursor (suc n))
  unfolding Activity.list_for_task
  walk-activity task_id =
      walk-GivesAll t.task_activity decode encode decode-encode decode_empty
        (λ activity. activity.task_id == task_id) Activity.activity_order n db.activities db
        (λ cursor. Activity.list_for_task {t = t} decode encode task_id cursor (suc n))
        (λ cursor. refl) (newest_first-IsOrder (λ activity. activity.created_at) TaskActivity_key)
        (λ activity. activity.created_at, inr (λ a b. refl))

  walk-projects :
      (organization_id : ℕ) (status : Option ProjectStatus)
      → GivesAll t.project
          (Projects.listed_project organization_id status)
          Projects.project_order
          db.projects
          db
          (λ cursor. Projects.list {t = t} decode encode organization_id status cursor (suc n))
  unfolding Projects.list
  walk-projects organization_id status =
      walk-GivesAll t.project decode encode decode-encode decode_empty
        (Projects.listed_project organization_id status) Projects.project_order n db.projects db
        (λ cursor. Projects.list {t = t} decode encode organization_id status cursor (suc n))
        (λ cursor. refl) (newest_first-IsOrder (λ project. project.created_at) Project_key)
        (λ project. project.created_at, inr (λ a b. refl))

  walk-deliveries :
      (endpoint : WebhookEndpoint)
      → GivesAll t.webhook_delivery
          (λ delivery. delivery.endpoint_id == endpoint.id)
          Webhooks.delivery_order
          db.webhook_deliveries
          db
          (λ cursor. Webhooks.list_deliveries {t = t} decode encode endpoint cursor (suc n))
  unfolding Webhooks.list_deliveries
  walk-deliveries endpoint =
      walk-GivesAll t.webhook_delivery decode encode decode-encode decode_empty
        (λ delivery. delivery.endpoint_id == endpoint.id) Webhooks.delivery_order n
        db.webhook_deliveries db
        (λ cursor. Webhooks.list_deliveries {t = t} decode encode endpoint cursor (suc n))
        (λ cursor. refl)
        (newest_first-IsOrder (λ delivery. delivery.created_at) WebhookDelivery_key)
        (λ delivery. delivery.created_at, inr (λ a b. refl))

  -- Where a cursor decodes to what was encoded in it, and the empty text to nothing: whoever follows the
  -- cursors from the first page on, with pages of a positive size and as many requests as it takes, while
  -- nothing is written, gets exactly the comments of a task that are not deleted, the oldest first; exactly
  -- the activity of a task, the newest first; exactly the projects of an organization that are not deleted
  -- and have the given status, if one is given, the newest first; and exactly the deliveries of a webhook,
  -- the newest first; each of them once.
  pub walk-feeds :
      (task_id organization_id : ℕ) (status : Option ProjectStatus) (endpoint : WebhookEndpoint)
      → GivesAll t.comment
          (Comments.of_task task_id)
          Comments.comment_order
          db.comments
          db
          (λ cursor. Comments.list {t = t} decode encode task_id cursor (suc n))
        × GivesAll t.task_activity
            (λ activity. activity.task_id == task_id)
            Activity.activity_order
            db.activities
            db
            (λ cursor. Activity.list_for_task {t = t} decode encode task_id cursor (suc n))
        × GivesAll t.project
            (Projects.listed_project organization_id status)
            Projects.project_order
            db.projects
            db
            (λ cursor. Projects.list {t = t} decode encode organization_id status cursor (suc n))
        × GivesAll t.webhook_delivery
            (λ delivery. delivery.endpoint_id == endpoint.id)
            Webhooks.delivery_order
            db.webhook_deliveries
            db
            (λ cursor. Webhooks.list_deliveries {t = t} decode encode endpoint cursor (suc n))
  walk-feeds task_id organization_id status endpoint = (
    walk-comments task_id,
    walk-activity task_id,
    walk-projects organization_id status,
    walk-deliveries endpoint,
  )
