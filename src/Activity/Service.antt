-- ===== src/Activity/Service.antt =====
-- apps/api/src/modules/activity/activity.service.ts and activity.repository.ts with
-- apps/api/src/modules/outbox/outbox.repository.ts. What the columns' defaults generate, the two
-- primary keys and the time, is an argument.
use tasks_platform.Common.{
  ℕ, suc, ◌+◌, String, Bool, Option, some, none, List, [], ◌∷◌, ◌==◌, is_some, if◌then◌else◌,
}
use tasks_platform.Errors.{other}
use tasks_platform.Authorization.Actor.{Actor, user, api_key, actor_columns}
use tasks_platform.Database.Schema.{
  Json, TaskActivityType, TaskActivity, EventActor, user_actor, api_key_actor, task_event,
  OutboxEvent, TaskActivity_key,
}
use tasks_platform.Database.Client.{Tables, Action, err, pure, stored, ◌>>◌}
use tasks_platform.Pagination.Page.{Page}
use tasks_platform.Pagination.Orders.{newest_first}
use tasks_platform.Pagination.Listing.{list_page}

-- The keys and the creation dates of the two rows, which are defaults of their columns, and `new Date()`.
pub record Generated : Type 0 where
  pub activity_id : ℕ
  pub event_id : ℕ
  pub activity_created_at : ℕ
  pub event_created_at : ℕ
  pub now : ℕ

pub record RecordActivityInput : Type 0 where
  pub task_id : ℕ
  pub organization_id : ℕ
  pub actor : Actor
  pub type : TaskActivityType
  pub before : Json
  pub after : Json

abbrev pub event_actor : Actor → EventActor
event_actor (user id role) = user_actor id
event_actor (api_key id scopes) = api_key_actor id

-- The two rows that `record` writes.
abbrev pub activity_row : Generated → RecordActivityInput → TaskActivity
activity_row g input = record {
  id = g.activity_id;
  task_id = input.task_id;
  actor_id = (actor_columns input.actor).user_id;
  api_key_actor_id = (actor_columns input.actor).api_key_id;
  type = input.type;
  before = input.before;
  after = input.after;
  created_at = g.activity_created_at;
}

abbrev pub event_row : Generated → RecordActivityInput → OutboxEvent
event_row g input = record {
  id = g.event_id;
  organization_id = input.organization_id;
  type = some input.type;
  payload =
      task_event input.task_id input.type input.before input.after (event_actor input.actor) g.now;
  created_at = g.event_created_at;
  dispatched_at = none;
  attempts = 0;
}

-- How many of the two actor columns are set.
abbrev pub actor_count : TaskActivity → ℕ
actor_count row =
    (if is_some row.actor_id then 1 else 0) + (if is_some row.api_key_actor_id then 1 else 0)

module _ {t : Tables} where
  -- activityRepository.record
  unfoldable pub record_activity : TaskActivity → Action t (Unit {0})
  record_activity row db =
      if actor_count row == 1
      then stored (t.task_activity.create row db.activities)
          (λ rows. record db { activities = rows }) tt db
      else (
        err (
            other "Error"
              "activityRepository.record requires exactly one of actorId / apiKeyActorId"),
        db,
      )

  -- outboxRepository.record
  unfoldable pub record_event : OutboxEvent → Action t (Unit {0})
  record_event row db =
      stored (t.outbox_event.create row db.outbox_events)
        (λ rows. record db { outbox_events = rows }) tt db

  -- activityService.record
  unfoldable pub record_change : Generated → RecordActivityInput → Action t (Unit {0})
  record_change g input = do
    record_activity (activity_row g input)
    record_event (event_row g input)

  -- `for (const entry of changes) await activityService.record(entry, tx)`; the keys of the n-th entry
  -- are those that `g n` holds.
  unfoldable pub record_changes : (ℕ → Generated) → List RecordActivityInput → Action t (Unit {0})
  record_changes g [] = pure tt
  record_changes g (entry ∷ rest) =
      record_change (g 0) entry >> record_changes (λ n. g (suc n)) rest

abbrev pub activity_order : TaskActivity → TaskActivity → Bool
activity_order = newest_first (λ activity. activity.created_at) TaskActivity_key

module _ {t : Tables} (decode : String → Option ℕ) (encode : ℕ → String) where
  unfoldable pub list_for_task : ℕ → Option String → ℕ → Action t (Page TaskActivity)
  list_for_task task_id cursor limit db =
      list_page t.task_activity decode encode (λ activity. activity.task_id == task_id)
        activity_order cursor limit db.activities db
