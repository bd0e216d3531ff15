-- ===== src/Worker/Dispatcher.antt =====
-- apps/worker/src/dispatcher/outbox-dispatcher.ts: one cycle of the dispatcher. The time, the rows that other
-- transactions have locked and what adding a job to the queue comes to are arguments.
use tasks_platform.Common.{
  ℕ, ◌+◌, Bool, false, not, ◌&&◌, ◌||◌, Option, none, some, List, [], ◌∷◌, ◌++◌, map, ◌==◌, leb,
  is_some, take,
}
use tasks_platform.Common.Ordered.{ordered}
use tasks_platform.Database.Schema.{
  TaskActivityType, task_created, status_changed, priority_changed, assignee_changed,
  due_date_changed, title_changed, labels_changed, comment_added, OutboxEvent,
}
use tasks_platform.Database.Integrations.{WebhookEndpoint}
use tasks_platform.Database.Client.{Prisma, Tables, Db, Result, ok, Action, pure, ◌>>=◌, ◌>>◌}

-- `ORDER BY "createdAt"`
abbrev pub by_date : OutboxEvent → OutboxEvent → Bool
by_date a b = leb a.created_at b.created_at

-- `"dispatchedAt" IS NULL`, and no other transaction holds the row
abbrev pub claimable : (OutboxEvent → Bool) → OutboxEvent → Bool
claimable locked e = not (is_some e.dispatched_at) && not (locked e)

-- `id: { in: events.map((event) => event.id) }`
unfoldable pub has_id : List OutboxEvent → OutboxEvent → Bool
has_id [] e = false
has_id (x ∷ xs) e = x.id == e.id || has_id xs e

unfoldable pub dispatched : ℕ → OutboxEvent → OutboxEvent
dispatched now e = record e { dispatched_at = some now; attempts = e.attempts + 1 }

pub record Job : Type 0 where
  pub outbox_event_id : ℕ
  pub webhook_endpoint_id : ℕ

-- The events that a cycle claims, and the jobs that it adds.
pub record Dispatch : Type 0 where
  pub claimed : List ℕ
  pub jobs : List Job

abbrev pub type_index : TaskActivityType → ℕ
type_index task_created = 0
type_index status_changed = 1
type_index priority_changed = 2
type_index assignee_changed = 3
type_index due_date_changed = 4
type_index title_changed = 5
type_index labels_changed = 6
type_index comment_added = 7

-- `eventTypes: { has: event.type }`; no endpoint can ask for test events
unfoldable pub has_type : List TaskActivityType → Option TaskActivityType → Bool
has_type types none = false
has_type [] (some type) = false
has_type (x ∷ xs) (some type) = type_index x == type_index type || has_type xs (some type)

unfoldable pub subscribed : OutboxEvent → WebhookEndpoint → Bool
unfolding has_type
subscribed e endpoint =
    endpoint.organization_id == e.organization_id
    && endpoint.enabled
    && has_type endpoint.event_types e.type

abbrev pub job : OutboxEvent → WebhookEndpoint → Job
job e endpoint = record { outbox_event_id = e.id; webhook_endpoint_id = endpoint.id }

module _ {t : Tables} where
  -- The rows that the query of a cycle returns.
  unfoldable pub batch : ℕ → (OutboxEvent → Bool) → Db t → List OutboxEvent
  unfolding ordered
  batch batch_size locked db =
      take batch_size
        (ordered by_date (t.outbox_event.find_many (claimable locked) db.outbox_events))

  -- `if (events.length === 0) return []`, and the marks otherwise
  abbrev pub mark : ℕ → List OutboxEvent → Action t (List OutboxEvent)
  mark now [] db = (ok [], db)
  mark now (e ∷ es) db = (
    ok (e ∷ es),
    record db {
      outbox_events =
          t.outbox_event.update_many (has_id (e ∷ es)) (dispatched now) db.outbox_events;
    },
  )

  -- The block of the transaction.
  unfoldable pub claim : ℕ → ℕ → (OutboxEvent → Bool) → Action t (List OutboxEvent)
  unfolding batch has_id
  claim now batch_size locked db = mark now (batch batch_size locked db) db

  -- `await queue.add(…)` for each endpoint in turn
  unfoldable pub add_jobs : (Job → Result (Unit {0})) → List Job → Action t (Unit {0})
  add_jobs add [] = pure tt
  add_jobs add (x ∷ xs) = (λ db. (add x, db)) >> add_jobs add xs

  -- The jobs of an event: one for each endpoint that is on and subscribed to it.
  unfoldable pub jobs_of : OutboxEvent → Action t (List Job)
  unfolding subscribed
  jobs_of e db =
      (ok (map (job e) (t.webhook_endpoint.find_many (subscribed e) db.webhook_endpoints)), db)

  -- The loop over the events that were claimed.
  unfoldable pub enqueue : (Job → Result (Unit {0})) → List OutboxEvent → Action t (List Job)
  unfolding jobs_of
  enqueue add [] = pure []
  enqueue add (e ∷ es) = do
    jobs ← jobs_of e
    add_jobs add jobs
    rest ← enqueue add es
    pure (jobs ++ rest)

module _ (prisma : Prisma) where
  unfoldable pub dispatch_outbox_batch :
      (Job → Result (Unit {0})) → ℕ → ℕ → (OutboxEvent → Bool) → Action prisma.tables Dispatch
  dispatch_outbox_batch add now batch_size locked = do
    events ← prisma.transaction (List OutboxEvent) (claim now batch_size locked)
    jobs ← enqueue add events
    pure (record { claimed = map (λ (e : OutboxEvent). e.id) events; jobs = jobs })
