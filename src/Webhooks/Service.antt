-- ===== src/Webhooks/Service.antt =====
-- apps/api/src/modules/webhooks (webhooks.service.ts, webhooks.repository.ts).
-- What the check of the URL comes to and what queueing the delivery comes to are arguments, as are a new
-- row's key, a new secret and the time.
use tasks_platform.Common.{
  ℕ, String, Bool, true, false, ◌&&◌, Option, none, some, List, ◌==◌, leb, or_keep, if◌then◌else◌,
}
use tasks_platform.Database.Schema.{TaskActivityType, OutboxEvent, webhook_test}
use tasks_platform.Database.Integrations.{WebhookEndpoint, WebhookDelivery, WebhookDelivery_key}
use tasks_platform.Database.Client.{Tables, Result, Action, ok, pure, stored, changed, ◌>>◌}
use tasks_platform.Pagination.Page.{Page}
use tasks_platform.Pagination.Orders.{newest_first}
use tasks_platform.Pagination.Listing.{list_page}

pub record UpdateWebhookEndpointInput : Type 0 where
  pub url : Option String
  pub event_types : Option (List TaskActivityType)
  pub enabled : Option Bool

abbrev pub endpoint_row : ℕ → ℕ → String → ℕ → ℕ → String → List TaskActivityType → WebhookEndpoint
endpoint_row id now secret organization_id created_by_id url event_types = record {
  id = id;
  organization_id = organization_id;
  url = url;
  secret = secret;
  event_types = event_types;
  enabled = true;
  disabled_reason = none;
  consecutive_failures = 0;
  created_by_id = created_by_id;
  created_at = now;
}

-- `input.enabled === true`
abbrev pub turns_on : Option Bool → Bool
turns_on none = false
turns_on (some b) = b

-- The data of an update. Switching an endpoint on clears what led to its being switched off.
unfoldable pub updated : UpdateWebhookEndpointInput → WebhookEndpoint → WebhookEndpoint
updated input endpoint = record endpoint {
  url = or_keep input.url endpoint.url;
  event_types = or_keep input.event_types endpoint.event_types;
  enabled = or_keep input.enabled endpoint.enabled;
  consecutive_failures = if turns_on input.enabled then 0 else endpoint.consecutive_failures;
  disabled_reason = if turns_on input.enabled then none else endpoint.disabled_reason;
}

abbrev pub with_secret : String → WebhookEndpoint → WebhookEndpoint
with_secret secret endpoint = record endpoint { secret = secret }

abbrev pub test_event : ℕ → ℕ → WebhookEndpoint → OutboxEvent
test_event id now endpoint = record {
  id = id;
  organization_id = endpoint.organization_id;
  type = none;
  payload = webhook_test endpoint.id;
  created_at = now;
  dispatched_at = some now;
  attempts = 0;
}

module _ {t : Tables} where
  -- webhooksRepository
  unfoldable pub create_endpoint : WebhookEndpoint → Action t WebhookEndpoint
  create_endpoint row db =
      stored (t.webhook_endpoint.create row db.webhook_endpoints)
        (λ rows. record db { webhook_endpoints = rows }) row db

  unfoldable pub find_endpoint : ℕ → ℕ → Action t (Option WebhookEndpoint)
  find_endpoint id organization_id db = (
    ok (
        t.webhook_endpoint.find_first
          (λ endpoint. endpoint.id == id && endpoint.organization_id == organization_id)
          db.webhook_endpoints),
    db,
  )

  -- `update`, `rotateSecret` and the updates of the worker: one endpoint, by its key
  unfoldable pub change_endpoint :
      ℕ → (WebhookEndpoint → WebhookEndpoint) → Action t WebhookEndpoint
  change_endpoint id change db =
      changed (t.webhook_endpoint.update id change db.webhook_endpoints)
        (λ rows. record db { webhook_endpoints = rows }) db

  -- its deliveries go with it: `onDelete: Cascade`
  unfoldable pub remove_endpoint : ℕ → Action t (Unit {0})
  remove_endpoint id db =
      stored (t.webhook_endpoint.delete id db.webhook_endpoints)
        (λ rows. record db {
          webhook_endpoints = rows;
          webhook_deliveries =
              t.webhook_delivery.delete_many (λ delivery. delivery.endpoint_id == id)
                db.webhook_deliveries;
        })
        tt db

  -- webhooksService
  unfoldable pub create :
      Result (Unit {0})
      → ℕ
      → ℕ
      → String
      → ℕ
      → ℕ
      → String
      → List TaskActivityType
      → Action t WebhookEndpoint
  create url_checked id now secret organization_id created_by_id url event_types = do
    λ db. (url_checked, db)
    create_endpoint (endpoint_row id now secret organization_id created_by_id url event_types)

  -- The check runs only on a URL that is given.
  abbrev pub check_given : (String → Result (Unit {0})) → Option String → Action t (Unit {0})
  check_given check none = pure tt
  check_given check (some url) = λ db. (check url, db)

  unfoldable pub update :
      (String → Result (Unit {0}))
      → WebhookEndpoint
      → UpdateWebhookEndpointInput
      → Action t WebhookEndpoint
  update check endpoint input = do
    check_given check input.url
    change_endpoint endpoint.id (updated input)

  unfoldable pub rotate_secret : String → WebhookEndpoint → Action t WebhookEndpoint
  rotate_secret secret endpoint = change_endpoint endpoint.id (with_secret secret)

  unfoldable pub remove : WebhookEndpoint → Action t (Unit {0})
  remove endpoint = remove_endpoint endpoint.id

  unfoldable pub send_test_event : Result (Unit {0}) → ℕ → ℕ → WebhookEndpoint → Action t (Unit {0})
  send_test_event queued id now endpoint = do
    λ db.
        stored (t.outbox_event.create (test_event id now endpoint) db.outbox_events)
          (λ rows. record db { outbox_events = rows }) tt db
    λ db. (queued, db)

  -- `orderBy: { createdAt: 'desc' }`
  unfoldable pub list : ℕ → Action t (List WebhookEndpoint)
  list organization_id db = (
    ok (
        t.webhook_endpoint.find_ordered (λ endpoint. endpoint.organization_id == organization_id)
          (λ a b. leb b.created_at a.created_at) db.webhook_endpoints),
    db,
  )

abbrev pub delivery_order : WebhookDelivery → WebhookDelivery → Bool
delivery_order = newest_first (λ delivery. delivery.created_at) WebhookDelivery_key

module _ {t : Tables} (decode : String → Option ℕ) (encode : ℕ → String) where
  unfoldable pub list_deliveries :
      WebhookEndpoint → Option String → ℕ → Action t (Page WebhookDelivery)
  list_deliveries endpoint cursor limit db =
      list_page t.webhook_delivery decode encode (λ delivery. delivery.endpoint_id == endpoint.id)
        delivery_order cursor limit db.webhook_deliveries db
